-- ===== src/Deque/Ends.antt =====
-- Pushing and popping at both ends of the deque of simple_deque/sdeque.c.
use simple_kit.Base.{
  ℕ, ◌-◌, ◌≡◌, ◌≢◌, refl, ap, ◌∙◌, true, false, ◌==◌, [], ◌∷◌, ◌++◌, arith, length, Bool-cases, inl,
  inr, some, ==_iff,
}
use simple_kit.Deque.{Deque, null, push_front, push_back, pop_front, pop_back, front, back}
use simple_kit.Deque.Seg.{
  Cells, has, Points, Seg, nil, cons, Holds, frame, has-last, live_of_has, not-has_of_fresh, relink,
  Seg-Split, length-snoc, snoc,
}

module _ (addr v : ℕ) (real : addr ≢ null) where
  push_front-Seg :
      (d : Deque) {first last : ℕ} {xs : Cells}
      → d.head ≡ first
      → d.tail ≡ last
      → d.live addr ≡ false
      → Seg d null last null first xs
      → let e = push_front addr d v in Seg e null e.tail null e.head ((addr, v) ∷ xs)
  unfolding push_front
  push_front-Seg d hd tl dead (nil p q) =
      let got : (d.head == null) ≡ true = ground arith in
      rw got (
        cons
          (record {
            real = real;
            live = ground arith;
            value = ground arith;
            prev = ground arith;
            next = ground arith;
          })
          refl (nil refl refl))
  push_front-Seg d {last} hd tl dead (cons {a} {v = w} {xs} p out s) =
      let got : (d.head == null) ≡ false = ground (arith, p.real) in
      let new = not-has_of_fresh addr (cons p out s) dead in
      let old : (addr == a) ≡ false = ground arith in
      rw (got, hd, tl)
        (cons
          (record {
            real = real;
            live = ground arith;
            value = ground arith;
            prev = ground arith;
            next = ground arith;
          })
          new
          (cons
            (record {
              real = p.real;
              live = ground (arith, p.live);
              value = ground (arith, p.value);
              prev = ground arith;
              next = ground (arith, p.next);
            })
            out
            (frame s λ b h.
              let apart : (addr == b) ≡ false = ground arith in
              let other : (a == b) ≡ false = ground arith in
              record {
                live = ground arith;
                value = ground arith;
                prev = ground arith;
                next = ground arith;
              })))

  push_back-Seg :
      (d : Deque) {first last : ℕ} {xs : Cells}
      → d.head ≡ first
      → d.tail ≡ last
      → d.live addr ≡ false
      → Seg d null last null first xs
      → let e = push_back addr d v in Seg e null e.tail null e.head (xs ++ (addr, v) ∷ [])
  unfolding push_back
  push_back-Seg d hd tl dead (nil p q) =
      let got : (d.tail == null) ≡ true = ground arith in
      rw got (
        cons
          (record {
            real = real;
            live = ground arith;
            value = ground arith;
            prev = ground arith;
            next = ground arith;
          })
          refl (nil refl refl))
  push_back-Seg d {last} hd tl dead (cons {a} {v = w} {xs} p out s) =
      let whole = cons p out s in
      let (alive, held) = live_of_has last whole (has-last whole) in
      let got : (d.tail == null) ≡ false = ground arith in
      let new = not-has_of_fresh addr whole dead in
      let other : (addr == last) ≡ false = ground arith in
      rw (got, hd, tl)
        (snoc
          (relink addr whole
            (λ b h ne.
              let apart : (addr == b) ≡ false = ground arith in
              record {
                live = ground arith;
                value = ground arith;
                prev = ground arith;
                next = ground arith;
              })
            (record {
              live = ground arith;
              value = ground arith;
              prev = ground arith;
              next = ground arith;
            }))
          (record {
            real = real;
            live = ground arith;
            value = ground arith;
            prev = ground arith;
            next = ground arith;
          })
          new)

  -- `sdeque_push_front` with a fresh address puts the value before the others.
  pub push_front-Holds :
      {d : Deque} {xs : Cells}
      → d.live addr ≡ false
      → Holds d xs
      → Holds (push_front addr d v) ((addr, v) ∷ xs)
  push_front-Holds {d} {xs} dead h = record {
    links = push_front-Seg d refl refl dead h.links;
    count = unfold push_front in ground (arith, h.count);
  }

  -- `sdeque_push_back` with a fresh address puts the value behind the others.
  pub push_back-Holds :
      {d : Deque} {xs : Cells}
      → d.live addr ≡ false
      → Holds d xs
      → Holds (push_back addr d v) (xs ++ (addr, v) ∷ [])
  push_back-Holds {d} {xs} dead h = record {
    links = push_back-Seg d refl refl dead h.links;
    count = unfold push_back in ground (arith, h.count, length-snoc xs (addr, v));
  }

pop_front-Seg :
    (d : Deque) {first last a v : ℕ} {xs : Cells}
    → d.head ≡ first
    → d.tail ≡ last
    → Seg d null last null first ((a, v) ∷ xs)
    → let r = pop_front d in
      Seg r.1 null r.1.tail null r.1.head xs
      × (r.0 ≡ true)
      × (front d ≡ some v)
      × (r.1.live a ≡ false)
unfolding pop_front front
pop_front-Seg d hd tl (cons {a} p out (nil q r)) =
    let got : (d.head == null) ≡ false = ground (arith, p.real) in
    let end : (d.next d.head == null) ≡ true = ground (arith, p.next) in
    rw (got, end) (nil (ground arith) refl, refl, ground (arith, p.value), ground arith)
pop_front-Seg d hd tl (cons {a} p out (cons {a = b} q out' s)) =
    let got : (d.head == null) ≡ false = ground (arith, p.real) in
    let real = q.real in
    let is : d.next d.head ≡ b = ap d.next hd ∙ p.next in
    let more : (b == null) ≡ false = ground arith in
    let ab : (a == b) ≡ false = ground arith in
    rw (got, is, more, hd, tl)
      (
        cons
            (record {
              real = real;
              live = ground (arith, q.live);
              value = q.value;
              prev = ground arith;
              next = q.next;
            })
            out'
            (frame s λ c h.
              let other : (b == c) ≡ false = ground arith in
              let apart : (a == c) ≡ false = ground arith in
              record { live = ground arith; value = refl; prev = ground arith; next = refl }),
        refl,
        ground (arith, p.value),
        ground arith,
      )

-- A pop that succeeds counts one node less.
pop_front-count : (d : Deque) → (pop_front d).0 ≡ true → (pop_front d).1.num_nodes ≡ d.num_nodes - 1
unfolding pop_front
pop_front-count d h = ground arith

pop_back-count : (d : Deque) → (pop_back d).0 ≡ true → (pop_back d).1.num_nodes ≡ d.num_nodes - 1
unfolding pop_back
pop_back-count d h = ground arith

-- `sdeque_pop_front` takes the first node off and frees it.
pub pop_front-Holds :
    {d : Deque} {a v : ℕ} {xs : Cells}
    → Holds d ((a, v) ∷ xs)
    → Holds (pop_front d).1 xs
      × ((pop_front d).0 ≡ true)
      × (front d ≡ some v)
      × ((pop_front d).1.live a ≡ false)
pop_front-Holds {d} h =
    let (links, done, seen, freed) = pop_front-Seg d refl refl h.links in
    (
      record { links = links; count = omega (arith, pop_front-count d done, h.count) },
      done,
      seen,
      freed,
    )

pop_back-Seg :
    (d : Deque) {first last prior v : ℕ} {xs : Cells}
    → d.head ≡ first
    → d.tail ≡ last
    → Points d last v prior null
    → has last xs ≡ false
    → Seg d last prior null first xs
    → let r = pop_back d in
      Seg r.1 null r.1.tail null r.1.head xs
      × (r.0 ≡ true)
      × (back d ≡ some v)
      × (r.1.live last ≡ false)
unfolding pop_back back
pop_back-Seg d hd tl node out (nil p q) =
    let real = node.real in
    let got : (d.tail == null) ≡ false = ground arith in
    let end : (d.prev d.tail == null) ≡ true = ground (arith, node.prev) in
    rw (got, end) (nil refl (ground arith), refl, ground (arith, node.value), ground arith)
pop_back-Seg d {last} {prior} hd tl node out (cons {a} {v = w} {xs} p out' s) =
    let whole = cons p out' s in
    let inner = has-last whole in
    let (alive, held) = live_of_has prior whole inner in
    let real = node.real in
    let got : (d.tail == null) ≡ false = ground arith in
    let is : d.prev d.tail ≡ prior = ap d.prev tl ∙ node.prev in
    let more : (prior == null) ≡ false = ground arith in
    let apart : (last == prior) ≡ false = elim (Bool-cases (last == prior)) [
      | inl e ↦ let same = ap (λ n. has n ((a, w) ∷ xs)) ((==_iff last prior).0 e) in cc
      | inr ne ↦ ne
    ] in
    rw (got, is, more, hd, tl)
      (
        relink null whole
            (λ b h ne.
              let other : (last == b) ≡ false = elim (Bool-cases (last == b)) [
                | inl e ↦ let same = ap (λ n. has n ((a, w) ∷ xs)) ((==_iff last b).0 e) in cc
                | inr off ↦ off
              ] in
              record { live = ground arith; value = refl; prev = refl; next = ground arith })
            (record { live = ground arith; value = refl; prev = refl; next = ground arith }),
        refl,
        ground (arith, node.value),
        ground arith,
      )

-- The nodes before the last, the last one's address and its value.
pub record Snoc (all : Cells) : Type 0 where
  pub init : Cells
  pub addr : ℕ
  pub value : ℕ
  pub parts : all ≡ init ++ (addr, value) ∷ []

-- On a well-formed deque with a node, sdeque_pop_back returns 0, leaves a well-formed deque of the
-- nodes before the last one, with all pointers between them and the count right, and frees the
-- last node, whose value sdeque_back had shown.
pub pop_back-Holds :
    {d : Deque} {a v : ℕ} {xs : Cells}
    → Holds d ((a, v) ∷ xs)
    → (z : Snoc ((a, v) ∷ xs)) × Holds (pop_back d).1 z.init
      × ((pop_back d).0 ≡ true)
      × (back d ≡ some z.value)
      × ((pop_back d).1.live z.addr ≡ false)
pop_back-Holds {d} h =
    let s = Seg-Split h.links in
    let (links, done, seen, freed) = pop_back-Seg d refl refl s.node s.out s.links in
    (
      record { init = s.init; addr = d.tail; value = s.value; parts = s.parts },
      record {
        links = links;
        count = omega (
          arith,
          pop_back-count d done,
          h.count,
          ap length s.parts,
          length-snoc s.init (d.tail, s.value),
        );
      },
      done,
      seen,
      freed,
    )
