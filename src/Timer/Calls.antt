-- ===== src/Timer/Calls.antt =====
-- The public calls on a heap of timers, against the set of timers that it holds.
use simple_kit.Base.{
  ℕ, zero, suc, ◌+◌, ◌-◌, ◌/◌, ◌^◌, ◌≤◌, ◌<◌, ◌≡◌, ◌≢◌, ◌⊎◌, refl, ap, sym, ◌∙◌, true, false, ◌==◌,
  ==_iff, ◌&&◌, leb, arith, Bool-cases, inl, inr, if◌then◌else◌, Option, none, some,
}
use simple_kit.Base.Words.{add64, sub64}
use simple_kit.Timer.{Manager, new, update, plug, insert, remove, modify, pop, top}
use simple_kit.Timer.Order.{Linked, key, IsSized, IsValid, member, Holed}
use simple_kit.Timer.Adjust.{adjust_heap-IsValid, Removed, refill-Removed}

-- What putting a timer in leaves.
pub record Inserted (m : Manager) (t : ℕ) (r : Manager) : Type 0 where
  pub valid : IsValid r
  pub members : (a : ℕ) → member r a ≡ (if t == a then true else member m a)
  pub length : r.heap_length ≡ m.heap_length + 1
  pub expire : r.expire ≡ m.expire

module _ (m : Manager) (t : ℕ) (v : IsValid m) (fits : m.heap_length + 1 < 2 ^ 61)
    (out : member m t ≡ false) where
  abbrev longer : Manager
  longer =
      let size = if leb m.heap_size m.heap_length then add64 m.heap_size 1 else m.heap_size in
      let length = add64 m.heap_length 1 in
      record m { heap_size = size; heap_length = length; index = update m.index t length }

  one_more : add64 m.heap_length 1 ≡ m.heap_length + 1
  one_more = omega arith

  own : longer.index t ≡ m.heap_length + 1
  own = ground (arith, one_more)

  longer-IsSized : IsSized longer
  longer-IsSized =
      let room = v.sized.room in
      let small = v.sized.small in
      elim (Bool-cases (leb m.heap_size m.heap_length)) [
        | inl full ↦ rw full (let same : m.heap_size ≡ m.heap_length = ground arith in omega arith)
        | inr space ↦ rw space (ground arith)
      ]

  nodes_now :
      (i : ℕ)
      → (plug longer t).heap_nodes i ≡ (if m.heap_length + 1 == i then t else m.heap_nodes i)
  nodes_now i = ground (arith, own)

  longer-Linked : Linked (plug longer t)
  longer-Linked i p q = elim (Bool-cases (m.heap_length + 1 == i)) [
    | inl same ↦ rw (nodes_now i, same) (ground (arith, own))
    | inr other ↦
        let inside : i ≤ m.heap_length = ground (arith, one_more) in
        let here = v.linked i p inside in
        let ne : t ≢ m.heap_nodes i = λ e. absurd (ground (arith, ap m.index e)) in
        rw (nodes_now i, other) (ground arith)
  ]

  longer-Holed : Holed (plug longer t) (m.heap_length + 1)
  longer-Holed = record {
    sized = record { room = longer-IsSized.room; small = longer-IsSized.small };
    linked = longer-Linked;
    low = omega arith;
    high = omega arith;
    edges = λ c p q r s. ground (arith, nodes_now c, nodes_now (c / 2), v.heap c, one_more);
    bridged = λ c p q r s. absurd (omega (arith, one_more));
  }

  longer-members : (a : ℕ) → member (plug longer t) a ≡ (if t == a then true else member m a)
  longer-members a = ground (arith, nodes_now ((plug longer t).index a), own, one_more)

  -- On a valid heap whose next length stays below 2^61, sio_timer_insert of a timer that is not in
  -- the heap leaves a valid heap, in which every timer knows its place and none precedes its
  -- parent, with exactly that timer more, the length one more and no time changed.
  pub insert-Inserted : Inserted m t (insert m t)
  unfolding insert
  insert-Inserted =
      let (valid, same) = adjust_heap-IsValid longer t (m.heap_length + 1) own longer-Holed in
      record {
        valid = valid;
        members = λ a. same.members a ∙ longer-members a;
        length = same.length ∙ one_more;
        expire = same.expire;
      }

-- The last timer goes by the length alone.
drop_last-Removed :
    (m : Manager)
    → IsValid m
    → 1 ≤ m.heap_length
    → Removed m (m.heap_nodes m.heap_length) (record m { heap_length = sub64 m.heap_length 1 })
drop_last-Removed m v pos =
    let room = v.sized.room in
    let small = v.sized.small in
    let less : sub64 m.heap_length 1 ≡ m.heap_length - 1 = omega arith in
    let here = v.linked m.heap_length pos (omega arith) in
    record {
      valid = record {
        sized = record { room = omega arith; small = small };
        linked = λ i p q. v.linked i p (omega arith);
        heap = λ c p q. v.heap c p (omega arith);
      };
      members = λ a. ground (arith, less);
      length = omega arith;
      expire = refl;
    }

-- On a valid heap sio_timer_remove of any timer in it leaves a valid heap without exactly that
-- timer, the length one less and no time changed.
pub remove-Removed :
    (m : Manager) (t : ℕ) → IsValid m → member m t ≡ true → Removed m t (remove m t)
unfolding remove
remove-Removed m t v h =
    let low : 1 ≤ m.index t = ground arith in
    let high : m.index t ≤ m.heap_length = ground arith in
    let is : m.heap_nodes (m.index t) ≡ t = ground arith in
    elim (Bool-cases (m.index t == m.heap_length)) [
      | inl end ↦
          let same : m.heap_length ≡ m.index t = ground arith in
          let last : m.heap_nodes m.heap_length ≡ t = ap m.heap_nodes same ∙ is in
          rw end (rw last at (drop_last-Removed m v (omega arith)))
      | inr mid ↦ rw mid (rw is at (refill-Removed m (m.index t) v low (ground arith)))
    ]

-- What a call leaves that changes a time and no more.
pub record Moved (m : Manager) (t time : ℕ) (r : Manager) : Type 0 where
  pub valid : IsValid r
  pub members : (a : ℕ) → member r a ≡ member m a
  pub length : r.heap_length ≡ m.heap_length
  pub expire : r.expire ≡ update m.expire t time

-- When a user sets the time of a timer in a valid heap to any value, sio_timer_modify leaves a
-- valid heap of the same timers and the same length, with that one time changed.
pub modify-Moved :
    (m : Manager) (t time : ℕ)
    → IsValid m
    → member m t ≡ true
    → Moved m t time (modify (record m { expire = update m.expire t time }) t)
unfolding modify
modify-Moved m t time v h =
    let set = record m { expire = update m.expire t time } in
    let k = m.index t in
    let low : 1 ≤ k = ground arith in
    let high : k ≤ m.heap_length = ground arith in
    let is : m.heap_nodes k ≡ t = ground arith in
    let nodes = λ (i : ℕ).
      let out : (plug set t).heap_nodes i ≡ m.heap_nodes i =
        ground (arith, ap m.heap_nodes {x = k} {y = i}) in
      out in
    let apart = λ (i : ℕ) (p : 1 ≤ i) (q : i ≤ m.heap_length) (r : i ≢ k).
      let out : t ≢ m.heap_nodes i = λ e. r (sym (v.linked i p q) ∙ ap m.index (sym e)) in out in
    let other = λ (i : ℕ) (p : 1 ≤ i) (q : i ≤ m.heap_length) (r : i ≢ k).
      let out : key (plug set t) i ≡ key m i = ground (arith, nodes i, apart i p q r) in out in
    let (valid, same) = adjust_heap-IsValid set t k refl (record {
      sized = record { room = v.sized.room; small = v.sized.small };
      linked = λ i p q. ap m.index (nodes i) ∙ v.linked i p q;
      low = low;
      high = high;
      edges = λ c p q r s.
          rw (other c (omega arith) q r, other (c / 2) (omega arith) (omega arith) s)
            (v.heap c p q);
      bridged = λ c p q r s.
          let above : k / 2 ≢ k = omega arith in
          let below : c ≢ k = omega arith in
          let first = v.heap k s high in
          let second = v.heap c p q in
          rw (other c (omega arith) q below, other (k / 2) (omega arith) (omega arith) above)
            (ground (arith, ap (key m) r));
    }) in
    record {
      valid = valid;
      members = λ a.
          same.members a
          ∙ ap (λ n. leb 1 (m.index a) && leb (m.index a) m.heap_length && n == a)
              (nodes (m.index a));
      length = same.length;
      expire = same.expire;
    }

root_least :
    (fuel : ℕ) (m : Manager) (i : ℕ)
    → IsValid m
    → i ≤ fuel
    → 1 ≤ i
    → i ≤ m.heap_length
    → key m 1 ≤ key m i
root_least zero m i v f p q = absurd (omega arith)
root_least (suc fuel) m i v f p q = elim (Bool-cases (i == 1)) [
  | inl is ↦ ground (arith, ap (key m) {x = i} {y = 1})
  | inr deep ↦
      let two : 2 ≤ i = ground arith in
      let up = root_least fuel m (i / 2) v (omega arith) (omega arith) (omega arith) in
      omega (arith, v.heap i two q)
]

-- What `sio_timer_pop` does with a heap that is not empty.
pub record Popped (m : Manager) (t : ℕ) (r : Option ℕ × Manager) : Type 0 where
  pub returned : r.0 ≡ some t
  pub seen : top m ≡ some t
  pub held : member m t ≡ true
  pub earliest : (a : ℕ) → member m a ≡ true → m.expire t ≤ m.expire a
  pub removed : Removed m t r.1

pop-Popped :
    (m : Manager) → IsValid m → (m.heap_length == 0) ≡ false → Popped m (m.heap_nodes 1) (pop m)
unfolding pop top
pop-Popped m v some_held =
    let pos : 1 ≤ m.heap_length = ground arith in
    let first = v.linked 1 (omega arith) pos in
    record {
      returned = rw some_held refl;
      seen = rw some_held refl;
      held = ground (arith, ap m.heap_nodes first);
      earliest = λ a h.
          let low : 1 ≤ m.index a = ground arith in
          let high : m.index a ≤ m.heap_length = ground arith in
          let is : m.heap_nodes (m.index a) ≡ a = ground arith in
          ground
            (arith, ap m.expire is, root_least (m.index a) m (m.index a) v (omega arith) low high);
      removed = elim (Bool-cases (m.heap_length == 1)) [
        | inl single ↦
            let is : m.heap_length ≡ 1 = ground arith in
            let less : sub64 m.heap_length 1 ≡ 0 = omega arith in
            rw (some_held, single) (rw (ap m.heap_nodes is, less) at (drop_last-Removed m v pos))
        | inr more ↦ rw (some_held, more) (refill-Removed m 1 v (omega arith) (ground arith))
      ];
    }

-- On a valid heap sio_timer_pop returns NULL and changes nothing if it is empty, and sio_timer_top
-- is NULL; else it returns a timer of the heap that no other timer of it precedes in time, the one
-- that sio_timer_top shows, and leaves a valid heap without exactly that timer, the length one
-- less and no time changed.
pub pop_lem :
    (m : Manager)
    → IsValid m
    → ((m.heap_length ≡ 0) × (pop m ≡ (none, m)) × (top m ≡ none)) ⊎ ((t : ℕ) × Popped m t (pop m))
pop_lem m v = elim (Bool-cases (m.heap_length == 0)) [
  | inl empty ↦ inl ((==_iff _ _).0 empty, unfold pop in rw empty refl, unfold top in rw empty refl)
  | inr full ↦ inr (m.heap_nodes 1, pop-Popped m v full)
]

-- A new manager is valid and holds no timer.
pub new-IsValid :
    (index expire : ℕ → ℕ)
    → IsValid (new index expire) × ((a : ℕ) → member (new index expire) a ≡ false)
unfolding new
new-IsValid index expire = (
  record {
    sized = omega arith;
    linked = λ i p q. absurd (omega arith);
    heap = λ c p q. absurd (omega arith);
  },
  λ a. ground arith,
)
