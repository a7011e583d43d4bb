-- ===== src/Deque/Seg.antt =====
-- Segments of the linked list: what the pointers of its nodes say, forward and backward.
use simple_kit.Base.{
  ℕ, ◌+◌, ◌≡◌, ◌≢◌, refl, sym, ap, ◌∙◌, Bool, true, false, ◌||◌, ◌==◌, List, [], ◌∷◌, ◌++◌, arith,
  length, Bool-cases, inl, inr, ==_iff,
}
use simple_kit.Deque.{Deque, null, assign}

-- Address and value of each node, in order.
abbrev pub Cells : Type 0
Cells = List (ℕ × ℕ)

abbrev pub has : ℕ → Cells → Bool
has a [] = false
has a ((b, _) ∷ xs) = (a == b) || has a xs

-- A live node with its value, its predecessor and its successor.
pub record Points (d : Deque) (a v before after : ℕ) : Type 0 where
  pub real : a ≢ null
  pub live : d.live a ≡ true
  pub value : d.value a ≡ v
  pub prev : d.prev a ≡ before
  pub next : d.next a ≡ after

-- From `first` the pointers lead through the distinct nodes `xs`, the last of them `last`, to
-- `stop`; the first has `before` behind it, and `last` is `before` if there is none.
pub data Seg (d : Deque) (stop last : ℕ) : ℕ → ℕ → Cells → Type 0 where
  nil : {before first : ℕ} → first ≡ stop → last ≡ before → Seg d stop last before first []
  cons :
      {before a v after : ℕ} {xs : Cells}
      → Points d a v before after
      → has a xs ≡ false
      → Seg d stop last a after xs
      → Seg d stop last before a ((a, v) ∷ xs)

-- A deque that holds the cells.
pub record Holds (d : Deque) (xs : Cells) : Type 0 where
  pub links : Seg d null d.tail null d.head xs
  pub count : d.num_nodes ≡ length xs

-- Two states agree on a node.
pub record Agree (d e : Deque) (a : ℕ) : Type 0 where
  pub live : e.live a ≡ d.live a
  pub value : e.value a ≡ d.value a
  pub prev : e.prev a ≡ d.prev a
  pub next : e.next a ≡ d.next a

pub Agree-Points :
    {d e : Deque} {a v before after : ℕ}
    → Agree d e a
    → Points d a v before after
    → Points e a v before after
Agree-Points g p = record {
  real = p.real;
  live = g.live ∙ p.live;
  value = g.value ∙ p.value;
  prev = g.prev ∙ p.prev;
  next = g.next ∙ p.next;
}

-- A segment depends on its own nodes alone.
pub frame :
    {d e : Deque} {stop last before first : ℕ} {xs : Cells}
    → Seg d stop last before first xs
    → ((a : ℕ) → has a xs ≡ true → Agree d e a)
    → Seg e stop last before first xs
frame (nil p q) same = nil p q
frame (cons {a} p out s) same =
    cons (Agree-Points (same a (ground arith)) p) out (frame s λ b h. same b (ground arith))

-- The last node of a segment is one of it.
pub has-last :
    {d : Deque} {stop last before first a v : ℕ} {xs : Cells}
    → Seg d stop last before first ((a, v) ∷ xs)
    → has last ((a, v) ∷ xs) ≡ true
has-last (cons {a} {xs = []} p out (nil q r)) = ground arith
has-last {last} (cons {a} {xs = (b, w) ∷ ys} p out s) = ground (arith, has-last s)

-- Every node of a segment is live and none is null.
pub live_of_has :
    {d : Deque} {stop last before first : ℕ} {xs : Cells} (a : ℕ)
    → Seg d stop last before first xs
    → has a xs ≡ true
    → (d.live a ≡ true) × (a ≢ null)
live_of_has a (nil p q) h = cc
live_of_has a (cons {a = b} p out s) h = elim (Bool-cases (a == b)) [
  | inl e ↦ rw ((==_iff a b).0 e) (p.live, p.real)
  | inr ne ↦ live_of_has a s (ground arith)
]

pub not-has_of_fresh :
    {d : Deque} {stop last before first : ℕ} {xs : Cells} (a : ℕ)
    → Seg d stop last before first xs
    → d.live a ≡ false
    → has a xs ≡ false
not-has_of_fresh {xs} a s dead = elim (Bool-cases (has a xs)) [
  | inl e ↦ let (alive, _) = live_of_has a s e in cc
  | inr ne ↦ ne
]

-- A new value for the last node's successor: the segment leads to another stop.
pub relink :
    {d e : Deque} {stop last before first a v : ℕ} {xs : Cells} (other : ℕ)
    → Seg d stop last before first ((a, v) ∷ xs)
    → ((b : ℕ) → has b ((a, v) ∷ xs) ≡ true → (b == last) ≡ false → Agree d e b)
    → Agree (record d { next = assign d.next last other }) e last
    → Seg e other last before first ((a, v) ∷ xs)
relink {last} other (cons {a} {xs = []} p out (nil q r)) same end =
    cons
      (record {
        real = p.real;
        live = ground arith;
        value = ground arith;
        prev = ground arith;
        next = ground arith;
      })
      refl (nil refl r)
relink {last} other (cons {a} {xs = (b, w) ∷ ys} p out s) same end =
    let inner = has-last s in
    cons (Agree-Points (same a (ground arith) (ground arith)) p) out
      (relink other s (λ c h ne. same c (ground arith) ne) end)

pub has-append : (a : ℕ) (xs ys : Cells) → has a (xs ++ ys) ≡ (has a xs || has a ys)
has-append a [] ys = refl
has-append a (x ∷ xs) ys = ground (arith, has-append a xs ys)

pub length-snoc : (xs : Cells) (x : ℕ × ℕ) → length (xs ++ x ∷ []) ≡ length xs + 1
length-snoc [] x = omega arith
length-snoc (y ∷ xs) x = omega (arith, length-snoc xs x)

-- The last node of a segment that is not empty, and the segment up to it.
pub record Split (d : Deque) (last before first : ℕ) (all : Cells) : Type 0 where
  pub init : Cells
  pub value : ℕ
  pub prior : ℕ
  pub parts : all ≡ init ++ (last, value) ∷ []
  pub node : Points d last value prior null
  pub out : has last init ≡ false
  pub links : Seg d last prior before first init

pub Seg-Split :
    {d : Deque} {last before first a v : ℕ} {xs : Cells}
    → Seg d null last before first ((a, v) ∷ xs)
    → Split d last before first ((a, v) ∷ xs)
Seg-Split {last} (cons {before} {a} {v} {xs = []} p out (nil q r)) = record {
  init = [];
  value = v;
  prior = before;
  parts = ap (λ n. (n, v) ∷ []) (sym r);
  node = record {
    real = rw r p.real;
    live = rw r p.live;
    value = rw r p.value;
    prev = rw r p.prev;
    next = rw r (p.next ∙ q);
  };
  out = refl;
  links = nil (sym r) refl;
}
Seg-Split {last} (cons {a} {v} {xs = (b, w) ∷ ys} p out s) =
    let rest = Seg-Split s in
    let inner = has-last s in
    let kept : has a rest.init ≡ false =
      ground (arith, ap (has a) rest.parts, has-append a rest.init ((last, rest.value) ∷ [])) in
    record {
      init = (a, v) ∷ rest.init;
      value = rest.value;
      prior = rest.prior;
      parts = ap (λ l. (a, v) ∷ l) rest.parts;
      node = rest.node;
      out = ground (arith, rest.out);
      links = cons p kept rest.links;
    }

-- One more node behind a segment that leads to it.
pub snoc :
    {d : Deque} {stop last mid before first v : ℕ} {xs : Cells}
    → Seg d last mid before first xs
    → Points d last v mid stop
    → has last xs ≡ false
    → Seg d stop last before first (xs ++ (last, v) ∷ [])
snoc {last} {v} (nil p q) node out = rw p (cons (rw q at node) refl (nil refl refl))
snoc {last} {v} (cons {a} {xs} p o s) node out =
    cons p (ground (arith, has-append a xs ((last, v) ∷ []))) (snoc s node (ground arith))
