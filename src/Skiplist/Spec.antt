-- ===== src/Skiplist/Spec.antt =====
-- simple_skiplist/slist.c: what the skip list promises, on a list of entries ordered by their keys.
use simple_kit.Base.{
  ℕ, suc, ◌+◌, ◌≡◌, refl, ap, true, false, ◌==◌, Option, none, some, List, [], ◌∷◌, ◌++◌, length,
  arith, Ordering,
}
use simple_kit.Hash.Keys.{Key, key_compare}
use simple_kit.Hash.Keys.Order.{key_compare_refl}
use simple_kit.Skiplist.{Skiplist, assign}
use simple_kit.Skiplist.Run.{has}
use simple_kit.Skiplist.Search.{AllBelow, AllAbove}
use simple_kit.Skiplist.Invariant.{IsValid}

-- The value at a key.
unfoldable pub lookup : Key → List (Key × ℕ) → Option ℕ
lookup key [] = none
lookup key ((k, v) ∷ es) = elim (key_compare key k) [ Ordering.eq ↦ some v | _ ↦ lookup key es ]

abbrev pub further : ℕ → Option ℕ → Option ℕ
further k none = none
further k (some n) = some (n + k)

-- The place of a key, from 1.
unfoldable pub position : Key → List (Key × ℕ) → Option ℕ
position key [] = none
position key ((k, v) ∷ es) = elim (key_compare key k) [
  | Ordering.eq ↦ some 1
  | _ ↦ further 1 (position key es)
]

-- The entries with one more, before the first larger one.
unfoldable pub put : Key → ℕ → List (Key × ℕ) → List (Key × ℕ)
put key value [] = (key, value) ∷ []
put key value ((k, v) ∷ es) = elim (key_compare key k) [
  | Ordering.gt ↦ (k, v) ∷ put key value es
  | _ ↦ (key, value) ∷ (k, v) ∷ es
]

unfoldable pub remove : Key → List (Key × ℕ) → List (Key × ℕ)
remove key [] = []
remove key ((k, v) ∷ es) = elim (key_compare key k) [
  | Ordering.eq ↦ es
  | _ ↦ (k, v) ∷ remove key es
]

-- What is stored at nodes.
abbrev pub entries : (ℕ → Key) → (ℕ → ℕ) → List ℕ → List (Key × ℕ)
entries keys values [] = []
entries keys values (x ∷ xs) = (keys x, values x) ∷ entries keys values xs

-- A well-formed skip list with these entries.
abbrev pub Keeps : Skiplist → List (Key × ℕ) → Type 0
Keeps s es = (nodes : List ℕ) × IsValid s nodes × (entries s.key s.value nodes ≡ es)

further-zero : (o : Option ℕ) → o ≡ further 0 o
further-zero none = refl
further-zero (some n) = ap some (omega arith)

further-suc : (k : ℕ) (o : Option ℕ) → further 1 (further k o) ≡ further (suc k) o
further-suc k none = refl
further-suc k (some n) = ap some (omega arith)

module _ (keys : ℕ → Key) (values : ℕ → ℕ) (key : Key) where
  abbrev of : List ℕ → List (Key × ℕ)
  of xs = entries keys values xs

  -- Entries before the key do not matter.
  pub lookup-below :
      (pre ys : List ℕ) → AllBelow keys key pre → lookup key (of (pre ++ ys)) ≡ lookup key (of ys)
  unfolding lookup
  lookup-below [] ys below = refl
  lookup-below (x ∷ pre) ys (larger, below) = rw (larger, lookup) (lookup-below pre ys below)

  pub position-below :
      (pre ys : List ℕ)
      → AllBelow keys key pre
      → position key (of (pre ++ ys)) ≡ further (length pre) (position key (of ys))
  unfolding position
  position-below [] ys below = further-zero (position key (of ys))
  position-below (x ∷ pre) ys (larger, below) =
      rw (larger, position, position-below pre ys below)
        (further-suc (length pre) (position key (of ys)))

  pub put-below :
      (value : ℕ) (pre ys : List ℕ)
      → AllBelow keys key pre
      → put key value (of (pre ++ ys)) ≡ of pre ++ put key value (of ys)
  unfolding put
  put-below value [] ys below = refl
  put-below value (x ∷ pre) ys (larger, below) = rw (larger, put, put-below value pre ys below) refl

  pub remove-below :
      (pre ys : List ℕ)
      → AllBelow keys key pre
      → remove key (of (pre ++ ys)) ≡ of pre ++ remove key (of ys)
  unfolding remove
  remove-below [] ys below = refl
  remove-below (x ∷ pre) ys (larger, below) = rw (larger, remove, remove-below pre ys below) refl

  -- Behind a larger entry, the key is missing.
  pub above_lem :
      (post : List ℕ)
      → AllAbove keys key post
      → (lookup key (of post) ≡ none)
        × (position key (of post) ≡ none)
        × ((value : ℕ) → put key value (of post) ≡ (key, value) ∷ of post)
        × (remove key (of post) ≡ of post)
  unfolding lookup position put remove
  above_lem [] above = (refl, refl, λ v. refl, refl)
  above_lem (x ∷ post) (smaller, above) =
      let (a, b, c, d) = above_lem post above in
      (
        rw (smaller, lookup) a,
        rw (smaller, position, b) refl,
        λ v. rw (smaller, put) refl,
        rw (smaller, remove, d) refl,
      )

  -- At the key.
  pub here_lem :
      (x : ℕ) (ys : List ℕ)
      → keys x ≡ key
      → (lookup key (of (x ∷ ys)) ≡ some (values x))
        × (position key (of (x ∷ ys)) ≡ some 1)
        × (remove key (of (x ∷ ys)) ≡ of ys)
  unfolding lookup position remove
  here_lem x ys here =
      let e : key_compare key (keys x) ≡ Ordering.eq = rw here (key_compare_refl key) in
      (rw (e, lookup) refl, rw (e, position) refl, rw (e, remove) refl)

-- A node that is not among them does not change what they store.
entries-assign :
    (keys : ℕ → Key) (values : ℕ → ℕ) (a : ℕ) (key : Key) (value : ℕ) (xs : List ℕ)
    → has a xs ≡ false
    → entries (assign keys a key) (assign values a value) xs ≡ entries keys values xs
entries-assign keys values a key value [] out = refl
entries-assign keys values a key value (x ∷ xs) out =
    let e : a == x ≡ false = ground arith in
    let rest = entries-assign keys values a key value xs (ground arith) in rw (e, rest) refl

pub entries-length :
    (keys : ℕ → Key) (values : ℕ → ℕ) (xs : List ℕ) → length (entries keys values xs) ≡ length xs
entries-length keys values [] = refl
entries-length keys values (x ∷ xs) = omega (arith, entries-length keys values xs)

pub entries-between :
    (keys : ℕ → Key) (values : ℕ → ℕ) (a : ℕ) (key : Key) (value : ℕ) (pre post : List ℕ)
    → has a pre ≡ false
    → has a post ≡ false
    → entries (assign keys a key) (assign values a value) (pre ++ (a ∷ post))
      ≡ entries keys values pre ++ ((key, value) ∷ entries keys values post)
entries-between keys values a key value [] post out out' =
    let hit : a == a ≡ true = ground arith in
    rw hit (ap (λ es. (key, value) ∷ es) (entries-assign keys values a key value post out'))
entries-between keys values a key value (x ∷ pre) post out out' =
    let past : a == x ≡ false = ground arith in
    let rest = entries-between keys values a key value pre post (ground arith) out' in
    rw past (ap (λ es. (keys x, values x) ∷ es) rest)

pub entries-append :
    (keys : ℕ → Key) (values : ℕ → ℕ) (xs ys : List ℕ)
    → entries keys values (xs ++ ys) ≡ entries keys values xs ++ entries keys values ys
entries-append keys values [] ys = refl
entries-append keys values (x ∷ xs) ys =
    ap (λ es. (keys x, values x) ∷ es) (entries-append keys values xs ys)
