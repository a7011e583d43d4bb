-- ===== src/Skiplist/Order.antt =====
-- simple_skiplist/slist.c: the order of the nodes when one comes or goes.
use simple_kit.Base.{ℕ, ◌≡◌, refl, true, false, ◌==◌, List, [], ◌∷◌, ◌++◌, arith, Ordering}
use simple_kit.Hash.Keys.{Key, key_compare}
use simple_kit.Hash.Keys.Order.{key_compare_flip}
use simple_kit.Skiplist.{assign}
use simple_kit.Skiplist.Run.{has, AllDistinct, has-append}
use simple_kit.Skiplist.Search.{AllBelow, AllAbove}
use simple_kit.Skiplist.Invariant.{IsSorted, last_or}

pub AllDistinct-between :
    (x : ℕ) (pre post : List ℕ)
    → AllDistinct (pre ++ post)
    → has x (pre ++ post) ≡ false
    → AllDistinct (pre ++ (x ∷ post))
AllDistinct-between x [] post apart out = (out, apart)
AllDistinct-between x (y ∷ pre) post (first, apart) out = (
  ground (arith, has-append y pre post, has-append y pre (x ∷ post)),
  AllDistinct-between x pre post apart (ground arith),
)

pub AllDistinct-without :
    (x : ℕ) (pre post : List ℕ)
    → AllDistinct (pre ++ (x ∷ post))
    → AllDistinct (pre ++ post) × (has x (pre ++ post) ≡ false)
AllDistinct-without x [] post apart = (apart.1, apart.0)
AllDistinct-without x (y ∷ pre) post (first, apart) =
    let (rest, out) = AllDistinct-without x pre post apart in
    (
      (ground (arith, has-append y pre post, has-append y pre (x ∷ post)), rest),
      ground (arith, has-append y pre (x ∷ post)),
    )

-- The key of a node that is not in a list.
pub AllAbove-assign :
    (keys : ℕ → Key) (lo : Key) (x : ℕ) (key : Key) (xs : List ℕ)
    → has x xs ≡ false
    → AllAbove keys lo xs
    → AllAbove (assign keys x key) lo xs
AllAbove-assign keys lo x key [] out above = tt
AllAbove-assign keys lo x key (y ∷ xs) out (here, above) =
    let past : x == y ≡ false = ground arith in
    (rw past here, AllAbove-assign keys lo x key xs (ground arith) above)

IsSorted-assign :
    (keys : ℕ → Key) (x : ℕ) (key : Key) (xs : List ℕ)
    → has x xs ≡ false
    → IsSorted keys xs
    → IsSorted (assign keys x key) xs
IsSorted-assign keys x key [] out sorted = tt
IsSorted-assign keys x key (y ∷ xs) out (above, sorted) =
    let past : x == y ≡ false = ground arith in
    (
      rw past (AllAbove-assign keys (keys y) x key xs (ground arith) above),
      IsSorted-assign keys x key xs (ground arith) sorted,
    )

AllAbove-between :
    (keys : ℕ → Key) (lo : Key) (x : ℕ) (pre post : List ℕ)
    → AllAbove keys lo (pre ++ post)
    → key_compare lo (keys x) ≡ Ordering.lt
    → AllAbove keys lo (pre ++ (x ∷ post))
AllAbove-between keys lo x [] post above here = (here, above)
AllAbove-between keys lo x (y ∷ pre) post (first, above) here =
    (first, AllAbove-between keys lo x pre post above here)

AllAbove-without :
    (keys : ℕ → Key) (lo : Key) (x : ℕ) (pre post : List ℕ)
    → AllAbove keys lo (pre ++ (x ∷ post))
    → AllAbove keys lo (pre ++ post)
AllAbove-without keys lo x [] post above = above.1
AllAbove-without keys lo x (y ∷ pre) post (first, above) =
    (first, AllAbove-without keys lo x pre post above)

pub IsSorted-between :
    (keys : ℕ → Key) (x : ℕ) (key : Key) (pre post : List ℕ)
    → IsSorted keys (pre ++ post)
    → has x (pre ++ post) ≡ false
    → AllBelow keys key pre
    → AllAbove keys key post
    → IsSorted (assign keys x key) (pre ++ (x ∷ post))
IsSorted-between keys x key [] post sorted out below above =
    let here : x == x ≡ true = ground arith in
    (
      rw here (AllAbove-assign keys key x key post out above),
      IsSorted-assign keys x key post out sorted,
    )
IsSorted-between keys x key (y ∷ pre) post (first, sorted) out (larger, below) above =
    let here : x == x ≡ true = ground arith in
    let past : x == y ≡ false = ground arith in
    (
      rw past (
          AllAbove-between (assign keys x key) (keys y) x pre post
            (AllAbove-assign keys (keys y) x key (pre ++ post) (ground arith) first)
            (rw here ((key_compare_flip key (keys y)).0 larger))),
      IsSorted-between keys x key pre post sorted (ground arith) below above,
    )

pub IsSorted-without :
    (keys : ℕ → Key) (x : ℕ) (pre post : List ℕ)
    → IsSorted keys (pre ++ (x ∷ post))
    → IsSorted keys (pre ++ post)
IsSorted-without keys x [] post sorted = sorted.1
IsSorted-without keys x (y ∷ pre) post (first, sorted) =
    (AllAbove-without keys (keys y) x pre post first, IsSorted-without keys x pre post sorted)

-- In order, what precedes a node is below its key and what follows is above it.
pub IsSorted-around :
    (keys : ℕ → Key) (x : ℕ) (pre post : List ℕ)
    → IsSorted keys (pre ++ (x ∷ post))
    → AllBelow keys (keys x) pre × AllAbove keys (keys x) post
IsSorted-around keys x [] post sorted = (tt, sorted.0)
IsSorted-around keys x (y ∷ pre) post (first, sorted) =
    let (below, above) = IsSorted-around keys x pre post sorted in
    ((at_end pre first, below), above)
  where
    at_end :
        (us : List ℕ)
        → AllAbove keys (keys y) (us ++ (x ∷ post))
        → key_compare (keys x) (keys y) ≡ Ordering.gt
    at_end [] all = (key_compare_flip (keys x) (keys y)).1 all.0
    at_end (u ∷ us) all = at_end us all.1

pub last_or-between : (a x : ℕ) (pre post : List ℕ) → last_or a (pre ++ (x ∷ post)) ≡ last_or x post
last_or-between a x [] post = refl
last_or-between a x (y ∷ pre) post = last_or-between y x pre post

pub last_or-append :
    (a b : ℕ) (pre : List ℕ) (x : ℕ) (post : List ℕ)
    → last_or a (pre ++ (x ∷ post)) ≡ last_or b (x ∷ post)
last_or-append a b [] x post = refl
last_or-append a b (y ∷ pre) x post = last_or-append y b pre x post
