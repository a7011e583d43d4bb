-- ===== src/Hash/Visit/Complete.antt =====
-- A whole iteration: which nodes it hands out, and which it misses.
use mathlib.Core.List.{append-nil}
use mathlib.Core.Path.{subst}
use simple_kit.Base.{
  ℕ, ◌^◌, ◌≡◌, ◌≢◌, ◌⊎◌, inl, inr, ◌≤◌, refl, ap, sym, ◌∙◌, Option, none, some, List, [], ◌∷◌, ◌++◌,
  arith, length, length-append,
}
use simple_kit.Hash.Keys.{Key}
use simple_kit.Hash.Chains.{Node}
use simple_kit.Hash.Table.{Table, Buckets, second}
use simple_kit.Hash.Iteration.{begin_iterate}
use simple_kit.Hash.Arrays.{total}
use simple_kit.Hash.Invariant.{IsValid, total-migrating}
use simple_kit.Hash.Reposition.{begin_iterate-reposition, reposition-IsValid}
use simple_kit.Hash.Visit.{nodes_from, concat, found_in, reached, visit}
use simple_kit.Hash.Visit.Search.{nodes_from-nil, nodes_from-concat}
use simple_kit.Hash.Visit.Rounds.{begun, visit-pending, pending-begin_iterate}

module _ {ℓ} {V : Type ℓ} where
  length-concat : (bs : Buckets V) → length (concat bs) ≡ total bs
  unfolding concat total
  length-concat [] = refl
  length-concat (c ∷ bs) = omega (arith, length-append c (concat bs), length-concat bs)

  nodes_first :
      (owner : ℕ → Option Key) (s : Table V)
      → IsValid owner s
      → nodes_from s.buckets_0 (2 ^ s.num_buckets_0) 0 ≡ concat s.buckets_0
  nodes_first owner s v =
      ap (λ n. nodes_from s.buckets_0 n 0) (sym v.array.width) ∙ nodes_from-concat s.buckets_0

  nodes_second :
      (owner : ℕ → Option Key) (s : Table V) (to : Buckets V)
      → IsValid owner s
      → s.buckets_1 ≡ some to
      → nodes_from to (2 ^ s.num_buckets_1) 0 ≡ concat to
  nodes_second owner s to v e =
      ap (λ n. nodes_from to n 0) (sym ((v.rehash to e).array.width)) ∙ nodes_from-concat to

  second-some : (s : Table V) (to : Buckets V) → s.buckets_1 ≡ some to → second s ≡ to
  second-some s to e = rw (e, second) refl

  second-none : (s : Table V) → s.buckets_1 ≡ none → second s ≡ []
  second-none s e = rw (e, second) refl

  visit-begun :
      (owner : ℕ → Option Key) (fuel : ℕ) (s : Table V) (l : List (Node V))
      → IsValid owner s
      → begun s ≡ l
      → length l ≤ fuel
      → visit fuel (begin_iterate s) ≡ l
  visit-begun owner fuel s l v e h =
      let starts = pending-begin_iterate s ∙ e in
      let valid : IsValid owner (begin_iterate s) =
        subst (IsValid owner) (sym (begin_iterate-reposition s))
          (reposition-IsValid owner s (begin_iterate s) v) in
      visit-pending owner fuel (begin_iterate s) valid (omega (arith, ap length starts)) ∙ starts

  -- The two ways through `begun`.
  abbrev parts : List (Node V) → List (Node V) → List (Node V) → List (Node V)
  parts l rest reach = elim l [ [] ↦ rest | n ∷ c ↦ (n ∷ c) ++ reach ]

  begun-parts :
      (owner : ℕ → Option Key) (s : Table V)
      → IsValid owner s
      → begun s
        ≡ parts (concat s.buckets_0) (nodes_from (second s) (2 ^ s.num_buckets_1) 0) (reached s)
  begun-parts owner s v =
      ap (λ l. parts l (nodes_from (second s) (2 ^ s.num_buckets_1) 0) (reached s))
        (nodes_first owner s v)

  parts-same : (l rest : List (Node V)) → parts l rest rest ≡ l ++ rest
  parts-same [] rest = refl
  parts-same (n ∷ c) rest = refl

  parts-some : (l rest reach : List (Node V)) → l ≢ [] → parts l rest reach ≡ l ++ reach
  parts-some [] rest reach h = absurd (h refl)
  parts-some (n ∷ c) rest reach h = refl

  found_in-some :
      (bs : Buckets V) (rounds width b : ℕ)
      → nodes_from bs rounds b ≢ []
      → found_in bs rounds width b ≡ nodes_from bs width b
  found_in-some bs rounds width b h = go (nodes_from bs rounds b) h
    where
      go :
          (l : List (Node V))
          → l ≢ []
          → (elim l as (λ _. List (Node V)) [ [] ↦ [] | n ∷ c ↦ nodes_from bs width b ])
            ≡ nodes_from bs width b
      go [] k = absurd (k refl)
      go (n ∷ c) k = refl

  -- On a valid table with no rehash on, a client's loop of shash_iterate after
  -- shash_begin_iterate, with at least as many rounds as the table has nodes, sees exactly the
  -- nodes of the bucket array, in its order.
  pub visit-begin_iterate :
      (owner : ℕ → Option Key) (fuel : ℕ) (s : Table V)
      → IsValid owner s
      → s.buckets_1 ≡ none
      → s.num_node ≤ fuel
      → visit fuel (begin_iterate s) ≡ concat s.buckets_0
  visit-begin_iterate owner fuel s v e h =
      let old = concat s.buckets_0 in
      let gone = second-none s e in
      let rest : nodes_from (second s) (2 ^ s.num_buckets_1) 0 ≡ [] =
        rw gone (nodes_from-nil (2 ^ s.num_buckets_1) 0) in
      let reach : reached s ≡ [] =
        rw (gone, found_in, nodes_from-nil {V = V} (2 ^ s.num_buckets_0) 0) refl in
      visit-begun owner fuel s old v
        (begun-parts owner s v
          ∙ ap (λ l. parts old l (reached s)) rest
          ∙ ap (parts old []) reach
          ∙ parts-same old []
          ∙ append-nil old)
        (omega (arith, length-concat s.buckets_0, v.counted))

  -- On a valid table with a rehash on whose buckets[0] holds a node and whose buckets[1] holds
  -- none in its lower half, the loop sees exactly the nodes of buckets[0], and so none of
  -- buckets[1].
  pub visit-misses :
      (owner : ℕ → Option Key) (fuel : ℕ) (s : Table V) (to : Buckets V)
      → IsValid owner s
      → s.buckets_1 ≡ some to
      → concat s.buckets_0 ≢ []
      → nodes_from to (2 ^ s.num_buckets_0) 0 ≡ []
      → s.num_node ≤ fuel
      → visit fuel (begin_iterate s) ≡ concat s.buckets_0
  visit-misses owner fuel s to v e some_old none_low h =
      let old = concat s.buckets_0 in
      let reach : reached s ≡ [] = rw (second-some s to e, found_in, none_low) refl in
      visit-begun owner fuel s old v
        (begun-parts owner s v
          ∙ parts-some old _ _ some_old
          ∙ ap (λ l. old ++ l) reach
          ∙ append-nil old)
        (omega (arith, length-concat s.buckets_0, v.counted))

  -- On a valid table with a rehash on, the loop sees all nodes of both arrays if buckets[0] holds
  -- none or the lower half of buckets[1] holds one.
  pub visit-both :
      (owner : ℕ → Option Key) (fuel : ℕ) (s : Table V) (to : Buckets V)
      → IsValid owner s
      → s.buckets_1 ≡ some to
      → (concat s.buckets_0 ≡ []) ⊎ (nodes_from to (2 ^ s.num_buckets_0) 0 ≢ [])
      → s.num_node ≤ fuel
      → visit fuel (begin_iterate s) ≡ concat s.buckets_0 ++ concat to
  visit-both owner fuel s to v e good h =
      let old = concat s.buckets_0 in
      let is = second-some s to e in
      let rest : nodes_from (second s) (2 ^ s.num_buckets_1) 0 ≡ concat to =
        ap (λ bs. nodes_from bs (2 ^ s.num_buckets_1) 0) is ∙ nodes_second owner s to v e in
      visit-begun owner fuel s (old ++ concat to) v
        (begun-parts owner s v ∙ ap (λ l. parts old l (reached s)) rest ∙ elim good [
          | inl empty ↦ rw empty refl
          | inr low ↦
              ap (parts old (concat to)) (
                ap (λ bs. found_in bs (2 ^ s.num_buckets_0) (2 ^ s.num_buckets_1) 0) is
                ∙ found_in-some to (2 ^ s.num_buckets_0) (2 ^ s.num_buckets_1) 0 low
                ∙ nodes_second owner s to v e)
              ∙ parts-same old (concat to)
        ])
        (omega (
          arith,
          length-append old (concat to),
          length-concat s.buckets_0,
          length-concat to,
          v.counted,
          total-migrating s e,
        ))
