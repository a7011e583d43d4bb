-- ===== src/Hash/Visit/Rounds.antt =====
-- The calls of an iteration, one after another.
use mathlib.Core.List.{append_assoc}
use mathlib.Core.Path.{subst}
use simple_kit.Base.{
  ℕ, zero, suc, ◌+◌, ◌^◌, ◌≡◌, ◌≤◌, refl, ap, sym, ◌∙◌, Bool, true, false, Option, none, some, List,
  [], ◌∷◌, ◌++◌, arith, get_or, length, ◌==◌, if◌then◌else◌, is_none,
}
use simple_kit.Hash.Keys.{Key}
use simple_kit.Hash.Chains.{Node, chain_next}
use simple_kit.Hash.Chains.Laws.{IsSorted, Owned}
use simple_kit.Hash.Table.{Table, Buckets, second}
use simple_kit.Hash.Iteration.{scan, point_at, next_bucket, iterate, begin_iterate}
use simple_kit.Hash.Invariant.{IsValid}
use simple_kit.Hash.Reposition.{iterate-reposition, reposition-IsValid}
use simple_kit.Hash.Visit.{nodes_from, behind, reached, later, stands_in, pending, visit}
use simple_kit.Hash.Visit.Behind.{behind-next, behind-last}
use simple_kit.Hash.Visit.Search.{Searched, scan-Searched, nodes_from-nil}
use simple_kit.Hash.Visit.Advance.{
  pending-point_at, pending-next_bucket, pending-idle, Ready, IsValid-Ready,
}

module _ {ℓ} {V : Type ℓ} where
  -- The two results of a call, as the ends of a list.
  abbrev pub HandsOut : List (Node V) → Option (Node V) × Table V → Type ℓ
  HandsOut l (out, s) = elim l [
    | [] ↦ (out ≡ none) × (pending s ≡ [])
    | n ∷ c ↦ (out ≡ some n) × (pending s ≡ c)
  ]

  stands_in-Sorted :
      (owner : ℕ → Option Key) (s : Table V)
      → Ready owner s
      → IsSorted (stands_in s) × Owned owner (stands_in s)
  stands_in-Sorted owner s r = go (s.iterator_index == 0)
    where
      go :
          (first : Bool)
          → let c = get_or (if first then s.buckets_0 else second s) s.iterator_bucket [] in
            IsSorted c × Owned owner c
      go true = (r.sorted_0 _, r.owned_0 _)
      go false = (r.sorted_1 _, r.owned_1 _)

  -- The pointer moves to the next node of the bucket, or else to the next bucket.
  moves_on :
      (owner : ℕ → Option Key) (s : Table V) (a : ℕ) (o : Option (Node V))
      → Ready owner s
      → chain_next a (stands_in s) ≡ o
      → pending (elim o [ some m ↦ record s { iterator = some m } | none ↦ next_bucket s ])
        ≡ behind a (stands_in s) ++ later s s.iterator_index (s.iterator_bucket + 1)
  moves_on owner s a none r e =
      pending-next_bucket owner s r
      ∙ ap (λ l. l ++ later s s.iterator_index (s.iterator_bucket + 1))
          (sym (behind-last owner a (stands_in s) e))
  moves_on owner s a (some m) r e =
      let (sorted, owned) = stands_in-Sorted owner s r in
      ap (λ l. l ++ later s s.iterator_index (s.iterator_bucket + 1))
        (sym (behind-next owner a (stands_in s) sorted owned e))

  -- One call of `shash_iterate` hands out the first node that is pending and leaves the others.
  pub iterate-HandsOut :
      (owner : ℕ → Option Key) (s : Table V) → IsValid owner s → HandsOut (pending s) (iterate s)
  unfolding iterate
  iterate-HandsOut owner s v = go s.iterator refl
    where
      go :
          (o : Option (Node V))
          → s.iterator ≡ o
          → let left : List (Node V) = elim o [
            | none ↦ []
            | some n ↦
                n
                ∷ (behind n.addr (stands_in s) ++ later s s.iterator_index (s.iterator_bucket + 1))
          ] in
            let r : Option (Node V) × Table V = elim o [
              | none ↦ (none, s)
              | some n ↦ (
                some n,
                elim (chain_next n.addr (stands_in s)) [
                  | some m ↦ record s { iterator = some m }
                  | none ↦ next_bucket s
                ],
              )
            ] in
            HandsOut left r
      go none e = (refl, pending-idle s e)
      go (some n) e = (
        refl,
        moves_on owner s n.addr (chain_next n.addr (stands_in s)) (IsValid-Ready owner s v) refl,
      )

  iterate-IsValid :
      (owner : ℕ → Option Key) (s : Table V) → IsValid owner s → IsValid owner (iterate s).1
  iterate-IsValid owner s v =
      subst (IsValid owner) (sym (iterate-reposition s))
        (reposition-IsValid owner s (iterate s).1 v)

  one_round :
      (fuel : ℕ) (l : List (Node V)) (r : Option (Node V) × Table V)
      → HandsOut l r
      → visit fuel r.1 ≡ pending r.1
      → (elim r.0 as (λ _. List (Node V)) [ none ↦ [] | some n ↦ n ∷ visit fuel r.1 ]) ≡ l
  one_round fuel [] r (out, left) ih = rw out refl
  one_round fuel (n ∷ c) r (out, left) ih = rw out (ap (λ t. n ∷ t) (ih ∙ left))

  one_less :
      (fuel : ℕ) (l : List (Node V)) (r : Option (Node V) × Table V)
      → HandsOut l r
      → length l ≤ suc fuel
      → length (pending r.1) ≤ fuel
  one_less fuel [] r (out, left) h = omega (arith, ap length left)
  one_less fuel (n ∷ c) r (out, left) h = omega (arith, ap length left)

  nothing : (l : List (Node V)) → length l ≤ 0 → [] ≡ l
  nothing [] h = refl
  nothing (n ∷ c) h = absurd (omega arith)

  -- With enough fuel a client's loop sees all that is pending, in its order, and then stops.
  pub visit-pending :
      (owner : ℕ → Option Key) (fuel : ℕ) (s : Table V)
      → IsValid owner s
      → length (pending s) ≤ fuel
      → visit fuel s ≡ pending s
  unfolding visit
  visit-pending owner zero s v h = nothing (pending s) h
  visit-pending owner (suc fuel) s v h =
      let out = iterate-HandsOut owner s v in
      one_round fuel (pending s) (iterate s) out (
        visit-pending owner fuel (iterate s).1 (iterate-IsValid owner s v)
          (one_less fuel (pending s) (iterate s) out h))

  -- Where `shash_begin_iterate` puts the iterator when it comes to `buckets[1]`.
  starts_second :
      (s : Table V) (o : Option (ℕ × Node V))
      → Searched (second s) (2 ^ s.num_buckets_1) 0 o
      → pending (elim o [ some found ↦ point_at s 1 found | none ↦ record s { iterator = none } ])
        ≡ nodes_from (second s) (2 ^ s.num_buckets_1) 0
  starts_second s none h = sym h
  starts_second s (some (at, n)) (c, here, all, _, _) =
      let width : 0 + 2 ^ s.num_buckets_1 ≡ 2 ^ s.num_buckets_1 = omega arith in
      pending-point_at s 1 at n c here ∙ sym (rw width at all)

  looks_second :
      (s : Table V) (o : Option (Buckets V))
      → s.buckets_1 ≡ o
      → pending (elim (scan (second s) (if is_none o then 0 else 2 ^ s.num_buckets_1) 0) [
        | some found ↦ point_at s 1 found
        | none ↦ record s { iterator = none }
      ])
        ≡ nodes_from (second s) (2 ^ s.num_buckets_1) 0
  unfolding scan
  looks_second s none e =
      let gone : second s ≡ [] = rw (e, second) refl in
      sym (rw gone (nodes_from-nil (2 ^ s.num_buckets_1) 0))
  looks_second s (some to) e =
      starts_second s (scan (second s) (2 ^ s.num_buckets_1) 0)
        (scan-Searched (second s) (2 ^ s.num_buckets_1) 0)

  -- What an iteration sees, from its beginning.
  abbrev pub begun : Table V → List (Node V)
  begun s = elim (nodes_from s.buckets_0 (2 ^ s.num_buckets_0) 0) [
    | [] ↦ nodes_from (second s) (2 ^ s.num_buckets_1) 0
    | n ∷ c ↦ (n ∷ c) ++ reached s
  ]

  starts_first :
      (s : Table V) (o : Option (ℕ × Node V)) (rest : Table V)
      → Searched s.buckets_0 (2 ^ s.num_buckets_0) 0 o
      → pending rest ≡ nodes_from (second s) (2 ^ s.num_buckets_1) 0
      → pending (elim o [ some found ↦ point_at s 0 found | none ↦ rest ]) ≡ begun s
  starts_first s none rest h same = same ∙ rw (begun, h) refl
  starts_first s (some (at, n)) rest (c, here, all, _, _) same =
      let width : 0 + 2 ^ s.num_buckets_0 ≡ 2 ^ s.num_buckets_0 = omega arith in
      pending-point_at s 0 at n c here
      ∙ rw (begun, all, width) (ap (λ t. n ∷ t) (sym (append_assoc c _ _)))

  pub pending-begin_iterate : (s : Table V) → pending (begin_iterate s) ≡ begun s
  unfolding begin_iterate
  pending-begin_iterate s =
      starts_first s (scan s.buckets_0 (2 ^ s.num_buckets_0) 0) _
        (scan-Searched s.buckets_0 (2 ^ s.num_buckets_0) 0) (looks_second s s.buckets_1 refl)
