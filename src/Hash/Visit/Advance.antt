-- ===== src/Hash/Visit/Advance.antt =====
-- The iterator of simple_hash/shash.c hands out what is pending, a node a call.
use native.Mathlib.Nat.{pow-suc}
use mathlib.Core.List.{append_assoc}
use simple_kit.Base.{
  ℕ, suc, ◌+◌, ◌-◌, ◌^◌, ◌≡◌, ◌≤◌, ◌<◌, refl, ap, sym, ◌∙◌, Bool, true, false, Option, none, some,
  List, [], ◌∷◌, ◌++◌, arith, get_or, ◌==◌, ==_iff, if◌then◌else◌,
}
use simple_kit.Hash.Keys.{Key}
use simple_kit.Hash.Chains.{Node, Chain}
use simple_kit.Hash.Chains.Laws.{IsSorted, Owned}
use simple_kit.Hash.Table.{Table, Buckets, second}
use simple_kit.Hash.Iteration.{scan, point_at, enter_second, next_bucket}
use simple_kit.Hash.Invariant.{IsValid}
use simple_kit.Hash.Visit.{nodes_from, behind, found_in, reached, later, pending}
use simple_kit.Hash.Visit.Search.{Searched, scan-Searched, nodes_from-split, nodes_from-nil}

pow_grows : (n : ℕ) → 2 ^ n ≤ 2 ^ (n + 1)
pow_grows n = let next : n + 1 ≡ suc n = omega arith in rw next (omega (arith, pow-suc 2 n))

module _ {ℓ} {V : Type ℓ} where
  -- An iterator put on the first node of a bucket.
  pub pending-point_at :
      (s : Table V) (i at : ℕ) (n : Node V) (c : Chain V)
      → get_or (if i == 0 then s.buckets_0 else second s) at [] ≡ n ∷ c
      → pending (point_at s i (at, n)) ≡ n ∷ (c ++ later s i (at + 1))
  unfolding point_at behind
  pending-point_at s i at n c e = rw (e, (==_iff n.addr n.addr).1 refl) refl

  pub pending-idle : (s : Table V) → s.iterator ≡ none → pending s ≡ []
  pending-idle s e = rw (e, pending) refl

  -- A node found below `bound` is the first of all.
  found_first :
      (to : Buckets V) (bound width b at : ℕ) (n : Node V) (c : Chain V)
      → bound ≤ width
      → nodes_from to (bound - b) b ≡ n ∷ (c ++ nodes_from to (b + (bound - b) - (at + 1)) (at + 1))
      → at < b + (bound - b)
      → 0 < bound - b
      → found_in to (bound - b) (width - b) b ≡ n ∷ (c ++ nodes_from to (width - (at + 1)) (at + 1))
  found_first to bound width b at n c fits all inside round =
      let left = width - bound in
      let more = b + (bound - b) - (at + 1) in
      let whole : width - b ≡ (bound - b) + left = omega arith in
      let rest : width - (at + 1) ≡ more + left = omega arith in
      let ends : at + 1 + more ≡ b + (bound - b) = omega arith in
      let one = nodes_from-split to (bound - b) left b in
      let two = nodes_from-split to more left (at + 1) in
      rw (found_in, all)
        (rw (whole, rest) (one ∙ rw (all, two, ends) (ap (λ t. n ∷ t) (append_assoc c _ _))))

  pending_behind_second :
      (s : Table V) (to : Buckets V) (bound : ℕ) (o : Option (ℕ × Node V))
      → second s ≡ to
      → s.iterator ≡ none
      → bound ≤ 2 ^ s.num_buckets_1
      → Searched to (bound - s.iterator_bucket) s.iterator_bucket o
      → pending (elim o [ some found ↦ point_at s 1 found | none ↦ s ])
        ≡ found_in to
            (bound - s.iterator_bucket)
            (2 ^ s.num_buckets_1 - s.iterator_bucket)
            s.iterator_bucket
  pending_behind_second s to bound none e idle fits h = pending-idle s idle ∙ rw (found_in, h) refl
  pending_behind_second s to bound (some (at, n)) e idle fits (c, here, all, inside, round) =
      pending-point_at s 1 at n c (ap (λ bs. get_or bs at []) e ∙ here)
      ∙ ap (λ bs. n ∷ (c ++ nodes_from bs (2 ^ s.num_buckets_1 - (at + 1)) (at + 1))) e
      ∙ sym (
          found_first to bound (2 ^ s.num_buckets_1) s.iterator_bucket at n c fits all inside round)

  pending-enter_second :
      (s : Table V) (bound : ℕ)
      → s.iterator ≡ none
      → ((to : Buckets V) → s.buckets_1 ≡ some to → bound ≤ 2 ^ s.num_buckets_1)
      → pending (enter_second bound s)
        ≡ found_in
            (second s)
            (bound - s.iterator_bucket)
            (2 ^ s.num_buckets_1 - s.iterator_bucket)
            s.iterator_bucket
  unfolding enter_second
  pending-enter_second s bound idle fits = go s.buckets_1 refl
    where
      b : ℕ
      b = s.iterator_bucket

      go :
          (o : Option (Buckets V))
          → s.buckets_1 ≡ o
          → let bs : Buckets V = elim o [ none ↦ [] | some to ↦ to ] in
            pending (elim o [
              | none ↦ s
              | some to ↦ elim (scan to (bound - s.iterator_bucket) s.iterator_bucket) [
                | some found ↦ point_at s 1 found
                | none ↦ s
              ]
            ])
            ≡ found_in bs
                (bound - s.iterator_bucket)
                (2 ^ s.num_buckets_1 - s.iterator_bucket)
                s.iterator_bucket
      go none e = pending-idle s idle ∙ rw (found_in, nodes_from-nil (bound - b) b) refl
      go (some to) e =
          pending_behind_second s to bound (scan to (bound - b) b)
            (ap
              (λ (o : Option (Buckets V)). elim o as (λ _. Buckets V) [ none ↦ [] | some bs ↦ bs ])
              e)
            idle (fits to e) (scan-Searched to (bound - b) b)

  -- The searched part of `buckets[0]`, and the passage to `buckets[1]`.
  pending_behind_first :
      (s : Table V) (o : Option (ℕ × Node V)) (rest : Table V)
      → Searched s.buckets_0 (2 ^ s.num_buckets_0 - s.iterator_bucket) s.iterator_bucket o
      → pending rest ≡ reached s
      → pending (elim o [ some found ↦ point_at s 0 found | none ↦ rest ])
        ≡ nodes_from s.buckets_0 (2 ^ s.num_buckets_0 - s.iterator_bucket) s.iterator_bucket
          ++ reached s
  pending_behind_first s none rest h same = rw h same
  pending_behind_first s (some (at, n)) rest (c, here, all, inside, round) same =
      let b = s.iterator_bucket in
      let ends : b + (2 ^ s.num_buckets_0 - b) ≡ 2 ^ s.num_buckets_0 = omega arith in
      pending-point_at s 0 at n c here ∙ rw (all, ends) (ap (λ t. n ∷ t) (sym (append_assoc c _ _)))

  -- What a valid table offers to the iterator.
  pub record Ready (owner : ℕ → Option Key) (s : Table V) : Type ℓ where
    pub widths :
        (to : Buckets V) → s.buckets_1 ≡ some to → 2 ^ s.num_buckets_0 ≤ 2 ^ s.num_buckets_1
    pub sorted_0 : (i : ℕ) → IsSorted (get_or s.buckets_0 i [])
    pub owned_0 : (i : ℕ) → Owned owner (get_or s.buckets_0 i [])
    pub sorted_1 : (i : ℕ) → IsSorted (get_or (second s) i [])
    pub owned_1 : (i : ℕ) → Owned owner (get_or (second s) i [])

  second-IsArray :
      (owner : ℕ → Option Key) (s : Table V) (o : Option (Buckets V))
      → s.buckets_1 ≡ o
      → IsValid owner s
      → let bs : Buckets V = elim o [ none ↦ [] | some to ↦ to ] in
        (i : ℕ) → IsSorted (get_or bs i []) × Owned owner (get_or bs i [])
  second-IsArray owner s none e v i = (tt, tt)
  second-IsArray owner s (some to) e v i =
      let m = v.rehash to e in (m.array.sorted i, m.array.owned i)

  pub IsValid-Ready : (owner : ℕ → Option Key) (s : Table V) → IsValid owner s → Ready owner s
  IsValid-Ready owner s v = record {
    widths = λ to e. rw ((v.rehash to e).grows) (pow_grows s.num_buckets_0);
    sorted_0 = v.array.sorted;
    owned_0 = v.array.owned;
    sorted_1 = λ i. (second-IsArray owner s s.buckets_1 refl v i).0;
    owned_1 = λ i. (second-IsArray owner s s.buckets_1 refl v i).1;
  }

  -- A search with the right bound misses nothing.
  found_in-all :
      (to : Buckets V) (rounds b : ℕ) → found_in to rounds rounds b ≡ nodes_from to rounds b
  found_in-all to rounds b = go (nodes_from to rounds b)
    where
      go : (l : List (Node V)) → (elim l as (λ _. List (Node V)) [ [] ↦ [] | n ∷ c ↦ l ]) ≡ l
      go [] = refl
      go (n ∷ c) = refl

  pub pending-next_bucket :
      (owner : ℕ → Option Key) (s : Table V)
      → Ready owner s
      → pending (next_bucket s) ≡ later s s.iterator_index (s.iterator_bucket + 1)
  unfolding next_bucket
  pending-next_bucket owner s r = go (s.iterator_index == 0)
    where
      t : Table V
      t = record s { iterator = none; iterator_bucket = s.iterator_bucket + 1 }

      t_0 : Table V
      t_0 = record t { iterator_bucket = 0 }

      low : ℕ
      low = 2 ^ s.num_buckets_0

      high : ℕ
      high = 2 ^ s.num_buckets_1

      whole : (n : ℕ) → n - 0 ≡ n
      whole n = omega arith

      entered : pending (enter_second low t_0) ≡ reached s
      entered =
          pending-enter_second t_0 low refl r.widths
          ∙ ap (λ n. found_in (second s) n (high - 0) 0) (whole low)
          ∙ ap (λ n. found_in (second s) low n 0) (whole high)

      go :
          (first : Bool)
          → let n = if first then low else high in
            pending (
              if first
              then elim (scan s.buckets_0 (n - t.iterator_bucket) t.iterator_bucket) [
                | some found ↦ point_at t 0 found
                | none ↦ enter_second n t_0
              ]
              else enter_second n t)
            ≡ (if first
                then nodes_from s.buckets_0 (low - t.iterator_bucket) t.iterator_bucket ++ reached s
                else nodes_from (second s) (high - t.iterator_bucket) t.iterator_bucket)
      go true =
          pending_behind_first t (scan s.buckets_0 (low - t.iterator_bucket) t.iterator_bucket)
            (enter_second low t_0)
            (scan-Searched s.buckets_0 (low - t.iterator_bucket) t.iterator_bucket) entered
      go false =
          pending-enter_second t high refl (λ to e. omega arith)
          ∙ found_in-all (second s) (high - t.iterator_bucket) t.iterator_bucket
