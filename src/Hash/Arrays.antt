-- ===== src/Hash/Arrays.antt =====
-- A bucket array as a finite map: every chain sorted, every key in its home bucket.
use native.Mathlib.Nat.{pow-suc}
use simple_kit.Base.{
  ℕ, zero, suc, ◌+◌, ◌^◌, ◌≤◌, ◌<◌, ◌≡◌, ◌≢◌, refl, ap, ◌∙◌, Option, none, some, [], ◌∷◌, arith,
  ◌==◌, ==_iff, if◌then◌else◌, length, get_or, set, replicate, length-set, get_or-set,
  length-replicate, get_or-replicate, Bool-cases, inl, inr, ==_symm,
}
use simple_kit.Hash.Keys.{Key}
use simple_kit.Hash.Keys.Order.{same, same_iff}
use simple_kit.Hash.Chains.{Node, Chain, chain_place}
use simple_kit.Hash.Chains.Laws.{
  lookup, IsSorted, Owned, lookup-place, place-IsSorted, place-Owned, length-place,
}
use simple_kit.Hash.Table.{Buckets, bucket_index}

pub pow_pos : (n : ℕ) → 0 < 2 ^ n
pow_pos zero = omega arith
pow_pos (suc n) = omega (arith, pow_pos n, pow-suc 2 n)

pub bucket_index-lt : (bits : ℕ) (q : Key) → bucket_index bits q < 2 ^ bits
bucket_index-lt bits q = omega (arith, pow_pos bits)

module _ {ℓ} {V : Type ℓ} where
  -- The number of nodes in all chains.
  unfoldable pub total : Buckets V → ℕ
  total [] = 0
  total (c ∷ bs) = length c + total bs

  pub total-set :
      (bs : Buckets V) (i : ℕ) (c : Chain V)
      → i < length bs
      → total (set bs i c) + length (get_or bs i []) ≡ total bs + length c
  unfolding total
  total-set [] i c h = absurd (omega arith)
  total-set (d ∷ bs) zero c h = omega arith
  total-set (d ∷ bs) (suc i) c h = omega (arith, total-set bs i c (omega arith))

  pub length-le-total : (bs : Buckets V) (i : ℕ) → length (get_or bs i []) ≤ total bs
  unfolding total
  length-le-total [] i = omega arith
  length-le-total (c ∷ bs) zero = omega arith
  length-le-total (c ∷ bs) (suc i) = omega (arith, length-le-total bs i)

  pub total-empty :
      (bs : Buckets V) → ((i : ℕ) → i < length bs → get_or bs i [] ≡ []) → total bs ≡ 0
  unfolding total
  total-empty [] h = refl
  total-empty (c ∷ bs) h =
      let first = ap length (h 0 (omega arith)) in
      omega (arith, total-empty bs λ i p. h (suc i) (omega arith))

pub total-nil {ℓ} : (V : Type ℓ) → total {V = V} [] ≡ 0
unfolding total
total-nil V = refl

pub total-replicate {ℓ} : (V : Type ℓ) (n : ℕ) → total (replicate {A = Chain V} n []) ≡ 0
unfolding total
total-replicate V zero = refl
total-replicate V (suc n) = omega (arith, total-replicate V n)

module _ {ℓ} {V : Type ℓ} where
  pub record IsArray (owner : ℕ → Option Key) (bits : ℕ) (bs : Buckets V) : Type ℓ where
    pub width : length bs ≡ 2 ^ bits
    pub sorted : (i : ℕ) → IsSorted (get_or bs i [])
    pub owned : (i : ℕ) → Owned owner (get_or bs i [])
    pub placed : (q : Key) (i : ℕ) → bucket_index bits q ≢ i → lookup q (get_or bs i []) ≡ none

  -- What the array holds under a key.
  abbrev pub look : ℕ → Buckets V → Key → Option (Node V)
  look bits bs q = lookup q (get_or bs (bucket_index bits q) [])

  pub empty-IsArray :
      (owner : ℕ → Option Key) (bits : ℕ) → IsArray owner bits (replicate (2 ^ bits) [])
  unfolding lookup
  empty-IsArray owner bits = record {
    width = length-replicate (2 ^ bits) [];
    sorted = λ i. rw (get_or-replicate {A = Chain V} (2 ^ bits) i []) tt;
    owned = λ i. rw (get_or-replicate {A = Chain V} (2 ^ bits) i []) tt;
    placed = λ q i h. rw (get_or-replicate {A = Chain V} (2 ^ bits) i []) refl;
  }

  pub look-empty : (bits : ℕ) (q : Key) → look bits (replicate (2 ^ bits) []) q ≡ none
  unfolding lookup
  look-empty bits q = rw (get_or-replicate {A = Chain V} (2 ^ bits) (bucket_index bits q) []) refl

  -- Every change of the code is a write of one chain.
  module _ (owner : ℕ → Option Key) (bits : ℕ) (bs : Buckets V) (a : IsArray owner bits bs) (i : ℕ)
      (inside : i < 2 ^ bits) (c : Chain V) where
    pub set-IsArray :
        IsSorted c
        → Owned owner c
        → ((q : Key) → bucket_index bits q ≢ i → lookup q c ≡ none)
        → IsArray owner bits (set bs i c)
    set-IsArray s o p = record {
      width = length-set bs i c ∙ a.width;
      sorted = λ j. ground (arith, get_or-set bs i j c [], a.sorted j, a.width);
      owned = λ j. ground (arith, get_or-set bs i j c [], a.owned j, a.width);
      placed = λ q j h. ground (arith, get_or-set bs i j c [], a.placed q j, p q, a.width);
    }

    pub look-set :
        (q : Key)
        → look bits (set bs i c) q
          ≡ (if bucket_index bits q == i then lookup q c else look bits bs q)
    look-set q =
        rw (get_or-set bs i (bucket_index bits q) c [] (rw a.width inside))
          (elim (Bool-cases (i == bucket_index bits q)) [
            | inl here ↦ rw (here, ==_symm (bucket_index bits q) i, here)
            | inr other ↦ rw (other, ==_symm (bucket_index bits q) i, other)
          ])

  -- A node that is placed in the chain of its key.
  abbrev pub place_in : ℕ → Buckets V → Node V → Buckets V
  place_in bits bs n = let i = bucket_index bits n.key in set bs i (chain_place n (get_or bs i []))

  module _ (owner : ℕ → Option Key) (bits : ℕ) (bs : Buckets V) (a : IsArray owner bits bs)
      (n : Node V) where
    at : bucket_index bits n.key < 2 ^ bits
    at = bucket_index-lt bits n.key

    pub place-IsArray :
        owner n.addr ≡ some n.key
        → look bits bs n.key ≡ none
        → IsArray owner bits (place_in bits bs n)
    place-IsArray own absent =
        let i = bucket_index bits n.key in
        let c = get_or bs i [] in
        set-IsArray owner bits bs a i at (chain_place n c) (place-IsSorted n c absent (a.sorted i))
          (place-Owned owner n c own (a.owned i)) λ q away. lookup-place q n c ∙ placed q away
      where
        placed :
            (q : Key)
            → bucket_index bits q ≢ bucket_index bits n.key
            → (if same q n.key then some n else lookup q (get_or bs (bucket_index bits n.key) []))
              ≡ none
        placed q away = elim (Bool-cases (same q n.key)) [
          | inl e ↦ absurd (away (ap (bucket_index bits) ((same_iff q n.key).0 e)))
          | inr e ↦ rw e (a.placed q _ away)
        ]

    pub look-place :
        (q : Key)
        → look bits (place_in bits bs n) q ≡ (if same q n.key then some n else look bits bs q)
    look-place q =
        let i = bucket_index bits n.key in
        let c = get_or bs i [] in
        look-set owner bits bs a i at (chain_place n c) q
        ∙ (elim (Bool-cases (bucket_index bits q == i)) [
          | inl home ↦ rw home (lookup-place q n c ∙ rw ((==_iff _ _).0 home))
          | inr away ↦ rw away (elim (Bool-cases (same q n.key)) [
            | inl e ↦ cc ((==_iff _ _).1 (ap (bucket_index bits) ((same_iff q n.key).0 e)))
            | inr e ↦ rw e
          ])
        ])

    pub total-place : total (place_in bits bs n) ≡ total bs + 1
    total-place =
        let i = bucket_index bits n.key in
        let c = get_or bs i [] in
        omega (arith, total-set bs i (chain_place n c) (rw a.width at), length-place n c)
