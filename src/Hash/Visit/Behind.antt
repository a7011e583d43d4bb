-- ===== src/Hash/Visit/Behind.antt =====
-- The pointer `next` in a chain whose nodes have addresses of their own.
use mathlib.Core.Option.{some-injective}
use simple_kit.Base.{
  ℕ, ◌≡◌, refl, ap, sym, ◌∙◌, false, Option, none, some, [], ◌∷◌, arith, Ordering, ◌==◌, ==_iff,
  Bool-cases, inl, inr,
}
use simple_kit.Hash.Keys.{Key, key_compare}
use simple_kit.Hash.Keys.Order.{key_compare_refl}
use simple_kit.Hash.Chains.{Node, Chain, chain_next}
use simple_kit.Hash.Chains.Laws.{Below, IsSorted, Owned}
use simple_kit.Hash.Visit.{behind}

module _ {ℓ} {V : Type ℓ} (owner : ℕ → Option Key) where
  -- The node that `next` leads to has a larger key, and stands at its address.
  next-above :
      (k : Key) (a : ℕ) (n : Node V) (c : Chain V) {m : Node V}
      → Below k c
      → Owned owner c
      → chain_next a (n ∷ c) ≡ some m
      → (key_compare k m.key ≡ Ordering.lt) × (owner m.addr ≡ some m.key)
  unfolding chain_next
  next-above k a n [] b o h = cc
  next-above k a n (x ∷ c) {m} b o h = elim (Bool-cases (n.addr == a)) [
    | inl here ↦ let is : x ≡ m = some-injective _ _ (rw here at h) in rw (sym is) (b.0, o.0)
    | inr there ↦ next-above k a x c {m = m} b.1 o.1 (rw there at h)
  ]

  -- Nodes with different keys have different addresses.
  apart_keys :
      (n m : Node V)
      → owner n.addr ≡ some n.key
      → owner m.addr ≡ some m.key
      → key_compare n.key m.key ≡ Ordering.lt
      → (n.addr == m.addr) ≡ false
  apart_keys n m on om less = elim (Bool-cases (n.addr == m.addr)) [
    | inr ne ↦ ne
    | inl eq ↦
        let keys : n.key ≡ m.key =
          some-injective _ _ (sym on ∙ ap owner ((==_iff _ _).0 eq) ∙ om) in
        cc (key_compare_refl n.key, ap (key_compare n.key) keys, less)
  ]

  pub behind-next :
      (a : ℕ) (c : Chain V) {m : Node V}
      → IsSorted c
      → Owned owner c
      → chain_next a c ≡ some m
      → behind a c ≡ m ∷ behind m.addr c
  unfolding behind chain_next
  behind-next a [] s o h = cc
  behind-next a (n ∷ []) s o h = cc
  behind-next a (n ∷ x ∷ c) {m} s o h =
      let (above, at) = next-above n.key a n (x ∷ c) {m = m} s.0 o.1 h in
      let other = apart_keys n m o.0 at above in
      elim (Bool-cases (n.addr == a)) [
        | inl here ↦
            let is : x ≡ m = some-injective _ _ (rw here at h) in
            rw (here, other, sym is, (==_iff x.addr x.addr).1 refl) refl
        | inr there ↦ rw (there, other) (behind-next a (x ∷ c) {m = m} s.1 o.1 (rw there at h))
      ]

  pub behind-last : (a : ℕ) (c : Chain V) → chain_next a c ≡ none → behind a c ≡ []
  unfolding behind chain_next
  behind-last a [] h = refl
  behind-last a (n ∷ []) h = ground arith
  behind-last a (n ∷ x ∷ c) h = elim (Bool-cases (n.addr == a)) [
    | inl here ↦ cc (rw here at h)
    | inr there ↦ rw there (behind-last a (x ∷ c) (rw there at h))
  ]
