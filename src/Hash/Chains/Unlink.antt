-- ===== src/Hash/Chains/Unlink.antt =====
-- Taking a node out of a chain by its address.
use mathlib.Core.Option.{some-injective}
use simple_kit.Base.{
  ℕ, ◌+◌, ◌≡◌, ap, sym, ◌∙◌, false, Option, none, some, [], ◌∷◌, arith, ◌==◌, ==_iff, if◌then◌else◌,
  length, Bool-cases, inl, inr,
}
use simple_kit.Hash.Keys.{Key}
use simple_kit.Hash.Keys.Order.{key_compare_refl, key_compare-eq, same, same_iff}
use simple_kit.Hash.Chains.{Node, Chain, chain_unlink}
use simple_kit.Hash.Chains.Laws.{lookup, Below, IsSorted, Owned, lookup-Below}

module _ {ℓ} {V : Type ℓ} where
  pub lookup-key : (k : Key) (c : Chain V) {n : Node V} → lookup k c ≡ some n → n.key ≡ k
  unfolding lookup
  lookup-key k [] h = cc
  lookup-key k (m ∷ c) {n} h = ground (arith, lookup-key k c {n = n}, key_compare-eq k m.key)

  pub lookup-Owned :
      (owner : ℕ → Option Key) (k : Key) (c : Chain V) {n : Node V}
      → Owned owner c
      → lookup k c ≡ some n
      → owner n.addr ≡ some n.key
  unfolding lookup
  lookup-Owned owner k [] o h = cc
  lookup-Owned owner k (m ∷ c) {n} o h = ground (arith, lookup-Owned owner k c {n = n})

  Below-unlink : (k : Key) (a : ℕ) (c : Chain V) → Below k c → Below k (chain_unlink a c)
  unfolding chain_unlink
  Below-unlink k a [] b = b
  Below-unlink k a (n ∷ c) b = ground (arith, Below-unlink k a c)

  pub unlink-IsSorted : (a : ℕ) (c : Chain V) → IsSorted c → IsSorted (chain_unlink a c)
  unfolding chain_unlink
  unlink-IsSorted a [] s = s
  unlink-IsSorted a (n ∷ c) s = ground (arith, unlink-IsSorted a c, Below-unlink n.key a c)

  pub unlink-Owned :
      (owner : ℕ → Option Key) (a : ℕ) (c : Chain V)
      → Owned owner c
      → Owned owner (chain_unlink a c)
  unfolding chain_unlink
  unlink-Owned owner a [] o = o
  unlink-Owned owner a (n ∷ c) o = ground (arith, unlink-Owned owner a c)

  -- Two nodes at one address have one key, so a node that is found is the node at its address.
  apart :
      (owner : ℕ → Option Key) (k : Key) (m : Node V) (c : Chain V) {n : Node V}
      → owner m.addr ≡ some m.key
      → Owned owner c
      → lookup k c ≡ some n
      → same k m.key ≡ false
      → (m.addr == n.addr) ≡ false
  apart owner k m c {n} om o h other = elim (Bool-cases (m.addr == n.addr)) [
    | inr ne ↦ ne
    | inl eq ↦
        let at : m.addr ≡ n.addr = (==_iff _ _).0 eq in
        let keys : k ≡ m.key =
          sym (lookup-key k c h)
          ∙ some-injective _ _ (sym (lookup-Owned owner k c o h) ∙ ap owner (sym at) ∙ om) in
        cc ((same_iff k m.key).1 keys)
  ]

  -- After a node that was found under `k` is unlinked, `k` is gone and all else is as before.
  pub lookup-unlink :
      (owner : ℕ → Option Key) (q k : Key) (c : Chain V) {n : Node V}
      → Owned owner c
      → IsSorted c
      → lookup k c ≡ some n
      → lookup q (chain_unlink n.addr c) ≡ (if same q k then none else lookup q c)
  unfolding lookup chain_unlink
  lookup-unlink owner q k [] o s h = cc
  lookup-unlink owner q k (m ∷ c) {n} o s h = elim (Bool-cases (same k m.key)) [
    | inl here ↦ ground (
      arith,
      key_compare-eq k m.key,
      key_compare-eq q m.key,
      key_compare-eq q k,
      key_compare_refl q,
      ap (λ j. lookup j c) {x = q} {y = m.key},
      lookup-Below m.key c,
    )
    | inr other ↦ ground (
      arith,
      apart owner k m c {n = n},
      lookup-unlink owner q k c {n = n},
      key_compare-eq q m.key,
      key_compare-eq q k,
    )
  ]

  pub length-unlink :
      (owner : ℕ → Option Key) (k : Key) (c : Chain V) {n : Node V}
      → Owned owner c
      → lookup k c ≡ some n
      → length (chain_unlink n.addr c) + 1 ≡ length c
  unfolding lookup chain_unlink
  length-unlink owner k [] o h = cc
  length-unlink owner k (m ∷ c) {n} o h =
      ground (arith, apart owner k m c {n = n}, length-unlink owner k c {n = n})
