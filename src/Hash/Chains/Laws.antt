-- ===== src/Hash/Chains/Laws.antt =====
-- A chain as a finite map: what the sorted walks do, in terms of a plain lookup.
use simple_kit.Base.{
  ℕ, ◌+◌, ◌≡◌, refl, ap, sym, ◌∙◌, false, Option, none, some, [], ◌∷◌, arith, Ordering, ◌==◌, ne→==,
  if◌then◌else◌, length, is_some,
}
use simple_kit.Hash.Keys.{Key, key_compare}
use simple_kit.Hash.Keys.Order.{
  key_compare_refl, key_compare-eq, key_compare_flip, key_compare_trans, same,
}
use simple_kit.Hash.Chains.{Node, Chain, chain_find, chain_insert, chain_place}

module _ {ℓ} {V : Type ℓ} where
  -- The first node with the key, wherever it stands.
  unfoldable pub lookup : Key → Chain V → Option (Node V)
  lookup k [] = none
  lookup k (n ∷ c) = if same k n.key then some n else lookup k c

  -- Every key of the chain is above `k`.
  abbrev pub Below : Key → Chain V → Type 0
  Below k [] = Unit {0}
  Below k (n ∷ c) = (key_compare k n.key ≡ Ordering.lt) × Below k c

  -- Strictly ascending keys.
  abbrev pub IsSorted : Chain V → Type 0
  IsSorted [] = Unit {0}
  IsSorted (n ∷ c) = Below n.key c × IsSorted c

  -- `owner` is the allocator's view: the key of the node at each address in use.
  abbrev pub Owned : (ℕ → Option Key) → Chain V → Type 0
  Owned owner [] = Unit {0}
  Owned owner (n ∷ c) = (owner n.addr ≡ some n.key) × Owned owner c

  pub Below-trans :
      (j k : Key) (c : Chain V) → key_compare j k ≡ Ordering.lt → Below k c → Below j c
  Below-trans j k [] h b = tt
  Below-trans j k (n ∷ c) h b = (key_compare_trans j k n.key h b.0, Below-trans j k c h b.1)

  -- A key below all others is not in the chain.
  pub lookup-Below : (k : Key) (c : Chain V) → Below k c → lookup k c ≡ none
  unfolding lookup
  lookup-Below k [] b = refl
  lookup-Below k (n ∷ c) b = ground (arith, lookup-Below k c)

  -- The walk of `_shash_find` misses nothing in a sorted chain.
  pub chain_find-lookup : (k : Key) (c : Chain V) → IsSorted c → chain_find k c ≡ lookup k c
  unfolding chain_find lookup
  chain_find-lookup k [] s = refl
  chain_find-lookup k (n ∷ c) s =
      ground (arith, chain_find-lookup k c, Below-trans k n.key c, lookup-Below k c)

  -- `shash_insert` refuses a key that is there, and links the node as the rehash does.
  pub chain_insert-place :
      (new : Node V) (c : Chain V)
      → IsSorted c
      → chain_insert new c ≡ (if is_some (lookup new.key c) then none else some (chain_place new c))
  unfolding chain_insert chain_place lookup
  chain_insert-place new [] s = refl
  chain_insert-place new (n ∷ c) s =
      ground (arith, chain_insert-place new c, Below-trans new.key n.key c, lookup-Below new.key c)

  pub lookup-place :
      (q : Key) (node : Node V) (c : Chain V)
      → lookup q (chain_place node c) ≡ (if same q node.key then some node else lookup q c)
  unfolding lookup chain_place
  lookup-place q node [] = refl
  lookup-place q node (n ∷ c) = ground (
    arith,
    lookup-place q node c,
    key_compare-eq q node.key,
    key_compare-eq q n.key,
    key_compare_refl q,
  )

  Below-place :
      (k : Key) (node : Node V) (c : Chain V)
      → key_compare k node.key ≡ Ordering.lt
      → Below k c
      → Below k (chain_place node c)
  unfolding chain_place
  Below-place k node [] h b = (h, tt)
  Below-place k node (n ∷ c) h b = ground (arith, Below-place k node c)

  pub place-IsSorted :
      (node : Node V) (c : Chain V)
      → lookup node.key c ≡ none
      → IsSorted c
      → IsSorted (chain_place node c)
  unfolding chain_place lookup
  place-IsSorted node [] h s = (tt, tt)
  place-IsSorted node (n ∷ c) h s = ground (
    arith,
    place-IsSorted node c,
    Below-trans node.key n.key c,
    Below-place n.key node c,
    key_compare_flip node.key n.key,
  )

  pub place-Owned :
      (owner : ℕ → Option Key) (node : Node V) (c : Chain V)
      → owner node.addr ≡ some node.key
      → Owned owner c
      → Owned owner (chain_place node c)
  unfolding chain_place
  place-Owned owner node [] h o = (h, tt)
  place-Owned owner node (n ∷ c) h o = ground (arith, place-Owned owner node c)

  pub length-place : (node : Node V) (c : Chain V) → length (chain_place node c) ≡ length c + 1
  unfolding chain_place
  length-place node [] = refl
  length-place node (n ∷ c) = ground (arith, length-place node c)

  -- An allocation at an address that is not in use disturbs no chain.
  pub Owned-fresh :
      (owner : ℕ → Option Key) (addr : ℕ) (key : Key) (c : Chain V)
      → owner addr ≡ none
      → Owned owner c
      → Owned (λ a. if a == addr then some key else owner a) c
  Owned-fresh owner addr key [] h o = tt
  Owned-fresh owner addr key (n ∷ c) h o =
      let other : n.addr == addr ≡ false = ne→== n.addr addr (λ e. cc (sym o.0 ∙ ap owner e ∙ h)) in
      (rw other o.0, Owned-fresh owner addr key c h o.1)
