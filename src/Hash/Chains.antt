-- ===== src/Hash/Chains.antt =====
-- The chains of simple_hash/shash.c: the doubly linked list behind one bucket head, in order.
-- A node carries the address that `calloc` gave it, which is what pointers to it compare by;
-- `prev` is the node before it in the list. The loops walk the list as the code does.
pub mod Laws
pub mod Unlink
use simple_kit.Base.{
  ℕ, zero, suc, Bool, Option, none, some, List, [], ◌∷◌, Ordering, ◌==◌, if◌then◌else◌,
}
use simple_kit.Hash.Keys.{Key, key_compare}

pub record Node {ℓ} (V : Type ℓ) : Type ℓ where
  pub addr : ℕ
  pub key : Key
  pub value : V

abbrev pub Chain {ℓ} : Type ℓ → Type ℓ
Chain V = List (Node V)

module _ {ℓ} {V : Type ℓ} where
  -- The loop of `_shash_find`: it stops at the first node whose key is not smaller.
  unfoldable pub chain_find : Key → Chain V → Option (Node V)
  chain_find k [] = none
  chain_find k (n ∷ c) = elim (key_compare k n.key) [
    | Ordering.eq ↦ some n
    | Ordering.lt ↦ none
    | Ordering.gt ↦ chain_find k c
  ]

  -- The loop of `shash_insert` and the linking behind it; `none` where the key is there already.
  unfoldable pub chain_insert : Node V → Chain V → Option (Chain V)
  chain_insert new [] = some (new ∷ [])
  chain_insert new (n ∷ c) =
      let rest = chain_insert new c in
      elim (key_compare new.key n.key) [
        | Ordering.eq ↦ none
        | Ordering.lt ↦ some (new ∷ n ∷ c)
        | Ordering.gt ↦ elim rest [ none ↦ none | some d ↦ some (n ∷ d) ]
      ]

  -- The inner loop of `_shash_check_rehash`: the node goes in front of the first that is not
  -- smaller.
  unfoldable pub chain_place : Node V → Chain V → Chain V
  chain_place node [] = node ∷ []
  chain_place node (n ∷ c) = elim (key_compare node.key n.key) [
    | Ordering.gt ↦ n ∷ chain_place node c
    | _ ↦ node ∷ n ∷ c
  ]

  -- `node->prev->next = node->next` and its mirror: the node at the address leaves its list.
  unfoldable pub chain_unlink : ℕ → Chain V → Chain V
  chain_unlink a [] = []
  chain_unlink a (n ∷ c) = if n.addr == a then c else n ∷ chain_unlink a c

  -- `node->next`.
  unfoldable pub chain_next : ℕ → Chain V → Option (Node V)
  chain_next a [] = none
  chain_next a (n ∷ []) = none
  chain_next a (n ∷ m ∷ c) = if n.addr == a then some m else chain_next a (m ∷ c)
