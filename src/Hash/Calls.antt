-- ===== src/Hash/Calls.antt =====
-- `shash_insert`, `shash_find`, `shash_erase` and `shash_size` of simple_hash/shash.c.
use simple_kit.Base.{ℕ, ◌+◌, ◌-◌, Bool, true, false, Option, none, some, ◌==◌, if◌then◌else◌}
use simple_kit.Hash.Keys.{Key}
use simple_kit.Hash.Chains.{Node, chain_find, chain_insert, chain_unlink}
use simple_kit.Hash.Table.{Table, check_rehash, locate, chain_at, set_chain}
use simple_kit.Hash.Iteration.{iterate}

module _ {ℓ} {V : Type ℓ} where
  -- `shash_insert`; `addr` is what `calloc` returns for the node. `false` is the return of -1.
  unfoldable pub insert : ℕ → Table V → Key → V → Bool × Table V
  insert addr t key value =
      let s = check_rehash t in
      let p = locate s key in
      let node : Node V = record { addr = addr; key = key; value = value } in
      elim (chain_insert node (chain_at s p)) [
        | none ↦ (false, s)
        | some c ↦ (true, record (set_chain s p c) { num_node = s.num_node + 1 })
      ]

  -- `_shash_find`: the node, or NULL.
  unfoldable pub find_node : Table V → Key → Option (Node V)
  find_node s key = chain_find key (chain_at s (locate s key))

  -- `shash_find`: the value if the return is 0, `none` if it is -1.
  unfoldable pub find : Table V → Key → Option V × Table V
  find t key =
      let s = check_rehash t in
      elim (find_node s key) [ none ↦ (none, s) | some n ↦ (some n.value, s) ]

  -- `node == shash->iterator`.
  unfoldable pub is_iterator : Table V → Node V → Bool
  is_iterator s n = elim s.iterator [ none ↦ false | some m ↦ n.addr == m.addr ]

  -- `shash_erase`; `false` is the return of -1.
  unfoldable pub erase : Table V → Key → Bool × Table V
  erase t key =
      let s = check_rehash t in
      elim (find_node s key) [
        | none ↦ (false, s)
        | some n ↦
            let u = if is_iterator s n then (iterate s).1 else s in
            let p = locate u key in
            (
              true,
              record (set_chain u p (chain_unlink n.addr (chain_at u p))) {
                num_node = u.num_node - 1;
              },
            )
      ]

  unfoldable pub size : Table V → ℕ
  size s = s.num_node
