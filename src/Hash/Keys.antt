-- ===== src/Hash/Keys.antt =====
-- simple_hash/shash.c: `_shash_hash_key` and `_shash_key_compare`. A key is its bytes, as unsigned
-- numbers; `key_len` is the length of that list. `key_compare` is `_slist_key_compare` of
-- simple_skiplist/slist.c, whose `min_len` is a `uint32_t`; in `_shash_key_compare`, which is
-- `int_key_compare`, it is an `int`. Where the smaller length is below 2 ^ 31 the two are the same,
-- and the tables of Hash call `key_compare`: their keys are taken to be shorter.
pub mod Order
use simple_kit.Base.{
  ℕ, zero, suc, ◌+◌, ◌*◌, ◌%◌, ◌^◌, Bool, true, false, List, [], ◌∷◌, compare, Ordering, ltb, ◌==◌,
  if◌then◌else◌, length, Option, none, some,
}
use simple_kit.Base.Words.{u64_mod}

abbrev pub Key : Type 0
Key = List ℕ

-- `memcmp(a, b, n)`; only the sign of its result is used. The code never reads past a key.
unfoldable pub memcmp : ℕ → Key → Key → Ordering
memcmp zero a b = Ordering.eq
memcmp (suc n) (x ∷ a) (y ∷ b) = elim (compare x y) [ Ordering.eq ↦ memcmp n a b | r ↦ r ]
memcmp (suc n) a b = Ordering.eq

-- The sign of the result is the order: `lt` for a negative number, `gt` for a positive one.
unfoldable pub key_compare : Key → Key → Ordering
unfolding memcmp
key_compare a b =
    let min_len = if ltb (length a) (length b) then length a else length b in
    elim (memcmp min_len a b) [
      | Ordering.eq ↦
          if length a == length b
          then Ordering.eq
          else if ltb (length a) (length b)
          then Ordering.lt
          else Ordering.gt
      | r ↦ r
    ]

-- `_shash_key_compare`; `none` where `min_len` is negative, so that `memcmp` gets a huge size.
unfoldable pub int_key_compare : Key → Key → Option Ordering
int_key_compare a b =
    let min_len = if ltb (length a) (length b) then length a else length b in
    if ltb min_len (2 ^ 31) then some (key_compare a b) else none

-- The loop of `_shash_hash_key`, with the hash so far.
unfoldable pub hash_loop : ℕ → Key → ℕ
hash_loop hash [] = hash
hash_loop hash (x ∷ key) = hash_loop ((hash * 33 + x) % u64_mod) key

unfoldable pub hash_key : Key → ℕ
unfolding hash_loop
hash_key key = hash_loop 0 key
