-- ===== src/Hash/Table.antt =====
-- The state of simple_hash/shash.c, and the rehash that moves one bucket at a time.
-- Every call of `shash_insert`, `shash_erase` and `shash_find` first moves one bucket from
-- `buckets[0]` to `buckets[1]` while a rehash is on. `buckets[1]` is an option, `none` for NULL.
-- `num_buckets` holds exponents; a mask `hash & ((1ULL << n) - 1)` is the remainder by `2 ^ n`.
use simple_kit.Base.{
  ℕ, ◌+◌, ◌%◌, ◌^◌, Option, none, some, List, [], ◌∷◌, ◌&&◌, ltb, leb, ◌==◌, if◌then◌else◌, get_or,
  set, replicate, is_none,
}
use simple_kit.Hash.Keys.{Key, hash_key}
use simple_kit.Hash.Chains.{Node, Chain, chain_place}

abbrev pub init_num_buckets : ℕ
init_num_buckets = 9

abbrev pub max_num_buckets : ℕ
max_num_buckets = 63

-- A bucket array: the list that hangs under each bucket head.
abbrev pub Buckets {ℓ} : Type ℓ → Type ℓ
Buckets V = List (Chain V)

-- `num_node` counts allocated nodes, so it cannot reach 2 ^ 64.
pub record Table {ℓ} (V : Type ℓ) : Type ℓ where
  pub num_node : ℕ
  pub num_buckets_0 : ℕ
  pub num_buckets_1 : ℕ
  pub buckets_0 : Buckets V
  pub buckets_1 : Option (Buckets V)
  pub rehash_bucket : ℕ
  pub iterator_index : ℕ
  pub iterator_bucket : ℕ
  pub iterator : Option (Node V)

-- `hash & ((1ULL << bits) - 1)`.
abbrev pub bucket_index : ℕ → Key → ℕ
bucket_index bits key = hash_key key % 2 ^ bits

-- The array and the index in it that the code picks for a key.
pub data Place : Type 0 where
  old new_array : ℕ → Place

module _ {ℓ} {V : Type ℓ} where
  -- `calloc` zeroes the heads, so every chain is empty and every other field 0 or NULL.
  unfoldable pub new : Table V
  new = record {
    num_node = 0;
    num_buckets_0 = init_num_buckets;
    num_buckets_1 = 0;
    buckets_0 = replicate (2 ^ init_num_buckets) [];
    buckets_1 = none;
    rehash_bucket = 0;
    iterator_index = 0;
    iterator_bucket = 0;
    iterator = none;
  }

  -- The first part of `_shash_check_rehash`: whether a rehash begins.
  unfoldable pub start_rehash : Table V → Table V
  start_rehash s =
      if is_none s.buckets_1
        && is_none s.iterator
        && leb (2 ^ s.num_buckets_0) s.num_node
        && leb (s.num_buckets_0 + 1) max_num_buckets
      then record s {
        num_buckets_1 = s.num_buckets_0 + 1;
        buckets_1 = some (replicate (2 ^ (s.num_buckets_0 + 1)) []);
        rehash_bucket = 0;
      }
      else s

  -- `while (node)` over the nodes of one old bucket.
  unfoldable pub move_chain : ℕ → Chain V → Buckets V → Buckets V
  move_chain bits [] to = to
  move_chain bits (n ∷ c) to =
      let i = bucket_index bits n.key in
      move_chain bits c (set to i (chain_place n (get_or to i [])))

  -- The second part: one bucket moves, and after the last the new array takes over.
  abbrev pub move_bucket : Table V → Buckets V → Table V
  move_bucket s to =
      let moved = move_chain s.num_buckets_1 (get_or s.buckets_0 s.rehash_bucket []) to in
      if s.rehash_bucket + 1 == 2 ^ s.num_buckets_0
      then record s {
        num_buckets_0 = s.num_buckets_1;
        buckets_0 = moved;
        buckets_1 = none;
        rehash_bucket = s.rehash_bucket + 1;
      }
      else record s {
        buckets_0 = set s.buckets_0 s.rehash_bucket [];
        buckets_1 = some moved;
        rehash_bucket = s.rehash_bucket + 1;
      }

  unfoldable pub step_rehash : Table V → Table V
  unfolding move_chain
  step_rehash s = elim s.buckets_1 [
    | none ↦ s
    | some to ↦ if is_none s.iterator then move_bucket s to else s
  ]

  unfoldable pub check_rehash : Table V → Table V
  unfolding start_rehash step_rehash
  check_rehash s = step_rehash (start_rehash s)

  unfoldable pub locate : Table V → Key → Place
  locate s key =
      let i = bucket_index s.num_buckets_0 key in
      elim s.buckets_1 [
        | none ↦ old i
        | some _ ↦
            if ltb i s.rehash_bucket then new_array (bucket_index s.num_buckets_1 key) else old i
      ]

  -- The chain at a place, and the table with another chain there.
  abbrev pub second : Table V → Buckets V
  second s = elim s.buckets_1 [ none ↦ [] | some to ↦ to ]

  unfoldable pub chain_at : Table V → Place → Chain V
  chain_at s (old i) = get_or s.buckets_0 i []
  chain_at s (new_array i) = get_or (second s) i []

  unfoldable pub set_chain : Table V → Place → Chain V → Table V
  set_chain s (old i) c = record s { buckets_0 = set s.buckets_0 i c }
  set_chain s (new_array i) c = elim s.buckets_1 [
    | none ↦ s
    | some to ↦ record s { buckets_1 = some (set to i c) }
  ]
