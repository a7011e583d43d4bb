-- ===== src/Hash/Invariant.antt =====
-- The representation invariant of the hash table, with and without a rehash on, and the map that
-- a table stands for. `owner` tells which key stands at each allocated address.
use simple_kit.Base.{ℕ, ◌+◌, ◌^◌, ◌≤◌, ◌<◌, ◌≡◌, Option, none, some, [], ltb, if◌then◌else◌, get_or}
use simple_kit.Hash.Keys.{Key}
use simple_kit.Hash.Chains.{Node}
use simple_kit.Hash.Table.{Table, Buckets, bucket_index, max_num_buckets, second}
use simple_kit.Hash.Arrays.{IsArray, look, total, total-nil}

module _ {ℓ} {V : Type ℓ} where
  -- A rehash is on: the buckets below `rehash_bucket` have moved, the others wait.
  pub record Migrating (owner : ℕ → Option Key) (s : Table V) (to : Buckets V) : Type ℓ where
    pub small : s.num_buckets_1 ≤ max_num_buckets
    pub grows : s.num_buckets_1 ≡ s.num_buckets_0 + 1
    pub array : IsArray owner s.num_buckets_1 to
    pub progress : s.rehash_bucket < 2 ^ s.num_buckets_0
    pub emptied : (i : ℕ) → i < s.rehash_bucket → get_or s.buckets_0 i [] ≡ []
    pub waiting :
        (q : Key)
        → s.rehash_bucket ≤ bucket_index s.num_buckets_0 q
        → look s.num_buckets_1 to q ≡ none

  pub record IsValid (owner : ℕ → Option Key) (s : Table V) : Type ℓ where
    pub small : s.num_buckets_0 ≤ max_num_buckets
    pub array : IsArray owner s.num_buckets_0 s.buckets_0
    pub counted : s.num_node ≡ total s.buckets_0 + total (second s)
    pub rehash : (to : Buckets V) → s.buckets_1 ≡ some to → Migrating owner s to

  -- The node that the table holds under a key.
  abbrev pub view : Table V → Key → Option (Node V)
  view s q = elim s.buckets_1 [
    | none ↦ look s.num_buckets_0 s.buckets_0 q
    | some to ↦
        if ltb (bucket_index s.num_buckets_0 q) s.rehash_bucket
        then look s.num_buckets_1 to q
        else look s.num_buckets_0 s.buckets_0 q
  ]

  -- Reading the two shapes of a table.
  pub view-settled :
      (s : Table V) (q : Key) → s.buckets_1 ≡ none → view s q ≡ look s.num_buckets_0 s.buckets_0 q
  view-settled s q e = rw (e, view)

  pub view-migrating :
      (s : Table V) (q : Key) {to : Buckets V}
      → s.buckets_1 ≡ some to
      → view s q ≡ (
          if ltb (bucket_index s.num_buckets_0 q) s.rehash_bucket
          then look s.num_buckets_1 to q
          else look s.num_buckets_0 s.buckets_0 q)
  view-migrating s q e = rw (e, view)

  pub total-settled : (s : Table V) → s.buckets_1 ≡ none → total (second s) ≡ 0
  total-settled s e = rw (e, second) (total-nil V)

  pub total-migrating :
      (s : Table V) {to : Buckets V} → s.buckets_1 ≡ some to → total (second s) ≡ total to
  total-migrating s e = rw (e, second)
