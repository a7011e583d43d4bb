-- ===== src/Hash/Iteration.antt =====
-- The iterator of simple_hash/shash.c: `shash_begin_iterate`, `shash_iterate`, `shash_end_iterate`.
-- `iterator->next` is read in the chain of the bucket that the iterator stands in.
use simple_kit.Base.{
  ℕ, zero, suc, ◌+◌, ◌-◌, ◌^◌, Option, none, some, [], ◌∷◌, ◌==◌, if◌then◌else◌, get_or, is_none,
}
use simple_kit.Hash.Chains.{Node, chain_next}
use simple_kit.Hash.Table.{Table, Buckets, second}

module _ {ℓ} {V : Type ℓ} where
  -- `for (b = from; b < from + rounds; ++b) if (buckets[b].next)`: the first node, if any.
  unfoldable pub scan : Buckets V → ℕ → ℕ → Option (ℕ × Node V)
  scan bs zero b = none
  scan bs (suc rounds) b = elim (get_or bs b []) [
    | [] ↦ scan bs rounds (b + 1)
    | n ∷ c ↦ some (b, n)
  ]

  unfoldable pub point_at : Table V → ℕ → ℕ × Node V → Table V
  point_at s i (b, n) = record s { iterator_index = i; iterator_bucket = b; iterator = some n }

  unfoldable pub begin_iterate : Table V → Table V
  begin_iterate s = elim (scan s.buckets_0 (2 ^ s.num_buckets_0) 0) [
    | some found ↦ point_at s 0 found
    | none ↦ elim (scan (second s) (if is_none s.buckets_1 then 0 else 2 ^ s.num_buckets_1) 0) [
      | some found ↦ point_at s 1 found
      | none ↦ record s { iterator = none }
    ]
  ]

  -- One round of that loop, over `buckets[1]`.
  unfoldable pub enter_second : ℕ → Table V → Table V
  enter_second num_buckets s = elim s.buckets_1 [
    | none ↦ s
    | some to ↦ elim (scan to (num_buckets - s.iterator_bucket) s.iterator_bucket) [
      | some found ↦ point_at s 1 found
      | none ↦ s
    ]
  ]

  -- The search of `shash_iterate` behind the last node of a bucket. The bound is read once, before
  -- the loop over the two arrays.
  unfoldable pub next_bucket : Table V → Table V
  next_bucket t =
      let s = record t { iterator = none; iterator_bucket = t.iterator_bucket + 1 } in
      let num_buckets =
        if s.iterator_index == 0 then 2 ^ s.num_buckets_0 else 2 ^ s.num_buckets_1 in
      if s.iterator_index == 0
      then elim (scan s.buckets_0 (num_buckets - s.iterator_bucket) s.iterator_bucket) [
        | some found ↦ point_at s 0 found
        | none ↦ enter_second num_buckets (record s { iterator_bucket = 0 })
      ]
      else enter_second num_buckets s

  -- `shash_iterate`: the node that is handed out, `none` for the return of -1.
  unfoldable pub iterate : Table V → Option (Node V) × Table V
  iterate s = elim s.iterator [
    | none ↦ (none, s)
    | some n ↦
        let here = if s.iterator_index == 0 then s.buckets_0 else second s in
        (
          some n,
          elim (chain_next n.addr (get_or here s.iterator_bucket [])) [
            | some m ↦ record s { iterator = some m }
            | none ↦ next_bucket s
          ],
        )
  ]

  unfoldable pub end_iterate : Table V → Table V
  end_iterate s = record s { iterator = none }
