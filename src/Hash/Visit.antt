-- ===== src/Hash/Visit.antt =====
-- What an iteration over the table of simple_hash/shash.c hands out, described by the contents of
-- the two bucket arrays in place of the iterator's moves.
pub mod Behind
pub mod Search
pub mod Advance
pub mod Rounds
pub mod Complete
use simple_kit.Base.{
  ℕ, zero, suc, ◌+◌, ◌-◌, ◌^◌, Option, none, some, List, [], ◌∷◌, ◌++◌, ◌==◌, if◌then◌else◌, get_or,
}
use simple_kit.Hash.Chains.{Node, Chain}
use simple_kit.Hash.Table.{Table, Buckets, second}
use simple_kit.Hash.Iteration.{iterate}

module _ {ℓ} {V : Type ℓ} where
  -- The nodes of `rounds` buckets from `b` on.
  unfoldable pub nodes_from : Buckets V → ℕ → ℕ → List (Node V)
  nodes_from bs zero b = []
  nodes_from bs (suc rounds) b = get_or bs b [] ++ nodes_from bs rounds (b + 1)

  -- All buckets from the first: every node of the array, in its order.
  unfoldable pub concat : Buckets V → List (Node V)
  concat [] = []
  concat (c ∷ bs) = c ++ concat bs

  -- The nodes behind the one at an address.
  pub behind : ℕ → Chain V → List (Node V)
  behind a [] = []
  behind a (n ∷ c) = if n.addr == a then c else behind a c

  -- What a search over `rounds` buckets leads to, if the search behind a found node goes on to
  -- `width` buckets: all of them, or nothing.
  abbrev pub found_in : Buckets V → ℕ → ℕ → ℕ → List (Node V)
  found_in bs rounds width b = elim (nodes_from bs rounds b) [
    | [] ↦ []
    | n ∷ c ↦ nodes_from bs width b
  ]

  -- What the search reaches in `buckets[1]` when it comes from `buckets[0]`: everything, if one of
  -- the first `2 ^ num_buckets[0]` buckets holds a node, and else nothing.
  abbrev pub reached : Table V → List (Node V)
  reached s = found_in (second s) (2 ^ s.num_buckets_0) (2 ^ s.num_buckets_1) 0

  -- The nodes of the buckets from bucket `b` of array `i` on, as far as the search goes.
  abbrev pub later : Table V → ℕ → ℕ → List (Node V)
  later s i b =
      if i == 0
      then nodes_from s.buckets_0 (2 ^ s.num_buckets_0 - b) b ++ reached s
      else nodes_from (second s) (2 ^ s.num_buckets_1 - b) b

  abbrev pub stands_in : Table V → Chain V
  stands_in s =
      get_or (if s.iterator_index == 0 then s.buckets_0 else second s) s.iterator_bucket []

  -- What the iterator still hands out.
  abbrev pub pending : Table V → List (Node V)
  pending s = elim s.iterator [
    | none ↦ []
    | some n ↦ n ∷ (behind n.addr (stands_in s) ++ later s s.iterator_index (s.iterator_bucket + 1))
  ]

  -- A client's loop `while (shash_iterate(...) == 0)`, on fuel: the nodes it sees.
  unfoldable pub visit : ℕ → Table V → List (Node V)
  unfolding iterate
  visit zero s = []
  visit (suc fuel) s =
      let rest = visit fuel (iterate s).1 in elim (iterate s).0 [ none ↦ [] | some n ↦ n ∷ rest ]
