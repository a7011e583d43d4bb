-- ===== src/Hash/Rehash.antt =====
-- The incremental rehash changes where nodes stand, and nothing that a client sees.
use mathlib.Core.Option.{some-injective}
use mathlib.Core.Path.{subst}
use simple_kit.Base.{
  ℕ, ◌+◌, ◌^◌, ◌≤◌, ◌≡◌, ◌≢◌, refl, sym, ◌∙◌, true, Option, none, some, [], arith, ◌==◌, ==_iff,
  if◌then◌else◌, get_or, set, Bool-cases, inl, inr, and_parts, is_none→none, ltb, lt→ltb, leb,
  leb→le, replicate, is_none, ◌&&◌,
}
use simple_kit.Hash.Keys.{Key}
use simple_kit.Hash.Table.{
  Table, Buckets, bucket_index, move_chain, max_num_buckets, start_rehash, step_rehash,
  check_rehash, move_bucket,
}
use simple_kit.Hash.Arrays.{
  bucket_index-lt, empty-IsArray, look-empty, total-replicate, total-nil, pow_pos,
}
use simple_kit.Hash.Invariant.{
  Migrating, IsValid, view, view-settled, view-migrating, total-settled, total-migrating,
}
use simple_kit.Hash.MoveBucket.{
  all_moved, cleared, count_moved, merged, waiting_on, emptied_on, all_empty,
}

module _ {ℓ} {V : Type ℓ} where
  -- What a table keeps when its nodes move.
  pub record Kept (owner : ℕ → Option Key) (s t : Table V) : Type ℓ where
    pub valid : IsValid owner t
    pub reads : (q : Key) → view t q ≡ view s q
    pub nodes : t.num_node ≡ s.num_node
    pub iterator : t.iterator ≡ s.iterator

  module _ (owner : ℕ → Option Key) (s : Table V) (v : IsValid owner s) where
    stays : Kept owner s s
    stays = record { valid = v; reads = λ q. refl; nodes = refl; iterator = refl }

    -- A rehash that begins adds an empty array.
    begins :
        s.buckets_1 ≡ none
        → s.num_buckets_0 + 1 ≤ max_num_buckets
        → Kept owner s (record s {
          num_buckets_1 = s.num_buckets_0 + 1;
          buckets_1 = some (replicate (2 ^ (s.num_buckets_0 + 1)) []);
          rehash_bucket = 0;
        })
    begins e room =
        let bits = s.num_buckets_0 + 1 in
        record {
          valid = record {
            small = v.small;
            array = v.array;
            counted = omega (arith, v.counted, total-settled s e, total-replicate V (2 ^ bits));
            rehash = λ to is. subst (Migrating owner _) (some-injective _ _ is) (record {
              small = room;
              grows = refl;
              array = empty-IsArray owner bits;
              progress = pow_pos s.num_buckets_0;
              emptied = λ i p. absurd (omega arith);
              waiting = λ q h. look-empty bits q;
            });
          };
          reads = λ q. sym (view-settled s q e ∙ ground arith);
          nodes = refl;
          iterator = refl;
        }

    pub start_rehash-Kept : Kept owner s (start_rehash s)
    unfolding start_rehash
    start_rehash-Kept =
        elim (Bool-cases (
          is_none s.buckets_1
          && is_none s.iterator
          && leb (2 ^ s.num_buckets_0) s.num_node
          && leb (s.num_buckets_0 + 1) max_num_buckets)) [
            | inr stay ↦ rw stay stays
            | inl begin ↦
                let (most, fits) = and_parts _ _ begin in
                let (both, full) = and_parts _ _ most in
                let (settled, idle) = and_parts _ _ both in
                rw begin (begins (is_none→none s.buckets_1 settled) (leb→le _ _ fits))
          ]

    -- The last bucket moves, and the new array takes the place of the old.
    finishes :
        {to : Buckets V}
        → s.buckets_1 ≡ some to
        → s.rehash_bucket + 1 ≡ 2 ^ s.num_buckets_0
        → Kept owner s (record s {
          num_buckets_0 = s.num_buckets_1;
          buckets_0 = move_chain s.num_buckets_1 (get_or s.buckets_0 s.rehash_bucket []) to;
          buckets_1 = none;
          rehash_bucket = s.rehash_bucket + 1;
        })
    finishes {to} e last =
        let at = s.rehash_bucket in
        let bits = s.num_buckets_0 in
        let old = s.buckets_0 in
        let m = v.rehash to e in
        let one =
          all_moved owner bits s.num_buckets_1 at old to v.array m.array m.progress m.waiting in
        record {
          valid = record {
            small = m.small;
            array = one.array;
            counted = omega (
              arith,
              v.counted,
              total-migrating s e,
              total-nil V,
              count_moved owner bits s.num_buckets_1 at old to v.array m.array m.progress m.waiting,
              all_empty owner bits s.num_buckets_1 at old to v.array m.array m.progress m.waiting
                  m.emptied last,
            );
            rehash = λ to is. cc;
          };
          reads = λ q.
              let below : ltb (bucket_index bits q) (at + 1) ≡ true =
                lt→ltb _ _ (omega (arith, bucket_index-lt bits q)) in
              rw below at
                (merged owner bits s.num_buckets_1 at old to v.array m.array m.progress m.waiting q)
              ∙ sym (view-migrating s q e);
          nodes = refl;
          iterator = refl;
        }

    -- A bucket moves that is not the last.
    advances :
        {to : Buckets V}
        → s.buckets_1 ≡ some to
        → s.rehash_bucket + 1 ≢ 2 ^ s.num_buckets_0
        → Kept owner s (record s {
          buckets_0 = set s.buckets_0 s.rehash_bucket [];
          buckets_1 = some (move_chain s.num_buckets_1 (get_or s.buckets_0 s.rehash_bucket []) to);
          rehash_bucket = s.rehash_bucket + 1;
        })
    advances {to} e more =
        let at = s.rehash_bucket in
        let bits = s.num_buckets_0 in
        let old = s.buckets_0 in
        let m = v.rehash to e in
        let one =
          all_moved owner bits s.num_buckets_1 at old to v.array m.array m.progress m.waiting in
        record {
          valid = record {
            small = v.small;
            array =
                cleared owner bits s.num_buckets_1 at old to v.array m.array m.progress m.waiting;
            counted = omega (
              arith,
              v.counted,
              total-migrating s e,
              count_moved owner bits s.num_buckets_1 at old to v.array m.array m.progress m.waiting,
            );
            rehash = λ r is. subst (Migrating owner _) (some-injective _ _ is) (record {
              small = m.small;
              grows = m.grows;
              array = one.array;
              progress = omega (arith, m.progress);
              emptied = λ i p.
                  emptied_on owner bits s.num_buckets_1 at old to v.array m.array m.progress
                    m.waiting m.emptied i p;
              waiting = λ q h.
                  waiting_on owner bits s.num_buckets_1 at old to v.array m.array m.progress
                    m.waiting q h;
            });
          };
          reads = λ q.
              merged owner bits s.num_buckets_1 at old to v.array m.array m.progress m.waiting q
              ∙ sym (view-migrating s q e);
          nodes = refl;
          iterator = refl;
        }

    step_on :
        (o : Option (Buckets V))
        → s.buckets_1 ≡ o
        → Kept owner s
            (elim o [ none ↦ s | some to ↦ if is_none s.iterator then move_bucket s to else s ])
    step_on none e = stays
    step_on (some to) e = elim (Bool-cases (is_none s.iterator)) [
      | inr busy ↦ rw busy stays
      | inl idle ↦ rw idle (elim (Bool-cases (s.rehash_bucket + 1 == 2 ^ s.num_buckets_0)) [
        | inl last ↦ rw last (finishes e ((==_iff _ _).0 last))
        | inr more ↦ rw more (advances e (λ is. cc ((==_iff _ _).1 is)))
      ])
    ]

    -- The second part of `_shash_check_rehash`, on each of its branches.
    pub step_rehash-Kept : Kept owner s (step_rehash s)
    unfolding step_rehash
    step_rehash-Kept = step_on s.buckets_1 refl

  -- On a valid table _shash_check_rehash keeps validity, the node that every key reads, the size
  -- and the iterator, whether it starts a rehash, moves a bucket, finishes or does nothing.
  pub check_rehash-Kept :
      (owner : ℕ → Option Key) (s : Table V) → IsValid owner s → Kept owner s (check_rehash s)
  unfolding check_rehash
  check_rehash-Kept owner s v =
      let a = start_rehash-Kept owner s v in
      let b = step_rehash-Kept owner (start_rehash s) a.valid in
      record {
        valid = b.valid;
        reads = λ q. b.reads q ∙ a.reads q;
        nodes = b.nodes ∙ a.nodes;
        iterator = b.iterator ∙ a.iterator;
      }
