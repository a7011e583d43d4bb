-- ===== src/Hash/Write.antt =====
-- The one write that `shash_insert` and `shash_erase` make: another chain at the place of a key.
use mathlib.Core.Option.{some-injective}
use mathlib.Core.Path.{subst}
use simple_kit.Base.{
  ℕ, ◌+◌, ◌≤◌, ◌<◌, ◌≡◌, ◌≢◌, ap, sym, ◌∙◌, false, Option, none, some, [], arith, ◌==◌, ==_iff,
  if◌then◌else◌, length, get_or, set, get_or-set, ne→==, Bool-cases, inl, inr, Option-cases, ltb,
  ltb→lt, not_ltb→le, le→not_ltb, lt→ltb,
}
use simple_kit.Hash.Keys.{Key}
use simple_kit.Hash.Keys.Order.{same, same_iff}
use simple_kit.Hash.Chains.{Node, Chain}
use simple_kit.Hash.Chains.Laws.{lookup, IsSorted, Owned}
use simple_kit.Hash.Table.{
  Table, Buckets, Place, old, new_array, bucket_index, second, locate, chain_at, set_chain,
}
use simple_kit.Hash.Arrays.{
  IsArray, look, bucket_index-lt, total, total-set, length-le-total, set-IsArray, look-set,
}
use simple_kit.Hash.Invariant.{
  Migrating, IsValid, view, view-settled, view-migrating, total-migrating,
}

module _ {ℓ} {V : Type ℓ} where
  -- Where the code finds the chain of a key.
  pub data Where (s : Table V) (k : Key) : Type ℓ where
    settled : s.buckets_1 ≡ none → locate s k ≡ old (bucket_index s.num_buckets_0 k) → Where s k
    moved :
        (to : Buckets V)
        → s.buckets_1 ≡ some to
        → bucket_index s.num_buckets_0 k < s.rehash_bucket
        → locate s k ≡ new_array (bucket_index s.num_buckets_1 k)
        → Where s k
    waits :
        (to : Buckets V)
        → s.buckets_1 ≡ some to
        → s.rehash_bucket ≤ bucket_index s.num_buckets_0 k
        → locate s k ≡ old (bucket_index s.num_buckets_0 k)
        → Where s k

  pub where_is : (s : Table V) (k : Key) → Where s k
  where_is s k = elim (Option-cases s.buckets_1) [
    | inl e ↦ settled e (unfold locate in rw (e, locate))
    | inr (to, e) ↦ elim (Bool-cases (ltb (bucket_index s.num_buckets_0 k) s.rehash_bucket)) [
      | inl below ↦ moved to e (ltb→lt _ _ below) (unfold locate in rw (e, locate, below))
      | inr above ↦ waits to e (ground arith) (unfold locate in rw (e, locate, above))
    ]
  ]

  -- The write in one array, of a chain that differs under `k` alone.
  module _ (owner : ℕ → Option Key) (bits : ℕ) (bs : Buckets V) (a : IsArray owner bits bs)
      (k : Key) (c : Chain V) (r : Option (Node V)) (sorted : IsSorted c) (owned : Owned owner c)
      (effect : (q : Key)
        → lookup q c
          ≡ (if same q k then r else lookup q (get_or bs (bucket_index bits k) []))) where
    abbrev i : ℕ
    i = bucket_index bits k

    apart : (q : Key) → bucket_index bits q ≢ i → same q k ≡ false
    apart q away = elim (Bool-cases (same q k)) [
      | inl e ↦ absurd (away (ap (bucket_index bits) ((same_iff q k).0 e)))
      | inr e ↦ e
    ]

    write-IsArray : IsArray owner bits (set bs i c)
    write-IsArray =
        set-IsArray owner bits bs a i (bucket_index-lt bits k) c sorted owned
          λ q away. effect q ∙ rw (apart q away) (a.placed q i away)

    array-look : (q : Key) → look bits (set bs i c) q ≡ (if same q k then r else look bits bs q)
    array-look q =
        look-set owner bits bs a i (bucket_index-lt bits k) c q
        ∙ (elim (Bool-cases (bucket_index bits q == i)) [
          | inl here ↦ rw here (effect q ∙ rw ((==_iff _ _).0 here))
          | inr away ↦ rw (away, apart q (λ e. cc ((==_iff _ _).1 e)))
        ])

    array-total : total (set bs i c) + length (get_or bs i []) ≡ total bs + length c
    array-total = total-set bs i c (rw a.width (bucket_index-lt bits k))

  second-moved : (s : Table V) {to : Buckets V} → s.buckets_1 ≡ some to → second s ≡ to
  second-moved s e = rw (e, second)

  set_chain-moved :
      (s : Table V) (at : ℕ) (c : Chain V) {to : Buckets V}
      → s.buckets_1 ≡ some to
      → set_chain s (new_array at) c ≡ record s { buckets_1 = some (set to at c) }
  unfolding set_chain
  set_chain-moved s at c {to} e = go s.buckets_1 e
    where
      go :
          (o : Option (Buckets V))
          → o ≡ some to
          → (elim o [ none ↦ s | some b ↦ record s { buckets_1 = some (set b at c) } ])
            ≡ record s { buckets_1 = some (set to at c) }
      go none h = cc
      go (some b) h = rw (some-injective _ _ h)

  -- What the write of `c` at a place does to the table.
  pub record Written (owner : ℕ → Option Key) (s : Table V) (k : Key) (c : Chain V)
      (r : Option (Node V)) (p : Place) : Type ℓ where
    pub valid :
        (n : ℕ)
        → n + length (chain_at s p) ≡ s.num_node + length c
        → IsValid owner (record (set_chain s p c) { num_node = n })
    pub reads : (q : Key) → view (set_chain s p c) q ≡ (if same q k then r else view s q)

  module _ (owner : ℕ → Option Key) (s : Table V) (v : IsValid owner s) (k : Key) (c : Chain V)
      (r : Option (Node V)) (sorted : IsSorted c) (owned : Owned owner c) where
    abbrev Effect : Chain V → Type ℓ
    Effect d = (q : Key) → lookup q c ≡ (if same q k then r else lookup q d)

    -- Keys with different homes are different.
    boundary : (bits : ℕ) (q : Key) → bucket_index bits q ≢ bucket_index bits k → same q k ≡ false
    boundary bits q ne = elim (Bool-cases (same q k)) [
      | inl e ↦ absurd (ne (ap (bucket_index bits) ((same_iff q k).0 e)))
      | inr e ↦ e
    ]

    at_settled :
        s.buckets_1 ≡ none
        → Effect (get_or s.buckets_0 (bucket_index s.num_buckets_0 k) [])
        → Written owner s k c r (old (bucket_index s.num_buckets_0 k))
    unfolding set_chain chain_at
    at_settled e effect =
        let bits = s.num_buckets_0 in
        let bs = s.buckets_0 in
        record {
          valid = λ n count. record {
            small = v.small;
            array = write-IsArray owner bits bs v.array k c r sorted owned effect;
            counted = omega (
              arith,
              v.counted,
              count,
              array-total owner bits bs v.array k c r sorted owned effect,
            );
            rehash = λ to is. cc (sym e ∙ is);
          };
          reads = λ q.
              view-settled (set_chain s (old (bucket_index bits k)) c) q e
              ∙ array-look owner bits bs v.array k c r sorted owned effect q
              ∙ ap (λ x. if same q k then r else x) (sym (view-settled s q e));
        }

    at_waits :
        (to : Buckets V)
        → s.buckets_1 ≡ some to
        → s.rehash_bucket ≤ bucket_index s.num_buckets_0 k
        → Effect (get_or s.buckets_0 (bucket_index s.num_buckets_0 k) [])
        → Written owner s k c r (old (bucket_index s.num_buckets_0 k))
    unfolding set_chain chain_at
    at_waits to e above effect =
        let bits = s.num_buckets_0 in
        let bs = s.buckets_0 in
        let m = v.rehash to e in
        record {
          valid = λ n count. record {
            small = v.small;
            array = write-IsArray owner bits bs v.array k c r sorted owned effect;
            counted = omega (
              arith,
              v.counted,
              count,
              array-total owner bits bs v.array k c r sorted owned effect,
            );
            rehash = λ t is.
                let m = v.rehash t is in
                record {
                  small = m.small;
                  grows = m.grows;
                  array = m.array;
                  progress = m.progress;
                  emptied = λ i p.
                      get_or-set bs (bucket_index bits k) i c []
                        (rw v.array.width (bucket_index-lt bits k))
                      ∙ rw (ne→== (bucket_index bits k) i (λ h. omega (arith, above, p, h)))
                          (m.emptied i p);
                  waiting = m.waiting;
                };
          };
          reads = λ q.
              view-migrating (set_chain s (old (bucket_index bits k)) c) q e
              ∙ (elim (Bool-cases (ltb (bucket_index bits q) s.rehash_bucket)) [
                | inl low ↦ rw (low, boundary bits q (λ h. omega (arith, ltb→lt _ _ low)))
                | inr high ↦ rw high (array-look owner bits bs v.array k c r sorted owned effect q)
              ])
              ∙ ap (λ x. if same q k then r else x) (sym (view-migrating s q e));
        }

    at_moved :
        (to : Buckets V)
        → s.buckets_1 ≡ some to
        → bucket_index s.num_buckets_0 k < s.rehash_bucket
        → Effect (get_or (second s) (bucket_index s.num_buckets_1 k) [])
        → Written owner s k c r (new_array (bucket_index s.num_buckets_1 k))
    unfolding chain_at
    at_moved to e below effect =
        let bits = s.num_buckets_1 in
        let m = v.rehash to e in
        let i = bucket_index bits k in
        let eff = subst (λ b. Effect (get_or b i [])) (second-moved s e) effect in
        let is = set_chain-moved s i c e in
        record {
          valid = λ n count.
              subst (λ t. IsValid owner (record t { num_node = n })) (sym is)
                (record {
                  small = v.small;
                  array = v.array;
                  counted = omega (
                    arith,
                    v.counted,
                    count,
                    total-migrating s e,
                    array-total owner bits to m.array k c r sorted owned eff,
                    ap (λ b. length (get_or b i [])) (second-moved s e),
                  );
                  rehash = λ t eq. subst (Migrating owner _) (some-injective _ _ eq) (record {
                    small = m.small;
                    grows = m.grows;
                    array = write-IsArray owner bits to m.array k c r sorted owned eff;
                    progress = m.progress;
                    emptied = m.emptied;
                    waiting = λ q h.
                        array-look owner bits to m.array k c r sorted owned eff q
                        ∙ rw (boundary s.num_buckets_0 q (λ h'. omega (arith, h, below, h')))
                            (m.waiting q h);
                  });
                });
          reads = λ q.
              subst (λ t. view t q ≡ (if same q k then r else view s q)) (sym is)
                ((elim (Bool-cases (ltb (bucket_index s.num_buckets_0 q) s.rehash_bucket)) [
                  | inl low ↦ rw low (array-look owner bits to m.array k c r sorted owned eff q)
                  | inr high ↦ rw (
                    high,
                    boundary s.num_buckets_0 q (λ h. omega (arith, below, h, not_ltb→le _ _ high)),
                  )
                ])
                  ∙ ap (λ x. if same q k then r else x) (sym (view-migrating s q e)));
        }

  -- Where the code looks for a key it finds the chain that holds what the table holds under it.
  pub chain_at-view :
      (owner : ℕ → Option Key) (s : Table V) (k : Key)
      → IsValid owner s
      → IsSorted (chain_at s (locate s k))
        × Owned owner (chain_at s (locate s k))
        × (lookup k (chain_at s (locate s k)) ≡ view s k)
  unfolding chain_at
  chain_at-view owner s k v = elim (where_is s k) [
    | settled e is ↦ rw is (v.array.sorted _, v.array.owned _, sym (view-settled s k e))
    | waits to e above is ↦
        rw is (
          v.array.sorted _,
          v.array.owned _,
          sym (view-migrating s k e ∙ rw (le→not_ltb _ _ above)),
        )
    | moved to e below is ↦
        let m = v.rehash to e in
        rw (is, chain_at, second-moved s e)
          (m.array.sorted _, m.array.owned _, sym (view-migrating s k e ∙ rw (lt→ltb _ _ below)))
  ]

  -- The write of `shash_insert` and `shash_erase`, wherever the key's chain stands.
  pub write-Written :
      (owner : ℕ → Option Key) (s : Table V) (k : Key) (c : Chain V) (r : Option (Node V))
      → IsValid owner s
      → IsSorted c
      → Owned owner c
      → ((q : Key) → lookup q c ≡ (if same q k then r else lookup q (chain_at s (locate s k))))
      → Written owner s k c r (locate s k)
  unfolding chain_at
  write-Written owner s k c r v sorted owned effect = elim (where_is s k) [
    | settled e is ↦ rw is (at_settled owner s v k c r sorted owned e (rw is at effect))
    | waits to e above is ↦
        rw is (at_waits owner s v k c r sorted owned to e above (rw is at effect))
    | moved to e below is ↦
        rw is (at_moved owner s v k c r sorted owned to e below (rw is at effect))
  ]

  pub chain_at-le :
      (owner : ℕ → Option Key) (s : Table V) (k : Key)
      → IsValid owner s
      → length (chain_at s (locate s k)) ≤ s.num_node
  unfolding chain_at
  chain_at-le owner s k v = go (locate s k)
    where
      go : (p : Place) → length (chain_at s p) ≤ s.num_node
      go (old j) = omega (arith, v.counted, length-le-total s.buckets_0 j)
      go (new_array j) = omega (arith, v.counted, length-le-total (second s) j)
