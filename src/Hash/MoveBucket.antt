-- ===== src/Hash/MoveBucket.antt =====
-- One bucket moved by `_shash_check_rehash`, as the two bucket arrays see it.
use simple_kit.Base.{
  ℕ, ◌+◌, ◌^◌, ◌≤◌, ◌<◌, ◌≡◌, ◌≢◌, refl, ◌∙◌, false, Option, none, [], arith, ◌==◌, ==_iff,
  if◌then◌else◌, get_or, set, Bool-cases, inl, inr, or_else-none, ltb, ltb→lt, lt→ltb, get_or-set,
  length-set,
}
use simple_kit.Hash.Keys.{Key}
use simple_kit.Hash.Chains.Laws.{lookup}
use simple_kit.Hash.Table.{Buckets, bucket_index, move_chain}
use simple_kit.Hash.Arrays.{IsArray, look, total, total-set, set-IsArray, look-set, total-empty}
use simple_kit.Hash.Moves.{Moved, move_chain-Moved}

module _ {ℓ} {V : Type ℓ} where
  -- One bucket moved, as the arrays see it.
  module _ (owner : ℕ → Option Key) (bits wide at : ℕ) (old to : Buckets V)
      (a : IsArray owner bits old) (b : IsArray owner wide to) (inside : at < 2 ^ bits)
      (waiting : (q : Key) → at ≤ bucket_index bits q → look wide to q ≡ none) where
    abbrev pub moved : Buckets V
    moved = move_chain wide (get_or old at []) to

    elsewhere : (q : Key) → bucket_index bits q ≢ at → lookup q (get_or old at []) ≡ none
    elsewhere q away = a.placed q at away

    pub all_moved : Moved owner wide (get_or old at []) to moved
    all_moved =
        move_chain-Moved owner wide (get_or old at []) to (a.sorted at) (a.owned at) b λ q there.
          elim (Bool-cases (bucket_index bits q == at)) [
            | inl here ↦ waiting q (omega (arith, (==_iff _ _).0 here))
            | inr away ↦ absurd (there (elsewhere q (λ e. cc ((==_iff _ _).1 e))))
          ]

    reads_away : (q : Key) → bucket_index bits q ≢ at → look wide moved q ≡ look wide to q
    reads_away q away = all_moved.reads q ∙ rw (elsewhere q away)

    reads_here : (q : Key) → bucket_index bits q ≡ at → look wide moved q ≡ look bits old q
    reads_here q here =
        all_moved.reads q ∙ rw (waiting q (omega (arith, here)), here) (or_else-none _)

    pub cleared : IsArray owner bits (set old at [])
    cleared = set-IsArray owner bits old a at inside [] tt tt (λ q away. unfold lookup in refl)

    -- In the old array only the moved bucket reads otherwise.
    look-cleared :
        (q : Key)
        → look bits (set old at []) q
          ≡ (if bucket_index bits q == at then none else look bits old q)
    look-cleared q = look-set owner bits old a at inside [] q ∙ unfold lookup in refl

    pub count_moved : total (set old at []) + total moved ≡ total old + total to
    count_moved = omega (arith, all_moved.count, total-set old at [] (rw a.width inside))

    -- A reader that takes the new array below the boundary sees no difference.
    pub merged :
        (q : Key)
        → (if ltb (bucket_index bits q) (at + 1)
            then look wide moved q
            else look bits (set old at []) q)
          ≡ (if ltb (bucket_index bits q) at then look wide to q else look bits old q)
    merged q = elim (Bool-cases (ltb (bucket_index bits q) at)) [
      | inl below ↦
          let lt = ltb→lt _ _ below in
          rw (below, lt→ltb (bucket_index bits q) (at + 1) (omega arith))
            (reads_away q (omega arith))
      | inr rest ↦ rw rest (elim (Bool-cases (bucket_index bits q == at)) [
        | inl here ↦
            let e = (==_iff _ _).0 here in
            rw (lt→ltb (bucket_index bits q) (at + 1) (omega arith)) (reads_here q e)
        | inr away ↦
            let beyond : ltb (bucket_index bits q) (at + 1) ≡ false = ground arith in
            rw beyond (look-cleared q ∙ rw away)
      ])
    ]

    pub waiting_on : (q : Key) → at + 1 ≤ bucket_index bits q → look wide moved q ≡ none
    waiting_on q h = reads_away q (omega arith) ∙ waiting q (omega arith)

    module _ (emptied : (i : ℕ) → i < at → get_or old i [] ≡ []) where
      pub emptied_on : (i : ℕ) → i < at + 1 → get_or (set old at []) i [] ≡ []
      emptied_on i h =
          get_or-set old at i [] [] (rw a.width inside)
          ∙ (elim (Bool-cases (at == i)) [ inl e ↦ rw e | inr e ↦ rw e (emptied i (ground arith)) ])

      pub all_empty : at + 1 ≡ 2 ^ bits → total (set old at []) ≡ 0
      all_empty last =
          total-empty (set old at [])
            λ i h. emptied_on i (omega (arith, length-set old at [], a.width))
