-- ===== src/Skiplist/Find.antt =====
-- simple_skiplist/slist.c, `_slist_find_node`, `slist_find` and `slist_rank`: what the walks find.
use simple_kit.Base.{
  ℕ, zero, suc, ◌+◌, ◌-◌, ◌≤◌, ◌≡◌, ◌⊎◌, inl, inr, refl, ap, ◌∙◌, true, false, ltb, List, ◌∷◌, ◌++◌,
  length, arith, length-append, Bool-cases, ltb→lt, not_ltb→le, Ordering,
}
use simple_kit.Hash.Keys.{Key, key_compare}
use simple_kit.Hash.Keys.Order.{key_compare_refl}
use simple_kit.Skiplist.{Level, Skiplist, null, found, passed, seek, seek_level}
use simple_kit.Skiplist.Run.{has, Run, low, high, Run-next, Run-spot, spot, has-append}
use simple_kit.Skiplist.Around.{spot-gap}
use simple_kit.Skiplist.Search.{
  AllBelow, AllAbove, has-AllAbove, seek_level-passed, seek_level-found,
}
use simple_kit.Skiplist.Stand.{Stand, Stand-Run, Stand-step}
use simple_kit.Skiplist.Invariant.{IsValid, Stand-AllBelow, Stand-null}

-- Behind a spot, all is larger than the key.
pub behind-larger :
    (keys : ℕ → Key) (key : Key) {level : Level} {height : ℕ → ℕ} {l a d : ℕ} {post : List ℕ}
    → Run level height l a d post
    → AllAbove keys key post
    → (level.next a ≡ null) ⊎ (key_compare key (keys (level.next a)) ≡ Ordering.lt)
behind-larger keys key run above = elim (Run-next run) [
  | inl e ↦ inl e
  | inr p ↦ inr (has-AllAbove keys key _ _ p above)
]

seek-passed :
    (s : Skiplist) (key : Key) (l b r c q : ℕ)
    → seek_level (s.num_nodes + 1) s.key (s.levels l) key b r ≡ passed c q
    → seek s key (suc l) b r ≡ seek s key l c q
unfolding seek
seek-passed s key l b r c q e = rw (e, seek) refl

seek-found :
    (s : Skiplist) (key : Key) (l b r c q : ℕ)
    → seek_level (s.num_nodes + 1) s.key (s.levels l) key b r ≡ found c q
    → seek s key (suc l) b r ≡ found c q
unfolding seek
seek-found s key l b r c q e = rw (e, seek) refl

module _ (s : Skiplist) (key : Key) (pre post : List ℕ) (below : AllBelow s.key key pre) where
  -- No node has the key: every level is passed.
  pub seek-absent :
      (h b r : ℕ) (vs : List ℕ)
      → IsValid s (pre ++ post)
      → AllAbove s.key key post
      → Stand s.height s.head h pre b vs
      → h ≤ s.max_height
      → r + length vs ≡ length pre
      → (c : ℕ) × (q : ℕ) × (seek s key h b r ≡ passed c q)
  unfolding seek
  seek-absent zero b r vs valid above stand enough total = (b, r, refl)
  seek-absent (suc l) b r vs valid above stand enough total =
      let size = length-append pre post in
      let small = valid.small in
      let count = valid.counted in
      let run = Stand-Run l post stand (omega arith) (valid.runs l (omega arith)) in
      let step =
        seek_level-passed s.key key (s.levels l) s.height l (s.num_nodes + 1) b 0 r vs post run
          (Stand-AllBelow s.key key stand below) (behind-larger s.key key (Run-spot vs run) above)
          (Stand-null stand (ground (arith, has-append null pre post, valid.distinct)))
          (omega arith) (omega arith) in
      let (ws, next, gap) = Stand-step l stand refl in
      let (c, q, e) =
        seek-absent l _ (r + 0 + length vs - (spot s.height l b 0 vs).1) ws valid above next
          (omega arith) (omega (arith, spot-gap s.height l b 0 vs)) in
      (c, q, seek-passed s key l b r _ _ step ∙ e)

  behind_low :
      {level : Level} {height : ℕ → ℕ} {l a d x : ℕ} {ys : List ℕ}
      → Run level height l a d (x ∷ ys)
      → height x ≤ l
      → Run level height l a (suc d) ys
  behind_low (low h run) short = run
  behind_low (high h next span prev run) short = absurd (omega arith)

  -- A node has the key: its highest level finds it, and its rank.
  pub seek-present :
      (x h b r : ℕ) (vs : List ℕ)
      → IsValid s (pre ++ (x ∷ post))
      → s.key x ≡ key
      → AllAbove s.key key post
      → Stand s.height s.head h pre b vs
      → h ≤ s.max_height
      → r + length vs ≡ length pre
      → 1 ≤ h
      → seek s key h b r ≡ found x (length pre + 1)
  seek-present x zero b r vs valid here above stand enough total some_level = absurd (omega arith)
  seek-present x (suc l) b r vs valid here above stand enough total some_level =
      let size = length-append pre (x ∷ post) in
      let small = valid.small in
      let count = valid.counted in
      let run = Stand-Run l (x ∷ post) stand (omega arith) (valid.runs l (omega arith)) in
      let inside : has x (pre ++ (x ∷ post)) ≡ true = ground (arith, has-append x pre (x ∷ post)) in
      let bound = valid.heights x inside in
      let no_vs =
        Stand-null stand (ground (arith, has-append null pre (x ∷ post), valid.distinct)) in
      let all_real : has null (vs ++ (x ∷ post)) ≡ false =
        ground
          (arith, has-append null vs (x ∷ post), has-append null pre (x ∷ post), valid.distinct) in
      elim (Bool-cases (ltb l (s.height x))) [
        | inl on ↦ seek-found s key l b r x (length pre + 1) (
            seek_level-found s.key key (s.levels l) s.height l (s.num_nodes + 1) b 0 r x vs post run
              (Stand-AllBelow s.key key stand below) (rw here (key_compare_refl key))
              (ltb→lt _ _ on) all_real (omega arith) (omega arith)
            ∙ ap (λ n. found x n) (omega arith))
        | inr off ↦
            let short = not_ltb→le _ _ off in
            let step =
              seek_level-passed s.key key (s.levels l) s.height l (s.num_nodes + 1) b 0 r vs
                (x ∷ post) run (Stand-AllBelow s.key key stand below)
                (behind-larger s.key key (behind_low (Run-spot vs run) short) above) no_vs
                (omega arith) (omega arith) in
            let (ws, next, gap) = Stand-step l stand refl in
            seek-passed s key l b r _ _ step
            ∙ seek-present x l _ (r + 0 + length vs - (spot s.height l b 0 vs).1) ws valid here
                above next (omega arith) (omega (arith, spot-gap s.height l b 0 vs)) (omega arith)
      ]
