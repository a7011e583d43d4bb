-- ===== src/Skiplist/Erase/Levels.antt =====
-- simple_skiplist/slist.c, `_slist_erase_node`: every level runs on without the node.
use simple_kit.Base.{
  ℕ, zero, suc, ◌+◌, ◌≤◌, ◌<◌, ◌≡◌, inl, inr, refl, sym, ap, ◌∙◌, true, false, ◌==◌, ltb, List, [],
  ◌∷◌, ◌++◌, arith, length-append, Bool-cases, ltb→lt, not_ltb→le,
}
use simple_kit.Hash.Keys.Order.{key_compare_refl}
use simple_kit.Skiplist.{Level, Skiplist, null, advance, set_level}
use simple_kit.Skiplist.Run.{has, AllDistinct, Run, low, high, spot, has-append}
use simple_kit.Skiplist.Search.{NoneBelow, AllAbove-NoneBelow, advance-spot}
use simple_kit.Skiplist.Stand.{Stand, at_head, Stand-spot, Stand-Run, Stand-step, Stand-length}
use simple_kit.Skiplist.Invariant.{IsValid, Stand-AllBelow, Stand-null}
use simple_kit.Skiplist.Levels.{AllLow-from, Run-AllLow, AllLow-Run}
use simple_kit.Skiplist.Order.{AllDistinct-without, IsSorted-around}
use simple_kit.Skiplist.Erase.{cut, erase_loop, lower}
use simple_kit.Skiplist.Erase.Cut.{cut-Run, cut-Run_low}

-- A run from a node that points nowhere has low nodes only.
Run-null :
    {level : Level} {height : ℕ → ℕ} {l a d : ℕ} (xs : List ℕ)
    → Run level height l a d xs
    → level.next a ≡ null
    → has null xs ≡ false
    → (y : ℕ) → has y xs ≡ true
    → height y ≤ l
Run-null [] run e out y p = cc
Run-null {height} {l} (x ∷ xs) (low h run) e out y p = elim (Bool-cases (y == x)) [
  | inl here ↦ let f : y ≡ x = ground arith in rw f h
  | inr past ↦ Run-null xs run e (ground arith) y (ground arith)
]
Run-null (x ∷ xs) (high h next span prev run) e out y p = absurd (ground arith)

-- The levels that are given up are empty.
pub lower-bounds :
    (levels : ℕ → Level) (head h : ℕ)
    → 1 ≤ h
    → (1 ≤ lower levels head h)
      × (lower levels head h ≤ h)
      × ((l : ℕ) → lower levels head h ≤ l → l < h → (levels l).next head ≡ null)
unfolding lower
lower-bounds levels head zero p = absurd (omega arith)
lower-bounds levels head (suc zero) p = (omega arith, omega arith, λ l q r. absurd (omega arith))
lower-bounds levels head (suc (suc h)) p =
    let (a, b, c) = lower-bounds levels head (suc h) (omega arith) in
    elim (Bool-cases ((levels (suc h)).next head == null)) [
      | inl empty ↦ rw empty (
        a,
        omega arith,
        λ l q r. elim (Bool-cases (l == suc h)) [
          | inl top ↦ let e : l ≡ suc h = ground arith in rw e (ground arith)
          | inr under ↦ c l q (ground arith)
        ],
      )
      | inr used ↦ rw used (omega arith, omega arith, λ l q r. absurd (omega arith))
    ]

module _ (s : Skiplist) (x : ℕ) (pre post : List ℕ) (valid : IsValid s (pre ++ (x ∷ post))) where
  abbrev pub at : ℕ → ℕ × ℕ
  at l = spot s.height l s.head 0 pre

  none_below : NoneBelow s.key (s.key x) (x ∷ post)
  none_below =
      let around = IsSorted-around s.key x pre post valid.sorted in
      let e = key_compare_refl (s.key x) in
      (λ f. cc, AllAbove-NoneBelow s.key (s.key x) post around.1)

  erase_loop-at :
      (h b : ℕ) (vs : List ℕ) (levels : ℕ → Level)
      → Stand s.height s.head h pre b vs
      → h ≤ s.max_height
      → ((k : ℕ) → k < h → levels k ≡ s.levels k)
      → (l : ℕ)
      → (l < h → erase_loop s x h b levels l ≡ cut (s.levels l) (at l).0 x)
        × (h ≤ l → erase_loop s x h b levels l ≡ levels l)
  unfolding erase_loop
  erase_loop-at zero b vs levels stand enough same l = (λ p. absurd (omega arith), λ p. refl)
  erase_loop-at (suc k) b vs levels stand enough same l =
      let around = IsSorted-around s.key x pre post valid.sorted in
      let small = valid.small in
      let count = valid.counted in
      let size = length-append pre (x ∷ post) in
      let long = Stand-length stand in
      let here = Stand-spot k stand (omega arith) in
      let step =
        advance-spot s.key (s.key x) (s.levels k) s.height k (s.num_nodes + 1) b 0 0 vs (x ∷ post)
          (Stand-Run k (x ∷ post) stand (omega arith) (valid.runs k (omega arith)))
          (Stand-AllBelow s.key (s.key x) stand around.0) none_below
          (Stand-null stand (ground (arith, valid.distinct, has-append null pre (x ∷ post))))
          (omega arith) (omega arith) in
      let (ws, next, gap) = Stand-step k stand refl in
      let reached : (advance (s.num_nodes + 1) s.key (levels k) (s.key x) b 0).0
          ≡ (spot s.height k b 0 vs).0 =
        ap (λ level. (advance (s.num_nodes + 1) s.key level (s.key x) b 0).0) (same k (omega arith))
        ∙ ap (λ q. q.0) step in
      let (deeper, past) =
        erase_loop-at k (spot s.height k b 0 vs).0 ws
          (set_level levels k (cut (levels k) (spot s.height k b 0 vs).0 x)) next (omega arith)
          (λ j p. let e : k == j ≡ false = ground arith in rw e (same j (omega arith))) l in
      rw reached (
        λ p. elim (Bool-cases (ltb l k)) [
          | inl under ↦ deeper (ltb→lt _ _ under)
          | inr top ↦
              let e : k ≡ l = ground arith in
              let hit : k == l ≡ true = ground arith in
              past (omega arith)
              ∙ rw hit (
                  ap (λ level. cut level (spot s.height k b 0 vs).0 x) (same k (omega arith))
                  ∙ ap (λ q. cut (s.levels k) q.0 x) (sym here)
                  ∙ ap (λ j. cut (s.levels j) (at j).0 x) e)
        ],
        λ p. let miss : k == l ≡ false = ground arith in past (omega arith) ∙ rw miss refl,
      )

  abbrev pub cut_levels : ℕ → Level
  cut_levels = erase_loop s x s.cur_height s.head s.levels

  pub cut_levels-at :
      (l : ℕ)
      → (l < s.cur_height → cut_levels l ≡ cut (s.levels l) (at l).0 x)
        × (s.cur_height ≤ l → cut_levels l ≡ s.levels l)
  cut_levels-at l =
      let bound = valid.bounds in
      erase_loop-at s.cur_height s.head pre s.levels (at_head refl refl) bound.1 (λ k p. refl) l

  pub apart : AllDistinct (null ∷ x ∷ s.head ∷ (pre ++ post))
  apart =
      let (rest, out) = AllDistinct-without x (null ∷ s.head ∷ pre) post valid.distinct in
      (ground arith, (ground arith, rest.1))

  pub cut_levels-Run :
      (l : ℕ) → l < s.max_height → Run (cut_levels l) s.height l s.head 0 (pre ++ post)
  cut_levels-Run l p =
      let small = valid.small in
      let size = length-append pre (x ∷ post) in
      let size' = length-append pre post in
      let run = valid.runs l p in
      elim (Bool-cases (ltb l s.cur_height)) [
        | inl inside ↦
            rw ((cut_levels-at l).0 (ltb→lt _ _ inside)) (elim (Bool-cases (ltb l (s.height x))) [
              | inl on ↦
                  cut-Run (s.levels l) s.height l x s.head 0 pre post run (ltb→lt _ _ on) apart
                    (omega arith)
              | inr off ↦
                  cut-Run_low (s.levels l) s.height l x s.head 0 pre post run (not_ltb→le _ _ off)
                    apart (omega arith)
            ])
        | inr outside ↦
            let q = not_ltb→le _ _ outside in
            let short : (y : ℕ) → has y (pre ++ (x ∷ post)) ≡ true → s.height y ≤ l =
              λ y m. let h = valid.heights y m in omega arith in
            rw ((cut_levels-at l).1 q) (
              AllLow-Run (s.levels l) s.height l s.head 0 (pre ++ post)
                (Run-AllLow (pre ++ (x ∷ post)) run (AllLow-from s.height l _ short))
                (AllLow-from s.height l (pre ++ post) (λ y m.
                  short y (ground (arith, has-append y pre post, has-append y pre (x ∷ post))))))
      ]

  -- The nodes that are left are no higher than the lowered list.
  pub lower-heights :
      (y : ℕ) → has y (pre ++ post) ≡ true → s.height y ≤ lower cut_levels s.head s.cur_height
  lower-heights y m =
      let bound = valid.bounds in
      let h =
        valid.heights y (ground (arith, has-append y pre post, has-append y pre (x ∷ post))) in
      let (some_level, less, empty) = lower-bounds cut_levels s.head s.cur_height bound.0 in
      let top = lower cut_levels s.head s.cur_height in
      elim (Bool-cases (ltb top s.cur_height)) [
        | inl lowered ↦
            let q = ltb→lt _ _ lowered in
            Run-null (pre ++ post) (cut_levels-Run top (omega arith)) (empty top (omega arith) q)
              (ground (arith, apart)) y m
        | inr kept ↦ omega (arith, not_ltb→le _ _ kept)
      ]
