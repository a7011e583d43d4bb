-- ===== src/Skiplist/Insert/Trail.antt =====
-- simple_skiplist/slist.c, `slist_insert`: `level_node` and `level_rank` hold the spots of the key.
use simple_kit.Base.{
  ℕ, suc, ◌-◌, ◌≤◌, ◌<◌, ◌≡◌, ◌⊎◌, inl, inr, refl, sym, ap, true, false, ltb, leb, List, ◌++◌,
  length, arith, length-append, Bool-cases, ltb→lt, not_ltb→le,
}
use simple_kit.Base.Words.{add64, sub64}
use simple_kit.Hash.Keys.{Key}
use simple_kit.Skiplist.{Skiplist, Trail, null, descend, raise}
use simple_kit.Skiplist.Run.{has, spot, has-append}
use simple_kit.Skiplist.Around.{spot-gap}
use simple_kit.Skiplist.Search.{AllBelow, NoneBelow}
use simple_kit.Skiplist.Stand.{at_head}
use simple_kit.Skiplist.Invariant.{IsValid, descend-spot}
use simple_kit.Skiplist.Levels.{AllLow-from, spot-AllLow, spot-ground}

module _ (s : Skiplist) (key : Key) (pre post : List ℕ) (valid : IsValid s (pre ++ post))
    (below : AllBelow s.key key pre) (none : NoneBelow s.key key post) where
  abbrev pub at : ℕ → ℕ × ℕ
  at l = spot s.height l s.head 0 pre

  abbrev pub trail : Trail
  trail = descend s key s.cur_height s.head 0 (record { node = λ l. null; rank = λ l. 0 })

  pub trail-at :
      (l : ℕ)
      → l < s.cur_height
      → (trail.node l ≡ (at l).0) × (trail.rank l ≡ length pre - (at l).1)
  trail-at l p =
      let bound = valid.bounds in
      (descend-spot s key pre post valid below none s.cur_height s.head 0 pre
          (record { node = λ l. null; rank = λ l. 0 }) (at_head refl refl) bound.1 (omega arith)
          l).0
        p

  heights_front : (x : ℕ) → has x pre ≡ true → (1 ≤ s.height x) × (s.height x ≤ s.cur_height)
  heights_front x p = valid.heights x (ground (arith, has-append x pre post))

  -- The nodes of the levels above the current ones start from the head.
  pub raise-at :
      (height l : ℕ)
      → (l < s.cur_height) ⊎ (l < height)
      → let raised = raise s height trail in
        (raised.node l ≡ (at l).0) × (raised.rank l ≡ length pre - (at l).1)
  raise-at height l which = elim (Bool-cases (ltb l s.cur_height)) [
    | inl inside ↦
        let p = ltb→lt _ _ inside in
        let off : leb s.cur_height l ≡ false = ground arith in rw off (trail-at l p)
    | inr outside ↦
        let p = not_ltb→le _ _ outside in
        let on : leb s.cur_height l ≡ true = ground arith in
        let in_height : ltb l height ≡ true = ground (arith, which) in
        let lows =
          spot-AllLow s.height l s.head 0 pre
            (AllLow-from s.height l pre (λ x q. let h = heights_front x q in omega arith)) in
        rw (on, in_height) (ap (λ q. q.0) (sym lows), let e = ap (λ q. q.1) lows in omega arith)
  ]

  -- A span of the new node's predecessor.
  pub gap-at :
      (height l : ℕ)
      → (l < s.cur_height) ⊎ (l < height)
      → let raised = raise s height trail in
        add64 (sub64 (raised.rank 0) (raised.rank l)) 1 ≡ suc (at l).1
  gap-at height l which =
      let bound = valid.bounds in
      let small = valid.small in
      let first = (raise-at height 0 (inl (omega arith))).1 in
      let flat = spot-ground s.height s.head pre (λ x p. (heights_front x p).0) in
      let here = (raise-at height l which).1 in
      let gap = spot-gap s.height l s.head 0 pre in
      let size = length-append pre post in rw (first, here, flat) (omega arith)
