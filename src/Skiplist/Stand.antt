-- ===== src/Skiplist/Stand.antt =====
-- simple_skiplist/slist.c: where a walk stands between two levels.
use mathlib.Core.List.{append_assoc}
use simple_kit.Base.{
  ℕ, suc, ◌+◌, ◌<◌, ◌≤◌, ◌≡◌, ◌⊎◌, inl, inr, refl, sym, ap, ◌∙◌, ltb, List, [], ◌∷◌, ◌++◌, length,
  arith, length-append, Bool-cases, ltb→lt, not_ltb→le,
}
use simple_kit.Skiplist.{Level}
use simple_kit.Skiplist.Run.{Run, spot, spot-nil, spot-low, spot-high, Run-behind}

-- `b` is the head or one of the nodes `pre`, with `vs` of them behind it, and reaches the levels
-- below `h`.
pub data Stand (height : ℕ → ℕ) (head h : ℕ) (pre : List ℕ) (b : ℕ) (vs : List ℕ) : Type 0 where
  at_head : b ≡ head → pre ≡ vs → Stand height head h pre b vs
  at_node : (us : List ℕ) → pre ≡ us ++ (b ∷ vs) → h ≤ height b → Stand height head h pre b vs

-- The spot is the start, or a node of this level.
pub spot_cases :
    (height : ℕ → ℕ) (l a d : ℕ) (xs : List ℕ)
    → let (b, gap) = spot height l a d xs in
      ((b ≡ a) × (gap ≡ d + length xs))
      ⊎ ((us : List ℕ) × (vs : List ℕ) × (xs ≡ us ++ (b ∷ vs)) × (gap ≡ length vs) × (l < height b))
spot_cases height l a d [] = rw (spot-nil height l a d) (inl (refl, omega arith))
spot_cases height l a d (x ∷ xs) = elim (Bool-cases (ltb l (height x))) [
  | inl higher ↦
      let h = ltb→lt _ _ higher in
      rw (spot-high height l a d x xs h) (elim (spot_cases height l x 0 xs) [
        | inl (same, gap) ↦ inr ([], xs, rw same refl, omega (arith, gap), rw same h)
        | inr (us, vs, parts, gap, tall) ↦ inr (x ∷ us, vs, ap (λ ys. x ∷ ys) parts, gap, tall)
      ])
  | inr lower ↦
      rw (spot-low height l a d x xs (not_ltb→le _ _ lower))
        (elim (spot_cases height l a (suc d) xs) [
          | inl (same, gap) ↦ inl (same, omega (arith, gap))
          | inr (us, vs, parts, gap, tall) ↦ inr (x ∷ us, vs, ap (λ ys. x ∷ ys) parts, gap, tall)
        ])
]

spot-behind :
    (height : ℕ → ℕ) (l a d b : ℕ) (us vs : List ℕ)
    → l < height b
    → spot height l a d (us ++ (b ∷ vs)) ≡ spot height l b 0 vs
spot-behind height l a d b [] vs tall = spot-high height l a d b vs tall
spot-behind height l a d b (u ∷ us) vs tall = elim (Bool-cases (ltb l (height u))) [
  | inl higher ↦
      spot-high height l a d u (us ++ (b ∷ vs)) (ltb→lt _ _ higher)
      ∙ spot-behind height l u 0 b us vs tall
  | inr lower ↦
      spot-low height l a d u (us ++ (b ∷ vs)) (not_ltb→le _ _ lower)
      ∙ spot-behind height l a (suc d) b us vs tall
]

module _ {height : ℕ → ℕ} {head h : ℕ} {pre : List ℕ} {b : ℕ} {vs : List ℕ} where
  -- From where a walk stands, a lower level looks as from the head.
  pub Stand-spot :
      (l : ℕ)
      → Stand height head h pre b vs
      → l < h
      → spot height l head 0 pre ≡ spot height l b 0 vs
  Stand-spot l (at_head e f) p = rw (e, f) refl
  Stand-spot l (at_node us f tall) p = rw f (spot-behind height l head 0 b us vs (omega arith))

  pub Stand-Run :
      {level : Level} (l : ℕ) (post : List ℕ)
      → Stand height head h pre b vs
      → l < h
      → Run level height l head 0 (pre ++ post)
      → Run level height l b 0 (vs ++ post)
  Stand-Run l post (at_head e f) p run = rw e (rw f at run)
  Stand-Run l post (at_node us f tall) p run =
      Run-behind us (rw (append_assoc us (b ∷ vs) post) at (rw f at run)) (omega arith)

  pub Stand-step :
      (l : ℕ)
      → Stand height head h pre b vs
      → h ≡ suc l
      → (ws : List ℕ) × Stand height head l pre (spot height l b 0 vs).0 ws
        × ((spot height l b 0 vs).1 ≡ length ws)
  Stand-step l stand e = elim (spot_cases height l b 0 vs) [
    | inl (same, gap) ↦ (
      vs,
      elim stand [
        | at_head f g ↦ at_head (same ∙ f) g
        | at_node us f tall ↦ at_node us (rw same f) (rw same (omega arith))
      ],
      omega (arith, gap),
    )
    | inr (us, ws, parts, gap, tall) ↦ (
      ws,
      elim stand [
        | at_head f g ↦ at_node us (g ∙ parts) (omega arith)
        | at_node ts f tall' ↦
            at_node (ts ++ (b ∷ us))
              (f ∙ ap (λ ys. ts ++ (b ∷ ys)) parts ∙ sym (append_assoc ts (b ∷ us) _)) (omega arith)
      ],
      gap,
    )
  ]

  pub Stand-length : Stand height head h pre b vs → length vs ≤ length pre
  Stand-length (at_head e f) = omega (arith, ap length f)
  Stand-length (at_node us f tall) = omega (arith, ap length f, length-append us (b ∷ vs))
