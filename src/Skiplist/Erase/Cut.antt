-- ===== src/Skiplist/Erase/Cut.antt =====
-- simple_skiplist/slist.c, `_slist_erase_node`: one level without a node.
use simple_kit.Base.{
  ℕ, suc, ◌+◌, ◌^◌, ◌<◌, ◌≤◌, ◌≡◌, ◌≢◌, inl, inr, refl, sym, ap, ◌∙◌, true, List, [], ◌∷◌, ◌++◌,
  length, arith, length-append,
}
use simple_kit.Base.Words.{add64, sub64}
use simple_kit.Skiplist.{Level, null}
use simple_kit.Skiplist.Run.{
  has, AllDistinct, Run, stop, low, high, spot, Agree, frame, Run-next, Run-spot, has-apart,
  has-inside, Run-through,
}
use simple_kit.Skiplist.Around.{spot-Around, spot-gap}
use simple_kit.Skiplist.Erase.{cut}

-- Where the node is on the level, behind `a`.
pub cut-there :
    (level : Level) (a x : ℕ)
    → level.next a ≡ x
    → level.prev x ≡ a
    → let c = cut level a x in
      (c.next a ≡ level.next x)
      × (c.span a ≡ add64 (level.span a) (sub64 (level.span x) 1))
      × (level.next x ≢ null → c.prev (level.next x) ≡ a)
      × ((y : ℕ) → y ≢ a → Agree level c y)
      × ((y : ℕ) → y ≢ level.next x → c.prev y ≡ level.prev y)
unfolding cut
cut-there level a x next prev = (
  ground arith,
  ground arith,
  λ p. ground arith,
  λ y p. record { next = ground arith; span = ground arith },
  λ y p. ground arith,
)

-- Where it is not.
cut-elsewhere :
    (level : Level) (a x : ℕ)
    → level.next a ≢ x
    → let c = cut level a x in
      ((y : ℕ) → c.next y ≡ level.next y)
      × (c.span a ≡ sub64 (level.span a) 1)
      × ((y : ℕ) → y ≢ a → Agree level c y)
      × ((y : ℕ) → c.prev y ≡ level.prev y)
unfolding cut
cut-elsewhere level a x p = (
  λ y. ground arith,
  ground arith,
  λ y q. record { next = ground arith; span = ground arith },
  λ y. ground arith,
)

module _ (level : Level) (height : ℕ → ℕ) (l x : ℕ) where
  -- Behind `a` as behind the node that is cut out.
  reconnect :
      (a d : ℕ) {e : ℕ} (post : List ℕ)
      → Run level height l x e post
      → level.next a ≡ x
      → level.prev x ≡ a
      → level.span a ≡ suc d
      → AllDistinct (null ∷ x ∷ a ∷ post)
      → d + e + length post + 1 < 2 ^ 64
      → Run (cut level a x) height l a (d + e) post
  reconnect a d [] (stop n) next prev span apart small =
      stop ((cut-there level a x next prev).0 ∙ n)
  reconnect a d {e} (y ∷ post) (low h run) next prev span apart small =
      let more : d + suc e ≡ suc (d + e) = omega arith in
      low h (rw more at (reconnect a d post run next prev span (ground arith) (omega arith)))
  reconnect a d {e} (y ∷ post) (high h next' span' prev' run) next prev span apart small =
      let there = cut-there level a x next prev in
      high h (there.0 ∙ next') (omega (arith, there.1, span, span'))
        (ap (cut level a x).prev (sym next') ∙ there.2 (ground arith))
        (frame run (there.3 y (ground arith))
          (λ z p. there.3 z (has-apart z a post p (ground arith)))
          (λ z p. there.4 z (rw next' (has-apart z y post p (ground arith)))) (λ z p. refl))

  pub at_spot :
      (b gap : ℕ) (post : List ℕ)
      → Run level height l b gap (x ∷ post)
      → l < height x
      → (level.next b ≡ x)
        × (level.prev x ≡ b)
        × (level.span b ≡ suc gap)
        × Run level height l x 0 post
  at_spot b gap post (low h run) tall = absurd (omega arith)
  at_spot b gap post (high h next span prev run) tall = (next, prev, span, run)

  -- A level on which the node is.
  pub cut-Run :
      (a d : ℕ) (pre post : List ℕ)
      → Run level height l a d (pre ++ (x ∷ post))
      → l < height x
      → AllDistinct (null ∷ x ∷ a ∷ (pre ++ post))
      → d + length (pre ++ post) + 1 < 2 ^ 64
      → Run (cut level (spot height l a d pre).0 x) height l a d (pre ++ post)
  cut-Run a d pre post run tall apart small =
      let b = (spot height l a d pre).0 in
      let gap = (spot height l a d pre).1 in
      let around = spot-Around height l x a d pre post apart in
      let (next, prev, span, later) = at_spot b gap post (Run-spot pre run) tall in
      let there = cut-there level b x next prev in
      let behind_x = λ (y : ℕ) (p : has y pre ≡ true) (e : y ≡ level.next x).
        elim (Run-next later) as (λ _. ⊥) [
          | inl n ↦ around.real y (has-inside y a pre p) (e ∙ n)
          | inr q ↦ has-apart (level.next x) y post q (around.out y (has-inside y a pre p)) (sym e)
        ] in
      let none_behind : gap + 0 ≡ gap = omega arith in
      Run-through pre (x ∷ post) post run around.front (λ y p q. there.3 y q)
        (λ y p. there.4 y (behind_x y p)) (λ y p. refl)
        (λ behind. rw none_behind at (
          reconnect b gap post later next prev span around.behind
            (omega (arith, spot-gap height l a d pre, length-append pre post))))

  -- One step less to the nodes behind.
  narrow :
      (a d : ℕ) (post : List ℕ)
      → Run level height l a (suc d) post
      → level.next a ≢ x
      → AllDistinct (a ∷ post)
      → d + length post + 1 < 2 ^ 64
      → Run (cut level a x) height l a d post
  narrow a d [] (stop n) not_x apart small = stop ((cut-elsewhere level a x not_x).0 a ∙ n)
  narrow a d (y ∷ post) (low h run) not_x apart small =
      low h (narrow a (suc d) post run not_x (ground arith) (omega arith))
  narrow a d (y ∷ post) (high h next span prev run) not_x apart small =
      let same = cut-elsewhere level a x not_x in
      high h (same.0 a ∙ next) (omega (arith, same.1, span)) (same.3 y ∙ prev) (
        frame run (same.2 y (ground arith)) (λ z p. same.2 z (has-apart z a post p (ground arith)))
          (λ z p. same.3 z) (λ z p. refl))

  below_spot :
      (b gap : ℕ) (post : List ℕ)
      → Run level height l b gap (x ∷ post)
      → height x ≤ l
      → Run level height l b (suc gap) post
  below_spot b gap post (low h run) short = run
  below_spot b gap post (high h next span prev run) short = absurd (omega arith)

  -- A level that the node is too low for.
  pub cut-Run_low :
      (a d : ℕ) (pre post : List ℕ)
      → Run level height l a d (pre ++ (x ∷ post))
      → height x ≤ l
      → AllDistinct (null ∷ x ∷ a ∷ (pre ++ post))
      → d + length (pre ++ post) + 1 < 2 ^ 64
      → Run (cut level (spot height l a d pre).0 x) height l a d (pre ++ post)
  cut-Run_low a d pre post run short apart small =
      let b = (spot height l a d pre).0 in
      let gap = (spot height l a d pre).1 in
      let around = spot-Around height l x a d pre post apart in
      let later = below_spot b gap post (Run-spot pre run) short in
      let not_x : level.next b ≢ x = λ e. elim (Run-next later) as (λ _. ⊥) [
        | inl n ↦ ground (arith, around.behind, sym e ∙ n)
        | inr q ↦ has-apart (level.next b) x post q (ground (arith, around.behind)) e
      ] in
      let same = cut-elsewhere level b x not_x in
      Run-through pre (x ∷ post) post run around.front (λ y p q. same.2 y q) (λ y p. same.3 y)
        (λ y p. refl)
        (λ behind.
          narrow b gap post later not_x around.behind.1.1
            (omega (arith, spot-gap height l a d pre, length-append pre post)))
