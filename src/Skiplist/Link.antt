-- ===== src/Skiplist/Link.antt =====
-- simple_skiplist/slist.c, `slist_insert`: one level with the new node.
use simple_kit.Base.{
  ℕ, suc, ◌+◌, ◌^◌, ◌<◌, ◌≤◌, ◌≡◌, ◌≢◌, refl, sym, ap, ◌∙◌, true, false, List, [], ◌∷◌, ◌++◌,
  length, arith, length-append,
}
use simple_kit.Base.Words.{add64, sub64}
use simple_kit.Skiplist.{Level, null, assign, link, widen}
use simple_kit.Skiplist.Run.{
  has, AllDistinct, Run, stop, low, high, spot, Agree, frame, spot-nil, Run-spot_later, has-apart,
  has-inside, Run-through,
}
use simple_kit.Skiplist.Around.{spot-Around, spot-gap}

link-Agree : (level : Level) (a gap x y : ℕ) → y ≢ a → y ≢ x → Agree level (link level a gap x) y
unfolding link
link-Agree level a gap x y p q = record { next = ground arith; span = ground arith }

link-prev :
    (level : Level) (a gap x y : ℕ)
    → y ≢ x
    → y ≢ level.next a
    → (link level a gap x).prev y ≡ level.prev y
unfolding link
link-prev level a gap x y p q = ground arith

pub link-new :
    (level : Level) (a gap x : ℕ)
    → x ≢ a
    → ((link level a gap x).next x ≡ level.next a)
      × ((link level a gap x).span x ≡ add64 (sub64 (level.span a) gap) 1)
      × ((link level a gap x).next a ≡ x)
      × ((link level a gap x).span a ≡ gap)
      × (x ≢ level.next a → (link level a gap x).prev x ≡ a)
      × (level.next a ≢ null → (link level a gap x).prev (level.next a) ≡ x)
unfolding link
link-new level a gap x p =
    (ground arith, ground arith, ground arith, ground arith, λ q. ground arith, λ q. ground arith)

widen-Agree : (level : Level) (a y : ℕ) → y ≢ a → Agree level (widen level a) y
unfolding widen
widen-Agree level a y p = record { next = refl; span = ground arith }

module _ (level : Level) (height : ℕ → ℕ) (l x hx : ℕ) where
  abbrev taller : ℕ → ℕ
  taller = assign height x hx

  same_height : (y : ℕ) (xs : List ℕ) → has x xs ≡ false → has y xs ≡ true → taller y ≡ height y
  same_height y xs out p = let q = has-apart y x xs p out in ground arith

  -- Behind the new node as behind the one that it follows.
  relink :
      (a gap : ℕ) {e : ℕ} (j : ℕ) (post : List ℕ)
      → Run level height l a e post
      → suc e ≡ gap + j
      → AllDistinct (null ∷ x ∷ a ∷ post)
      → e + length post + 1 < 2 ^ 64
      → Run (link level a gap x) taller l x j post
  relink a gap j [] (stop n) total apart small =
      stop ((link-new level a gap x (ground arith)).0 ∙ n)
  relink a gap j (y ∷ post) (low h run) total apart small =
      low (let p = same_height y (y ∷ post) (ground arith) (ground arith) in omega arith)
        (relink a gap (suc j) post run (omega arith) (ground arith) (omega arith))
  relink a gap j (y ∷ post) (high h next span prev run) total apart small =
      let new = link-new level a gap x (ground arith) in
      let real : level.next a ≢ null = ground arith in
      high (let p = same_height y (y ∷ post) (ground arith) (ground arith) in omega arith)
        (new.0 ∙ next) (omega (arith, new.1, span))
        (ap (link level a gap x).prev (sym next) ∙ new.5 real)
        (frame run (link-Agree level a gap x y (ground arith) (ground arith))
          (λ z p.
            link-Agree level a gap x z (has-apart z a post p (ground arith))
              (has-apart z x post p (ground arith)))
          (λ z p.
            link-prev level a gap x z (has-apart z x post p (ground arith))
              (rw next (has-apart z y post p (ground arith))))
          (λ z p. same_height z post (ground arith) p))

  -- The new node behind the one at the spot.
  link_here :
      (a d : ℕ) (post : List ℕ)
      → Run level height l a d post
      → l < hx
      → AllDistinct (null ∷ x ∷ a ∷ post)
      → d + length post + 1 < 2 ^ 64
      → Run (link level a (suc d) x) taller l a d (x ∷ post)
  link_here a d post run tall apart small =
      let new = link-new level a (suc d) x (ground arith) in
      let later : x ≢ level.next a =
        rw (spot-nil height l a d) at
          (Run-spot_later {d = d} [] post x run (ground arith) (ground arith)) in
      high (ground arith) new.2 new.3 (new.4 later)
        (relink a (suc d) 0 post run (omega arith) apart small)

  -- A level that has the new node.
  pub link-Run :
      (a d : ℕ) (pre post : List ℕ)
      → Run level height l a d (pre ++ post)
      → l < hx
      → AllDistinct (null ∷ x ∷ a ∷ (pre ++ post))
      → d + length (pre ++ post) + 1 < 2 ^ 64
      → let (b, gap) = spot height l a d pre in
        Run (link level b (suc gap) x) taller l a d (pre ++ (x ∷ post))
  link-Run a d pre post run tall apart small =
      let b = (spot height l a d pre).0 in
      let gap = (spot height l a d pre).1 in
      let around = spot-Around height l x a d pre post apart in
      let inside = λ (y : ℕ) (p : has y pre ≡ true). has-inside y a pre p in
      Run-through pre post (x ∷ post) run around.front
        (λ y p q. link-Agree level b (suc gap) x y q (around.old y p))
        (λ y p.
          link-prev level b (suc gap) x y (around.old y (inside y p)) (
            Run-spot_later pre post y run (around.real y (inside y p)) (around.out y (inside y p))))
        (λ y p. same_height y pre around.absent p)
        (λ behind.
          link_here b gap post behind tall around.behind
            (omega (arith, spot-gap height l a d pre, length-append pre post)))

  -- A level that the new node is too low for.
  rewiden :
      (a : ℕ) {e : ℕ} (post : List ℕ)
      → Run level height l a e post
      → AllDistinct (null ∷ x ∷ a ∷ post)
      → e + length post + 1 < 2 ^ 64
      → Run (widen level a) taller l a (suc e) post
  unfolding widen
  rewiden a [] (stop n) apart small = stop n
  rewiden a (y ∷ post) (low h run) apart small =
      low (let p = same_height y (y ∷ post) (ground arith) (ground arith) in omega arith)
        (rewiden a post run (ground arith) (omega arith))
  rewiden a (y ∷ post) (high h next span prev run) apart small =
      high (let p = same_height y (y ∷ post) (ground arith) (ground arith) in omega arith) next
        (ground arith) prev
        (frame run (widen-Agree level a y (ground arith))
          (λ z p. widen-Agree level a z (has-apart z a post p (ground arith))) (λ z p. refl)
          (λ z p. same_height z post (ground arith) p))

  pub widen-Run :
      (a d : ℕ) (pre post : List ℕ)
      → Run level height l a d (pre ++ post)
      → hx ≤ l
      → AllDistinct (null ∷ x ∷ a ∷ (pre ++ post))
      → d + length (pre ++ post) + 1 < 2 ^ 64
      → Run (widen level (spot height l a d pre).0) taller l a d (pre ++ (x ∷ post))
  unfolding widen
  widen-Run a d pre post run short apart small =
      let b = (spot height l a d pre).0 in
      let around = spot-Around height l x a d pre post apart in
      Run-through pre post (x ∷ post) run around.front (λ y p q. widen-Agree level b y q)
        (λ y p. refl) (λ y p. same_height y pre around.absent p)
        (λ behind. low (ground arith) (
          rewiden b post behind around.behind
            (omega (arith, spot-gap height l a d pre, length-append pre post))))
