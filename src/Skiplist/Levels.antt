-- ===== src/Skiplist/Levels.antt =====
-- simple_skiplist/slist.c: levels that no node reaches, and levels with a zeroed node.
use simple_kit.Base.{
  ℕ, zero, suc, ◌+◌, ◌≤◌, ◌<◌, ◌≡◌, ◌≢◌, refl, ap, ◌∙◌, true, false, if◌then◌else◌, ltb, List, [],
  ◌∷◌, length, arith,
}
use simple_kit.Skiplist.{Level, null, zeroed, each, set_level}
use simple_kit.Skiplist.Run.{
  has, Run, stop, low, high, Agree, frame, has-apart, spot, spot-nil, spot-low, spot-high,
}

-- `each` changes the levels below its bound.
each-at :
    (f : ℕ → Level → Level) (h : ℕ) (levels : ℕ → Level) (k : ℕ)
    → each f h levels k ≡ (if ltb k h then f k (levels k) else levels k)
unfolding each
each-at f zero levels k = ground arith
each-at f (suc h) levels k = ground (arith, each-at f h (set_level levels h (f h (levels h))) k)

module _ (f : ℕ → Level → Level) (h : ℕ) (levels : ℕ → Level) (k : ℕ) where
  pub each-in : k < h → each f h levels k ≡ f k (levels k)
  each-in p = let on : ltb k h ≡ true = ground arith in each-at f h levels k ∙ rw on refl

  pub each-past : h ≤ k → each f h levels k ≡ levels k
  each-past p = let off : ltb k h ≡ false = ground arith in each-at f h levels k ∙ rw off refl

-- All nodes of a list are too low for a level.
abbrev pub AllLow : (ℕ → ℕ) → ℕ → List ℕ → Type 0
AllLow height l [] = Unit {0}
AllLow height l (x ∷ xs) = (height x ≤ l) × AllLow height l xs

pub AllLow-from :
    (height : ℕ → ℕ) (l : ℕ) (xs : List ℕ)
    → ((x : ℕ) → has x xs ≡ true → height x ≤ l)
    → AllLow height l xs
AllLow-from height l [] all = tt
AllLow-from height l (x ∷ xs) all =
    (all x (ground arith), AllLow-from height l xs (λ y p. all y (ground arith)))

pub spot-AllLow :
    (height : ℕ → ℕ) (l a d : ℕ) (xs : List ℕ)
    → AllLow height l xs
    → spot height l a d xs ≡ (a, d + length xs)
spot-AllLow height l a d [] all =
    let e : d ≡ d + 0 = omega arith in spot-nil height l a d ∙ ap (λ n. (a, n)) e
spot-AllLow height l a d (x ∷ xs) (short, all) =
    let e : suc d + length xs ≡ d + suc (length xs) = omega arith in
    spot-low height l a d x xs short ∙ spot-AllLow height l a (suc d) xs all ∙ ap (λ n. (a, n)) e

pub Run-AllLow :
    {level : Level} {height : ℕ → ℕ} {l a d : ℕ} (xs : List ℕ)
    → Run level height l a d xs
    → AllLow height l xs
    → level.next a ≡ null
Run-AllLow [] (stop e) all = e
Run-AllLow (x ∷ xs) (low h run) (short, all) = Run-AllLow xs run all
Run-AllLow (x ∷ xs) (high h next span prev run) (short, all) = absurd (omega arith)

pub AllLow-Run :
    (level : Level) (height : ℕ → ℕ) (l a d : ℕ) (xs : List ℕ)
    → level.next a ≡ null
    → AllLow height l xs
    → Run level height l a d xs
AllLow-Run level height l a d [] e all = stop e
AllLow-Run level height l a d (x ∷ xs) e (short, all) =
    low short (AllLow-Run level height l a (suc d) xs e all)

-- On a level that all nodes are on, none is passed behind the spot.
pub spot-ground :
    (height : ℕ → ℕ) (a : ℕ) (xs : List ℕ)
    → ((x : ℕ) → has x xs ≡ true → 1 ≤ height x)
    → (spot height 0 a 0 xs).1 ≡ 0
spot-ground height a [] all = ap (λ p. p.1) (spot-nil height 0 a 0)
spot-ground height a (x ∷ xs) all =
    let tall = all x (ground arith) in
    ap (λ p. p.1) (spot-high height 0 a 0 x xs (omega arith))
    ∙ spot-ground height x xs (λ y p. all y (ground arith))

-- Zeroed pointers of a node that is not on the run.
pub zeroed-Run :
    {level : Level} {height : ℕ → ℕ} {l a d : ℕ} {xs : List ℕ} (x : ℕ)
    → Run level height l a d xs
    → has x (a ∷ xs) ≡ false
    → Run (zeroed level x) height l a d xs
zeroed-Run {level} {a} {xs} x run out =
    frame run (other a (ground arith)) (λ y p. other y (has-apart y x xs p (ground arith)))
      (λ y p. let q = has-apart y x xs p (ground arith) in ground arith) (λ y p. refl)
  where
    other : (y : ℕ) → y ≢ x → Agree level (zeroed level x) y
    other y p = record { next = ground arith; span = ground arith }
