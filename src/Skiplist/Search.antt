-- ===== src/Skiplist/Search.antt =====
-- simple_skiplist/slist.c: the walks over the levels, by the key that they look for.
use simple_kit.Base.{
  ℕ, zero, suc, ◌+◌, ◌-◌, ◌^◌, ◌<◌, ◌≡◌, ◌≢◌, ◌⊎◌, inl, inr, refl, ap, ◌∙◌, true, false, ◌==◌, List,
  [], ◌∷◌, ◌++◌, length, arith, Bool-cases, Ordering, ==_iff,
}
use simple_kit.Base.Words.{add64}
use simple_kit.Hash.Keys.{Key, key_compare}
use simple_kit.Skiplist.{Level, null, advance, found, passed, seek_level}
use simple_kit.Skiplist.Run.{has, Run, low, high, spot, spot-nil, spot-low, spot-high, Run-next}

module _ (keys : ℕ → Key) (key : Key) where
  -- The nodes that a walk to `key` passes, and those that it does not.
  abbrev pub AllBelow : List ℕ → Type 0
  AllBelow [] = Unit {0}
  AllBelow (x ∷ xs) = (key_compare key (keys x) ≡ Ordering.gt) × AllBelow xs

  abbrev pub AllAbove : List ℕ → Type 0
  AllAbove [] = Unit {0}
  AllAbove (x ∷ xs) = (key_compare key (keys x) ≡ Ordering.lt) × AllAbove xs

  abbrev pub NoneBelow : List ℕ → Type 0
  NoneBelow [] = Unit {0}
  NoneBelow (x ∷ xs) = (key_compare key (keys x) ≢ Ordering.gt) × NoneBelow xs

  pub AllAbove-NoneBelow : (xs : List ℕ) → AllAbove xs → NoneBelow xs
  AllAbove-NoneBelow [] all = tt
  AllAbove-NoneBelow (x ∷ xs) (above, all) = (λ e. cc, AllAbove-NoneBelow xs all)

  pub has-NoneBelow :
      (x : ℕ) (xs : List ℕ)
      → has x xs ≡ true
      → NoneBelow xs
      → key_compare key (keys x) ≢ Ordering.gt
  has-NoneBelow x [] h none = cc
  has-NoneBelow x (y ∷ xs) h (not_y, none) = elim (Bool-cases (x == y)) [
    | inl here ↦ rw ((==_iff x y).0 here) not_y
    | inr past ↦ has-NoneBelow x xs (ground arith) none
  ]

  pub has-AllAbove :
      (x : ℕ) (xs : List ℕ) → has x xs ≡ true → AllAbove xs → key_compare key (keys x) ≡ Ordering.lt
  has-AllAbove x [] h all = cc
  has-AllAbove x (y ∷ xs) h (above, all) = elim (Bool-cases (x == y)) [
    | inl here ↦ rw ((==_iff x y).0 here) above
    | inr past ↦ has-AllAbove x xs (ground arith) all
  ]

  -- One step of the loops, by where the node points.
  advance-stops :
      (fuel : ℕ) (level : Level) (a r : ℕ)
      → (level.next a ≡ null) ⊎ (key_compare key (keys (level.next a)) ≢ Ordering.gt)
      → advance fuel keys level key a r ≡ (a, r)
  unfolding advance
  advance-stops zero level a r why = refl
  advance-stops (suc fuel) level a r why = ground (arith, why)

  advance-goes :
      (fuel : ℕ) (level : Level) (a r : ℕ)
      → level.next a ≢ null
      → key_compare key (keys (level.next a)) ≡ Ordering.gt
      → advance (suc fuel) keys level key a r
        ≡ advance fuel keys level key (level.next a) (add64 r (level.span a))
  unfolding advance
  advance-goes fuel level a r real below = ground arith

  module _ (level : Level) (height : ℕ → ℕ) (l : ℕ) where
    -- The loop of an insertion ends at the spot.
    pub advance-spot :
        (fuel a d r : ℕ) (pre post : List ℕ)
        → Run level height l a d (pre ++ post)
        → AllBelow pre
        → NoneBelow post
        → has null pre ≡ false
        → length pre < fuel
        → r + d + length pre < 2 ^ 64
        → let (b, gap) = spot height l a d pre in
          advance fuel keys level key a r ≡ (b, r + d + length pre - gap)
    advance-spot fuel a d r [] post run below none real enough small =
        let rank : r ≡ r + d + 0 - d = omega arith in
        rw (spot-nil height l a d) (
          advance-stops fuel level a r (elim (Run-next run) [
            | inl e ↦ inl e
            | inr p ↦ inr (has-NoneBelow (level.next a) post p none)
          ])
          ∙ ap (λ n. (a, n)) rank)
    advance-spot fuel a d r (y ∷ pre) post (low h run) below none real enough small =
        let sum : r + suc d + length pre ≡ r + d + suc (length pre) = omega arith in
        rw (spot-low height l a d y pre h) (
          advance-spot fuel a (suc d) r pre post run below.1 none (ground arith) (omega arith)
            (omega arith)
          ∙ ap (λ n. ((spot height l a (suc d) pre).0, n - (spot height l a (suc d) pre).1)) sum)
    advance-spot zero a d r (y ∷ pre) post (high h next span prev run) below none real enough
          small =
        absurd (omega arith)
    advance-spot (suc fuel) a d r (y ∷ pre) post (high h next span prev run) below none real enough
          small =
        let sum : add64 r (level.span a) ≡ r + suc d = omega (arith, span) in
        let sum' : r + suc d + 0 + length pre ≡ r + d + suc (length pre) = omega arith in
        rw (spot-high height l a d y pre h) (
          advance-goes fuel level a r (ground arith) (rw next below.0)
          ∙ ap (λ b. advance fuel keys level key b (add64 r (level.span a))) next
          ∙ ap (λ n. advance fuel keys level key y n) sum
          ∙ advance-spot fuel y 0 (r + suc d) pre post run below.1 none (ground arith) (omega arith)
              (omega arith)
          ∙ ap (λ n. ((spot height l y 0 pre).0, n - (spot height l y 0 pre).1)) sum')

  seek_level-stops :
      (fuel : ℕ) (level : Level) (a r : ℕ)
      → (level.next a ≡ null) ⊎ (key_compare key (keys (level.next a)) ≡ Ordering.lt)
      → seek_level fuel keys level key a r ≡ passed a r
  unfolding seek_level
  seek_level-stops zero level a r why = refl
  seek_level-stops (suc fuel) level a r why = ground (arith, why)

  seek_level-goes :
      (fuel : ℕ) (level : Level) (a r : ℕ)
      → level.next a ≢ null
      → key_compare key (keys (level.next a)) ≡ Ordering.gt
      → seek_level (suc fuel) keys level key a r
        ≡ seek_level fuel keys level key (level.next a) (add64 r (level.span a))
  unfolding seek_level
  seek_level-goes fuel level a r real below = ground arith

  seek_level-finds :
      (fuel : ℕ) (level : Level) (a r : ℕ)
      → level.next a ≢ null
      → key_compare key (keys (level.next a)) ≡ Ordering.eq
      → seek_level (suc fuel) keys level key a r ≡ found (level.next a) (add64 r (level.span a))
  unfolding seek_level
  seek_level-finds fuel level a r real here = ground arith

  module _ (level : Level) (height : ℕ → ℕ) (l : ℕ) where
    -- The walk goes on from the spot if the node behind it is larger.
    pub seek_level-passed :
        (fuel a d r : ℕ) (pre post : List ℕ)
        → Run level height l a d (pre ++ post)
        → AllBelow pre
        → (let b = (spot height l a d pre).0 in
            (level.next b ≡ null) ⊎ (key_compare key (keys (level.next b)) ≡ Ordering.lt))
        → has null pre ≡ false
        → length pre < fuel
        → r + d + length pre < 2 ^ 64
        → let (b, gap) = spot height l a d pre in
          seek_level fuel keys level key a r ≡ passed b (r + d + length pre - gap)
    seek_level-passed fuel a d r [] post run below why real enough small =
        let rank : r ≡ r + d + 0 - d = omega arith in
        rw (spot-nil height l a d) (
          seek_level-stops fuel level a r (rw (spot-nil height l a d) at why)
          ∙ ap (λ n. passed a n) rank)
    seek_level-passed fuel a d r (y ∷ pre) post (low h run) below why real enough small =
        let sum : r + suc d + length pre ≡ r + d + suc (length pre) = omega arith in
        rw (spot-low height l a d y pre h) (
          seek_level-passed fuel a (suc d) r pre post run below.1
            (rw (spot-low height l a d y pre h) at why) (ground arith) (omega arith) (omega arith)
          ∙ ap (λ n. passed (spot height l a (suc d) pre).0 (n - (spot height l a (suc d) pre).1))
              sum)
    seek_level-passed zero a d r (y ∷ pre) post (high h next span prev run) below why real enough
          small =
        absurd (omega arith)
    seek_level-passed (suc fuel) a d r (y ∷ pre) post (high h next span prev run) below why real
          enough small =
        let sum : add64 r (level.span a) ≡ r + suc d = omega (arith, span) in
        let sum' : r + suc d + 0 + length pre ≡ r + d + suc (length pre) = omega arith in
        rw (spot-high height l a d y pre h) (
          seek_level-goes fuel level a r (ground arith) (rw next below.0)
          ∙ ap (λ b. seek_level fuel keys level key b (add64 r (level.span a))) next
          ∙ ap (λ n. seek_level fuel keys level key y n) sum
          ∙ seek_level-passed fuel y 0 (r + suc d) pre post run below.1
              (rw (spot-high height l a d y pre h) at why) (ground arith) (omega arith)
              (omega arith)
          ∙ ap (λ n. passed (spot height l y 0 pre).0 (n - (spot height l y 0 pre).1)) sum')

    -- It ends at the key on a level that its node is on.
    pub seek_level-found :
        (fuel a d r x : ℕ) (pre post : List ℕ)
        → Run level height l a d (pre ++ (x ∷ post))
        → AllBelow pre
        → key_compare key (keys x) ≡ Ordering.eq
        → l < height x
        → has null (pre ++ (x ∷ post)) ≡ false
        → length pre < fuel
        → r + d + length pre + 1 < 2 ^ 64
        → seek_level fuel keys level key a r ≡ found x (r + d + length pre + 1)
    seek_level-found zero a d r x pre post run below here tall real enough small =
        absurd (omega arith)
    seek_level-found (suc fuel) a d r x [] post (low h run) below here tall real enough small =
        absurd (omega arith)
    seek_level-found (suc fuel) a d r x [] post (high h next span prev run) below here tall real
          enough small =
        let sum : add64 r (level.span a) ≡ r + d + 0 + 1 = omega (arith, span) in
        seek_level-finds fuel level a r (ground arith) (rw next here)
        ∙ ap (λ b. found b (add64 r (level.span a))) next
        ∙ ap (λ n. found x n) sum
    seek_level-found (suc fuel) a d r x (y ∷ pre) post (low h run) below here tall real enough
          small =
        let sum : r + suc d + length pre + 1 ≡ r + d + suc (length pre) + 1 = omega arith in
        seek_level-found (suc fuel) a (suc d) r x pre post run below.1 here tall (ground arith)
          (omega arith) (omega arith)
        ∙ ap (λ n. found x n) sum
    seek_level-found (suc fuel) a d r x (y ∷ pre) post (high h next span prev run) below here tall
          real enough small =
        let sum : add64 r (level.span a) ≡ r + suc d = omega (arith, span) in
        let sum' : r + suc d + 0 + length pre + 1 ≡ r + d + suc (length pre) + 1 = omega arith in
        seek_level-goes fuel level a r (ground arith) (rw next below.0)
        ∙ ap (λ b. seek_level fuel keys level key b (add64 r (level.span a))) next
        ∙ ap (λ n. seek_level fuel keys level key y n) sum
        ∙ seek_level-found fuel y 0 (r + suc d) x pre post run below.1 here tall (ground arith)
            (omega arith) (omega arith)
        ∙ ap (λ n. found x n) sum'
