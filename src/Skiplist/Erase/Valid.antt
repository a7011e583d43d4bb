-- ===== src/Skiplist/Erase/Valid.antt =====
-- simple_skiplist/slist.c, `_slist_erase_node`: the skip list without the node is well-formed.
use simple_kit.Base.{
  ℕ, ◌≤◌, ◌≡◌, ◌≢◌, ◌⊎◌, inl, inr, refl, sym, ap, ◌∙◌, true, false, ◌==◌, if◌then◌else◌, List, [],
  ◌∷◌, ◌++◌, arith, length-append, Bool-cases, ==_symm,
}
use mathlib.Core.List.{append-nil}
use simple_kit.Skiplist.{Skiplist, null}
use simple_kit.Skiplist.Run.{
  has, Run, spot, spot-nil, spot-high, has-append, has-apart, Run-next, Run-spot,
}
use simple_kit.Skiplist.Invariant.{IsValid, last_or}
use simple_kit.Skiplist.Order.{IsSorted-without, last_or-between}
use simple_kit.Skiplist.Erase.{cut, erase_node}
use simple_kit.Skiplist.Erase.Cut.{at_spot, cut-there}
use simple_kit.Skiplist.Erase.Levels.{
  lower-bounds, lower-heights, cut_levels, cut_levels-at, cut_levels-Run, apart,
}

has-last_or : (a : ℕ) (xs : List ℕ) → has (last_or a xs) (a ∷ xs) ≡ true
has-last_or a [] = ground arith
has-last_or a (x ∷ xs) = let h = has-last_or x xs in ground arith

-- On a level that all nodes are on, the spot is the last of them.
spot-last_or :
    (height : ℕ → ℕ) (a d : ℕ) (xs : List ℕ)
    → ((x : ℕ) → has x xs ≡ true → 1 ≤ height x)
    → (spot height 0 a d xs).0 ≡ last_or a xs
spot-last_or height a d [] tall = ap (λ q. q.0) (spot-nil height 0 a d)
spot-last_or height a d (x ∷ xs) tall =
    let h = tall x (ground arith) in
    ap (λ q. q.0) (spot-high height 0 a d x xs (omega arith))
    ∙ spot-last_or height x 0 xs (λ y p. tall y (ground arith))

module _ (s : Skiplist) (x : ℕ) (pre post : List ℕ) (valid : IsValid s (pre ++ (x ∷ post))) where
  abbrev before : ℕ
  before = last_or s.head pre

  tall : (y : ℕ) → has y (pre ++ (x ∷ post)) ≡ true → 1 ≤ s.height y
  tall y p = (valid.heights y p).0

  -- The pointers of the node that goes, on the lowest level.
  pub old_links :
      ((s.levels 0).next before ≡ x)
      × ((s.levels 0).prev x ≡ before)
      × Run (s.levels 0) s.height 0 x 0 post
  old_links =
      let bound = valid.bounds in
      let (next, prev, span, run) =
        at_spot (s.levels 0) s.height 0 x _ _ post (Run-spot pre (valid.runs 0 (omega arith)))
          (let h = tall x (ground (arith, has-append x pre (x ∷ post))) in omega arith) in
      let e =
        spot-last_or s.height s.head 0 pre
          (λ y p. tall y (ground (arith, has-append y pre (x ∷ post)))) in
      (rw (sym e) next, prev ∙ e, run)

  x_apart : (has x (null ∷ s.head ∷ pre) ≡ false) × (has x post ≡ false)
  x_apart =
      let a = apart s x pre post valid in
      (ground (arith, a, has-append x pre post), ground (arith, a, has-append x pre post))

  -- They are as before when the levels have been cut.
  new_links :
      ((cut_levels s x pre post valid 0).next x ≡ (s.levels 0).next x)
      × ((cut_levels s x pre post valid 0).prev x ≡ before)
  new_links =
      let bound = valid.bounds in
      let (next, prev, run) = old_links in
      let e =
        spot-last_or s.height s.head 0 pre
          (λ y p. tall y (ground (arith, has-append y pre (x ∷ post)))) in
      let at =
        (cut_levels-at s x pre post valid 0).0 (omega arith) ∙ ap (λ b. cut (s.levels 0) b x) e in
      let there = cut-there (s.levels 0) before x next prev in
      let other : x ≢ before = λ f.
        has-apart before x (s.head ∷ pre) (has-last_or s.head pre) (ground (arith, x_apart))
          (sym f) in
      let not_next : x ≢ (s.levels 0).next x = λ f. elim (Run-next run) as (λ _. ⊥) [
        | inl n ↦ ground (arith, x_apart, f ∙ n)
        | inr p ↦ has-apart ((s.levels 0).next x) x post p x_apart.1 (sym f)
      ] in
      (
        ap (λ level. level.next x) at ∙ (there.3 x other).next,
        ap (λ level. level.prev x) at ∙ there.4 x not_next ∙ prev,
      )

  -- What precedes the node, as the tail or an iterator: no node in place of the head.
  pub before_or_null :
      (pre' : List ℕ)
      → has s.head pre' ≡ false
      → (if last_or s.head pre' == s.head then null else last_or s.head pre') ≡ last_or null pre'
  before_or_null [] out = ground arith
  before_or_null (y ∷ ys) out =
      let other : last_or y ys == s.head ≡ false =
        ground (arith, has-apart (last_or y ys) s.head (y ∷ ys) (has-last_or y ys) out) in
      rw other refl

  abbrev prev_after : ℕ
  prev_after = (cut_levels s x pre post valid 0).prev x

  previous : (if prev_after == s.head then null else prev_after) ≡ last_or null pre
  previous =
      ap (λ b. if b == s.head then null else b) new_links.1
      ∙ before_or_null pre (ground (arith, apart s x pre post valid, has-append s.head pre post))

  -- The last node, when the node before it becomes the last one or when it stays.
  tail_of :
      (pre' ys : List ℕ)
      → has x ys ≡ false
      → (if x == last_or null (pre' ++ (x ∷ ys))
          then last_or null pre'
          else last_or null (pre' ++ (x ∷ ys)))
        ≡ last_or null (pre' ++ ys)
  tail_of pre' [] out =
      let e : x == x ≡ true = ground arith in
      rw (last_or-between null x pre' [], e, append-nil pre') refl
  tail_of pre' (y ∷ ys) out =
      let e : x == last_or y ys ≡ false =
        ground (arith, has-apart (last_or y ys) x (y ∷ ys) (has-last_or y ys) out) in
      rw (last_or-between null x pre' (y ∷ ys), e, last_or-between null y pre' ys) refl

  new_tail : (erase_node s x).tail ≡ last_or null (pre ++ post)
  unfolding erase_node
  new_tail =
      let shown : (if s.head == prev_after then null else prev_after) ≡ last_or null pre =
        rw (==_symm s.head prev_after) previous in
      rw (shown, valid.tail) (tail_of pre post x_apart.1)

  kept :
      (z : ℕ)
      → x == z ≡ false
      → (z ≡ null) ⊎ (has z (pre ++ (x ∷ post)) ≡ true)
      → (z ≡ null) ⊎ (has z (pre ++ post) ≡ true)
  kept z other (inl e) = inl e
  kept z other (inr p) = inr (ground (arith, has-append z pre post, has-append z pre (x ∷ post)))

  new_forward :
      ((erase_node s x).iterator ≡ null) ⊎ (has (erase_node s x).iterator (pre ++ post) ≡ true)
  unfolding erase_node
  new_forward = elim (Bool-cases (x == s.iterator)) [
    | inl here ↦
        rw (here, new_links.0)
          (elim (Run-next old_links.2) [
            | inl e ↦ inl e
            | inr p ↦ inr (ground (arith, has-append ((s.levels 0).next x) pre post))
          ])
    | inr past ↦ rw past (kept s.iterator past valid.forward)
  ]

  new_backward :
      ((erase_node s x).riterator ≡ null) ⊎ (has (erase_node s x).riterator (pre ++ post) ≡ true)
  unfolding erase_node
  new_backward = elim (Bool-cases (x == s.riterator)) [
    | inl here ↦
        rw (here, previous)
          (elim (Bool-cases (last_or null pre == null)) [
            | inl e ↦ inl (ground arith)
            | inr real ↦
                inr (ground (arith, has-last_or null pre, has-append (last_or null pre) pre post))
          ])
    | inr past ↦ rw past (kept s.riterator past valid.backward)
  ]

  new_live : (y : ℕ) → has y (s.head ∷ (pre ++ post)) ≡ true → (erase_node s x).live y ≡ true
  unfolding erase_node
  new_live y p =
      let other : x == y ≡ false =
        ground (arith, has-apart y x (s.head ∷ (pre ++ post)) p (apart s x pre post valid).1.0) in
      rw other (valid.live y (ground (arith, has-append y pre post, has-append y pre (x ∷ post))))

  pub erase_node-IsValid : IsValid (erase_node s x) (pre ++ post)
  unfolding erase_node
  erase_node-IsValid =
      let bound = valid.bounds in
      let count = valid.counted in
      let small = valid.small in
      let size = length-append pre (x ∷ post) in
      let size' = length-append pre post in
      let a = apart s x pre post valid in
      let low = lower-bounds (cut_levels s x pre post valid) s.head s.cur_height bound.0 in
      record {
        distinct = (ground (arith, a), a.1.1);
        sorted = IsSorted-without s.key x pre post valid.sorted;
        heights = λ y p. (
          tall y (ground (arith, has-append y pre post, has-append y pre (x ∷ post))),
          lower-heights s x pre post valid y p,
        );
        bounds = (low.0, omega arith);
        runs = cut_levels-Run s x pre post valid;
        tail = new_tail;
        counted = omega arith;
        small = omega arith;
        live = new_live;
        forward = new_forward;
        backward = new_backward;
      }
