-- ===== src/Skiplist/Insert/Grow.antt =====
-- simple_skiplist/slist.c, `slist_insert`: the skip list with the new node is well-formed.
use simple_kit.Base.{
  ℕ, zero, suc, ◌+◌, ◌^◌, ◌≤◌, ◌<◌, ◌≡◌, ◌≢◌, some, ◌⊎◌, inl, inr, refl, sym, ap, ◌∙◌, true, false,
  ◌==◌, if◌then◌else◌, ltb, leb, List, [], ◌∷◌, ◌++◌, length, arith, length-append, Bool-cases,
}
use simple_kit.Hash.Keys.{Key}
use simple_kit.Hash.Keys.Order.{same}
use simple_kit.Skiplist.{Skiplist, null, assign, random, choose_loop, choose_height, insert, zeroed}
use simple_kit.Skiplist.Link.{link-new}
use simple_kit.Skiplist.Run.{
  has, Run, stop, low, high, spot, has-append, has-apart, has-spot, Run-spot,
}
use simple_kit.Skiplist.Search.{AllBelow, AllAbove, NoneBelow}
use simple_kit.Skiplist.Order.{
  AllDistinct-between, IsSorted-between, last_or-between, last_or-append,
}
use simple_kit.Skiplist.Invariant.{IsValid, last_or}
use simple_kit.Skiplist.Insert.Trail.{trail, trail-at}
use simple_kit.Skiplist.Insert.Runs.{linked, linked-at, final, final-Run}

module _ (rand_r : ℕ → ℕ × ℕ) where
  choose_loop-bounds :
      (n max height seed : ℕ)
      → height ≤ max
      → (height ≤ (choose_loop rand_r n max height seed).0)
        × ((choose_loop rand_r n max height seed).0 ≤ max)
  unfolding choose_loop
  choose_loop-bounds zero max height seed p = (omega arith, p)
  choose_loop-bounds (suc n) max height seed p = elim (Bool-cases (ltb height max)) [
    | inl more ↦
        let later = (random rand_r seed).1 in
        let rest = choose_loop-bounds n max (height + 1) later (ground arith) in
        elim (Bool-cases (random rand_r seed).0) [
          | inl up ↦ rw (more, up) (omega arith, rest.1)
          | inr down ↦ rw (more, down) (omega arith, p)
        ]
    | inr full ↦ rw full (omega arith, p)
  ]

  module _ (s : Skiplist) (key : Key) (value : ℕ) (pre post : List ℕ)
      (valid : IsValid s (pre ++ post)) (below : AllBelow s.key key pre)
      (none : NoneBelow s.key key post) (addr : ℕ) where
    abbrev pub height : ℕ
    height = (choose_height rand_r s).0

    abbrev pub after : ℕ
    after = (s.levels 0).next ((trail s key pre post valid below none).node 0)

    pub after-spot : after ≡ (s.levels 0).next (spot s.height 0 s.head 0 pre).0
    after-spot =
        let bound = valid.bounds in
        ap (s.levels 0).next (trail-at s key pre post valid below none 0 (omega arith)).0

    -- The skip list with the new node.
    abbrev pub grown : Skiplist
    grown = record s {
      seed = (choose_height rand_r s).1;
      key = assign s.key addr key;
      value = assign s.value addr value;
      height = assign s.height addr height;
      levels = final s key pre post valid below none addr height;
      live = assign s.live addr true;
      cur_height = if leb s.cur_height height then height else s.cur_height;
      tail =
          if (linked s key pre post valid below none addr height 0).next addr == null
          then addr
          else s.tail;
      num_nodes = s.num_nodes + 1;
    }

    pub insert-stops :
        s.cur_height < s.max_height
        → after ≢ null
        → same key (s.key after) ≡ true
        → insert rand_r addr s key value ≡ some (false, s)
    unfolding insert
    insert-stops under real here =
        let e : after == null ≡ false = ground arith in
        let f : ltb s.cur_height s.max_height ≡ true = ground arith in rw (f, e, here) refl

    pub insert-goes :
        s.cur_height < s.max_height
        → height < s.max_height
        → (after ≡ null) ⊎ (same key (s.key after) ≡ false)
        → insert rand_r addr s key value ≡ some (true, grown)
    unfolding insert
    insert-goes under fits behind =
        let f : ltb s.cur_height s.max_height ≡ true = ground arith in
        let g : ltb height s.max_height ≡ true = ground arith in
        elim (Bool-cases (after == null)) [
          | inl e ↦ rw (f, e, g) refl
          | inr e ↦ elim behind [
            | inl h ↦ absurd (ground arith)
            | inr other ↦ rw (f, e, other, g) refl
          ]
        ]

    height_bounds : (1 ≤ height) × (height ≤ s.max_height)
    unfolding choose_height
    height_bounds =
        let bound = valid.bounds in
        choose_loop-bounds s.max_height s.max_height 1 s.seed (omega arith)

    module _ (above : AllAbove s.key key post) (real : addr ≢ null) (fresh : s.live addr ≡ false)
        (room : length (pre ++ post) + 2 < 2 ^ 64) where
      pub out : has addr (s.head ∷ (pre ++ post)) ≡ false
      out = elim (Bool-cases (has addr (s.head ∷ (pre ++ post)))) [
        | inl inside ↦ let e = valid.live addr inside in cc
        | inr p ↦ p
      ]

      old_height :
          (x : ℕ)
          → has x (pre ++ (addr ∷ post)) ≡ true
          → (1 ≤ grown.height x) × (grown.height x ≤ grown.cur_height)
      old_height x p = elim (Bool-cases (addr == x)) [
        | inl here ↦ rw here (height_bounds.0, ground (arith, height_bounds))
        | inr past ↦
            let h =
              valid.heights x
                (ground (arith, has-append x pre post, has-append x pre (addr ∷ post))) in
            rw past (h.0, ground (arith, h))
      ]

      old_live : (x : ℕ) → has x (s.head ∷ (pre ++ (addr ∷ post))) ≡ true → grown.live x ≡ true
      old_live x p = elim (Bool-cases (addr == x)) [
        | inl here ↦ rw here refl
        | inr past ↦
            let h =
              valid.live x
                (ground (arith, has-append x pre post, has-append x pre (addr ∷ post))) in
            rw past h
      ]

      -- The node behind the new one, on the lowest level.
      next_of :
          (linked s key pre post valid below none addr height 0).next addr
          ≡ (s.levels 0).next (spot s.height 0 s.head 0 pre).0
      next_of =
          let (b, gap) = spot s.height 0 s.head 0 pre in
          let bounds = height_bounds in
          let other : addr ≢ b = λ e.
            has-apart b addr (s.head ∷ pre) (has-spot s.height 0 s.head 0 pre)
              (ground (arith, out, has-append addr pre post)) (sym e) in
          ap (λ z. z.next addr)
            (linked-at s key pre post valid below none addr height 0 (omega arith))
          ∙ (link-new (zeroed (s.levels 0) addr) b (suc gap) addr other).0
          ∙ ground arith

      tail_of :
          (b gap : ℕ) (ys : List ℕ)
          → Run (s.levels 0) s.height 0 b gap ys
          → has null ys ≡ false
          → ((x : ℕ) → has x ys ≡ true → 1 ≤ s.height x)
          → (if (s.levels 0).next b == null then addr else last_or null (pre ++ ys))
            ≡ last_or addr ys
      tail_of b gap [] (stop e) no_null tall =
          let f : (s.levels 0).next b == null ≡ true = ground arith in rw f refl
      tail_of b gap (y ∷ ys) (low h run) no_null tall =
          let q = tall y (ground arith) in absurd (omega arith)
      tail_of b gap (y ∷ ys) (high h next span prev run) no_null tall =
          let f : (s.levels 0).next b == null ≡ false = ground arith in
          rw f (last_or-append null addr pre y ys)

      new_tail : grown.tail ≡ last_or null (pre ++ (addr ∷ post))
      new_tail =
          let bound = valid.bounds in
          ap (λ n. if n == null then addr else s.tail) next_of
          ∙ ap (λ t. if (s.levels 0).next (spot s.height 0 s.head 0 pre).0 == null then addr else t)
              valid.tail
          ∙ tail_of _ _ post (Run-spot pre (valid.runs 0 (omega arith)))
              (ground (arith, valid.distinct, has-append null pre post))
              (λ x p. (valid.heights x (ground (arith, has-append x pre post))).0)
          ∙ sym (last_or-between null addr pre post)

      kept :
          (x : ℕ)
          → (x ≡ null) ⊎ (has x (pre ++ post) ≡ true)
          → (x ≡ null) ⊎ (has x (pre ++ (addr ∷ post)) ≡ true)
      kept x (inl e) = inl e
      kept x (inr p) = inr (ground (arith, has-append x pre post, has-append x pre (addr ∷ post)))

      pub grown-IsValid : IsValid grown (pre ++ (addr ∷ post))
      grown-IsValid =
          let bound = valid.bounds in
          let size = length-append pre post in
          let size' = length-append pre (addr ∷ post) in
          let count = valid.counted in
          record {
            distinct =
                AllDistinct-between addr (null ∷ s.head ∷ pre) post valid.distinct
                  (ground (arith, out));
            sorted =
                IsSorted-between s.key addr key pre post valid.sorted (ground (arith, out)) below
                  above;
            heights = old_height;
            bounds = (ground (arith, height_bounds), ground (arith, height_bounds));
            runs = final-Run s key pre post valid below none addr height real out room;
            tail = new_tail;
            counted = omega arith;
            small = omega arith;
            live = old_live;
            forward = kept s.iterator valid.forward;
            backward = kept s.riterator valid.backward;
          }
