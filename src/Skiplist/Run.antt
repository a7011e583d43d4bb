-- ===== src/Skiplist/Run.antt =====
-- simple_skiplist/slist.c: what the pointers of one level say of the nodes in order.
use simple_kit.Base.{
  ℕ, suc, ◌<◌, ◌≤◌, ◌≡◌, ◌≢◌, ◌⊎◌, inl, inr, refl, sym, ap, ◌∙◌, Bool, true, false, ◌||◌, ◌==◌,
  if◌then◌else◌, ltb, List, [], ◌∷◌, ◌++◌, arith, Bool-cases, ltb→lt, not_ltb→le,
}
use simple_kit.Skiplist.{Level, null}

abbrev pub has : ℕ → List ℕ → Bool
has a [] = false
has a (x ∷ xs) = (a == x) || has a xs

abbrev pub AllDistinct : List ℕ → Type 0
AllDistinct [] = Unit {0}
AllDistinct (x ∷ xs) = (has x xs ≡ false) × AllDistinct xs

-- On level `l`, from node `a` with `d` lower nodes passed behind it, the pointers run through the
-- higher ones of the nodes that follow. A span counts the steps; the last one is not used.
pub data Run (level : Level) (height : ℕ → ℕ) (l : ℕ) : ℕ → ℕ → List ℕ → Type 0 where
  stop : {a d : ℕ} → level.next a ≡ null → Run level height l a d []
  low :
      {a d x : ℕ} {xs : List ℕ}
      → height x ≤ l
      → Run level height l a (suc d) xs
      → Run level height l a d (x ∷ xs)
  high :
      {a d x : ℕ} {xs : List ℕ}
      → l < height x
      → level.next a ≡ x
      → level.span a ≡ suc d
      → level.prev x ≡ a
      → Run level height l x 0 xs
      → Run level height l a d (x ∷ xs)

-- The last node on level `l` of `a` and the nodes behind it, and how many lower ones follow it.
unfoldable pub spot : (ℕ → ℕ) → ℕ → ℕ → ℕ → List ℕ → ℕ × ℕ
spot height l a d [] = (a, d)
spot height l a d (x ∷ xs) =
    if ltb l (height x) then spot height l x 0 xs else spot height l a (suc d) xs

pub has-append : (a : ℕ) (xs ys : List ℕ) → has a (xs ++ ys) ≡ (has a xs || has a ys)
has-append a [] ys = refl
has-append a (x ∷ xs) ys = ground (arith, has-append a xs ys)

-- Two levels agree on what a node points at.
pub record Agree (one two : Level) (a : ℕ) : Type 0 where
  pub next : two.next a ≡ one.next a
  pub span : two.span a ≡ one.span a

-- A run depends on its own nodes alone.
pub frame :
    {one two : Level} {height height' : ℕ → ℕ} {l a d : ℕ} {xs : List ℕ}
    → Run one height l a d xs
    → Agree one two a
    → ((x : ℕ) → has x xs ≡ true → Agree one two x)
    → ((x : ℕ) → has x xs ≡ true → two.prev x ≡ one.prev x)
    → ((x : ℕ) → has x xs ≡ true → height' x ≡ height x)
    → Run two height' l a d xs
frame (stop e) at_a at_xs prevs heights = stop (at_a.next ∙ e)
frame (low {x} {xs} h run) at_a at_xs prevs heights =
    low (let e = heights x (ground arith) in omega arith) (
      frame run at_a (λ y p. at_xs y (ground arith)) (λ y p. prevs y (ground arith))
        (λ y p. heights y (ground arith)))
frame (high {x} {xs} h next span prev run) at_a at_xs prevs heights =
    high (let e = heights x (ground arith) in omega arith) (at_a.next ∙ next) (at_a.span ∙ span)
      (prevs x (ground arith) ∙ prev)
      (frame run (at_xs x (ground arith)) (λ y p. at_xs y (ground arith))
        (λ y p. prevs y (ground arith)) (λ y p. heights y (ground arith)))

-- The run from a node of it.
pub Run-behind :
    {level : Level} {height : ℕ → ℕ} {l a d : ℕ} (us : List ℕ) {x : ℕ} {vs : List ℕ}
    → Run level height l a d (us ++ (x ∷ vs))
    → l < height x
    → Run level height l x 0 vs
Run-behind [] (low h run) p = absurd (omega arith)
Run-behind [] (high h next span prev run) p = run
Run-behind (u ∷ us) (low h run) p = Run-behind us run p
Run-behind (u ∷ us) (high h next span prev run) p = Run-behind us run p

-- Where a run goes next: nowhere, or to one of its nodes.
pub Run-next :
    {level : Level} {height : ℕ → ℕ} {l a d : ℕ} {xs : List ℕ}
    → Run level height l a d xs
    → (level.next a ≡ null) ⊎ (has (level.next a) xs ≡ true)
Run-next (stop e) = inl e
Run-next (low h run) = elim (Run-next run) [ inl e ↦ inl e | inr p ↦ inr (ground arith) ]
Run-next (high {a} {x} h next span prev run) = inr (ground arith)

pub spot-nil : (height : ℕ → ℕ) (l a d : ℕ) → spot height l a d [] ≡ (a, d)
unfolding spot
spot-nil height l a d = refl

pub spot-low :
    (height : ℕ → ℕ) (l a d : ℕ) (x : ℕ) (xs : List ℕ)
    → height x ≤ l
    → spot height l a d (x ∷ xs) ≡ spot height l a (suc d) xs
unfolding spot
spot-low height l a d x xs h = let e : ltb l (height x) ≡ false = ground arith in rw e refl

pub spot-high :
    (height : ℕ → ℕ) (l a d : ℕ) (x : ℕ) (xs : List ℕ)
    → l < height x
    → spot height l a d (x ∷ xs) ≡ spot height l x 0 xs
unfolding spot
spot-high height l a d x xs h = let e : ltb l (height x) ≡ true = ground arith in rw e refl

-- The run behind the spot.
pub Run-spot :
    {level : Level} {height : ℕ → ℕ} {l a d : ℕ} (pre : List ℕ) {post : List ℕ}
    → Run level height l a d (pre ++ post)
    → let (b, gap) = spot height l a d pre in Run level height l b gap post
Run-spot {height} {l} {a} {d} [] run = unfold spot in run
Run-spot {height} {l} {a} {d} (x ∷ pre) (low h run) =
    rw (spot-low height l a d x pre h) (Run-spot pre run)
Run-spot {height} {l} {a} {d} (x ∷ pre) (high h next span prev run) =
    rw (spot-high height l a d x pre h) (Run-spot pre run)

has-behind : (b a x : ℕ) (xs : List ℕ) → has b (x ∷ xs) ≡ true → has b (a ∷ x ∷ xs) ≡ true
has-behind b a x xs h = ground arith

has-second : (b a x : ℕ) (xs : List ℕ) → has b (a ∷ xs) ≡ true → has b (a ∷ x ∷ xs) ≡ true
has-second b a x xs h = ground arith

pub has-inside : (y a : ℕ) (xs : List ℕ) → has y xs ≡ true → has y (a ∷ xs) ≡ true
has-inside y a xs p = ground arith

-- The spot is the start or one of the nodes.
pub has-spot :
    (height : ℕ → ℕ) (l a d : ℕ) (xs : List ℕ) → has (spot height l a d xs).0 (a ∷ xs) ≡ true
has-spot height l a d [] = unfold spot in ground arith
has-spot height l a d (x ∷ xs) = elim (Bool-cases (ltb l (height x))) [
  | inl higher ↦
      ap (λ p. has p.0 (a ∷ x ∷ xs)) (spot-high height l a d x xs (ltb→lt _ _ higher))
      ∙ has-behind _ a x xs (has-spot height l x 0 xs)
  | inr lower ↦
      ap (λ p. has p.0 (a ∷ x ∷ xs)) (spot-low height l a d x xs (not_ltb→le _ _ lower))
      ∙ has-second _ a x xs (has-spot height l a (suc d) xs)
]

-- Two nodes of which one is in a list and the other is not.
pub has-apart : (a b : ℕ) (xs : List ℕ) → has a xs ≡ true → has b xs ≡ false → a ≢ b
has-apart a b xs h k e = ground (arith, h, rw (sym e) at k)

-- The node behind the spot is not one of those up to it.
pub Run-spot_later :
    {level : Level} {height : ℕ → ℕ} {l a d : ℕ} (pre post : List ℕ) (y : ℕ)
    → Run level height l a d (pre ++ post)
    → y ≢ null
    → has y post ≡ false
    → y ≢ level.next (spot height l a d pre).0
Run-spot_later {level} {height} {l} {a} {d} pre post y run real out e =
    elim (Run-next (Run-spot pre run)) [
      | inl n ↦ real (e ∙ n)
      | inr p ↦ has-apart (level.next (spot height l a d pre).0) y post p out (sym e)
    ]

-- Nodes that are apart from those of both parts are apart from each.
pub has-parts :
    (y : ℕ) (pre post : List ℕ)
    → has y (pre ++ post) ≡ false
    → (has y pre ≡ false) × (has y post ≡ false)
has-parts y pre post h = ground (arith, has-append y pre post)

-- A change of one level at the spot and behind it.
pub Run-through :
    {one two : Level} {height height' : ℕ → ℕ} {l a d : ℕ} (pre post post' : List ℕ)
    → Run one height l a d (pre ++ post)
    → AllDistinct (a ∷ pre)
    → ((y : ℕ) → has y (a ∷ pre) ≡ true → y ≢ (spot height l a d pre).0 → Agree one two y)
    → ((y : ℕ) → has y pre ≡ true → two.prev y ≡ one.prev y)
    → ((y : ℕ) → has y pre ≡ true → height' y ≡ height y)
    → (let (b, gap) = spot height l a d pre in
        Run one height l b gap post → Run two height' l b gap post')
    → Run two height' l a d (pre ++ post')
Run-through {height} {l} {a} {d} [] post post' run apart agree prevs heights change =
    rw (spot-nil height l a d) at change run
Run-through {height} {l} {a} {d} (y ∷ pre) post post' (low h run) apart agree prevs heights change =
    let e = spot-low height l a d y pre h in
    low (let p = heights y (ground arith) in omega arith) (
      Run-through pre post post' run (ground arith)
        (λ z p q. agree z (has-second z a y pre p) (rw e q)) (λ z p. prevs z (ground arith))
        (λ z p. heights z (ground arith)) (rw e at change))
Run-through {height} {l} {a} {d} (y ∷ pre) post post' (high h next span prev run) apart agree prevs
      heights change =
    let e = spot-high height l a d y pre h in
    let early : a ≢ (spot height l y 0 pre).0 = λ f.
      has-apart (spot height l y 0 pre).0 a (y ∷ pre) (has-spot height l y 0 pre) (ground arith)
        (sym f) in
    let same = agree a (ground arith) (rw e early) in
    high (let p = heights y (ground arith) in omega arith) (same.next ∙ next) (same.span ∙ span)
      (prevs y (ground arith) ∙ prev)
      (Run-through pre post post' run (ground arith)
        (λ z p q. agree z (has-behind z a y pre p) (rw e q)) (λ z p. prevs z (ground arith))
        (λ z p. heights z (ground arith)) (rw e at change))
