-- ===== src/Skiplist/Free.antt =====
-- simple_skiplist/slist.c, `slist_new` and `slist_free`: the beginning and the end of a skip list.
use simple_kit.Base.{
  ℕ, zero, suc, ◌+◌, ◌≤◌, ◌<◌, ◌≡◌, ◌≢◌, inl, refl, ap, ◌∙◌, Bool, true, false, ◌==◌, if◌then◌else◌,
  List, [], ◌∷◌, length, arith,
}
use simple_kit.Skiplist.{Level, Skiplist, null, assign, new, free_loop, free}
use simple_kit.Skiplist.Run.{has, Run, stop, low, high}
use simple_kit.Skiplist.Invariant.{IsValid}
use simple_kit.Skiplist.Spec.{Keeps}

pub new-Keeps : (addr time height : ℕ) → addr ≢ null → Keeps (new addr time height) []
unfolding new
new-Keeps addr time height real = (
  [],
  record {
    distinct = (ground arith, (refl, tt));
    sorted = tt;
    heights = λ x p. cc;
    bounds = (omega arith, omega arith);
    runs = λ l p. stop refl;
    tail = refl;
    counted = refl;
    small = omega arith;
    live = λ x p. ground arith;
    forward = inl refl;
    backward = inl refl;
  },
  refl,
)

free_loop-null :
    (fuel : ℕ) (level : Level) (live : ℕ → Bool) → free_loop fuel level null live ≡ live
unfolding free_loop
free_loop-null zero level live = refl
free_loop-null (suc fuel) level live = refl

free_loop-at :
    (fuel : ℕ) (level : Level) (node n : ℕ) (live : ℕ → Bool)
    → node ≢ null
    → level.next node ≡ n
    → free_loop (suc fuel) level node live ≡ free_loop fuel level n (assign live node false)
unfolding free_loop
free_loop-at fuel level node n live real e =
    let f : node == null ≡ false = ground arith in
    rw f (ap (λ m. free_loop fuel level m (assign live node false)) e)

-- The loop frees the nodes of the run and no other address.
free_loop-Run :
    {level : Level} {height : ℕ → ℕ} {a d : ℕ} (fuel : ℕ) (xs : List ℕ) (live : ℕ → Bool)
    → Run level height 0 a d xs
    → ((y : ℕ) → has y xs ≡ true → 1 ≤ height y)
    → has null (a ∷ xs) ≡ false
    → length xs + 1 < fuel
    → (y : ℕ) → free_loop fuel level a live y ≡ (if has y (a ∷ xs) then false else live y)
free_loop-Run zero xs live run tall real enough y = absurd (omega arith)
free_loop-Run {level} {a} (suc fuel) [] live (stop e) tall real enough y =
    ap (λ f. f y)
      (free_loop-at fuel level a null live (ground arith) e ∙ free_loop-null fuel level _)
    ∙ ground arith
free_loop-Run (suc fuel) (x ∷ xs) live (low h run) tall real enough y =
    let q = tall x (ground arith) in absurd (omega arith)
free_loop-Run {level} {a} (suc fuel) (x ∷ xs) live (high h next span prev run) tall real enough y =
    let rest =
      free_loop-Run fuel xs (assign live a false) run (λ z p. tall z (ground arith)) (ground arith)
        (omega arith) y in
    ap (λ f. f y) (free_loop-at fuel level a x live (ground arith) next) ∙ rest ∙ ground arith

-- slist_free of a well-formed skip list ends, frees the head and every node, and leaves every
-- other allocation alone.
pub free_lem :
    (s : Skiplist) (nodes : List ℕ)
    → IsValid s nodes
    → (y : ℕ) → free s y ≡ (if has y (s.head ∷ nodes) then false else s.live y)
unfolding free
free_lem s nodes valid y =
    let bound = valid.bounds in
    let count = valid.counted in
    free_loop-Run (s.num_nodes + 2) nodes s.live (valid.runs 0 (omega arith))
      (λ z p. (valid.heights z p).0) (ground (arith, valid.distinct)) (omega arith) y
