-- ===== src/Deque/Refine.antt =====
-- The deque against a list of values, over any sequence of calls, and what `sdeque_free` frees.
use simple_kit.Base.{
  ℕ, zero, suc, ◌+◌, ◌<◌, ◌≡◌, ◌≢◌, refl, sym, ap, ◌∙◌, Bool, true, false, ◌==◌, List, [], ◌∷◌,
  ◌++◌, arith, length, if◌then◌else◌, Option, none, some,
}
use simple_kit.Deque.{
  Deque, null, assign, new, push_front, push_back, pop_front, pop_back, front, back, free_loop,
  free,
}
use simple_kit.Deque.Seg.{Cells, has, Seg, nil, cons, Holds, frame}
use simple_kit.Deque.Ends.{push_front-Holds, push_back-Holds, pop_front-Holds, pop_back-Holds}

-- A client's calls; a push comes with the address that `calloc` returns.
pub data Op : Type 0 where
  add_front add_back : ℕ → ℕ → Op
  take_front take_back see_front see_back : Op

-- What a call returns: nothing, a status, or the value that it reads.
pub data Out : Type 0 where
  nothing : Out
  status : Bool → Out
  seen : Option ℕ → Out

unfoldable pub step : Op → Deque → Out × Deque
step (add_front addr v) d = (nothing, push_front addr d v)
step (add_back addr v) d = (nothing, push_back addr d v)
step take_front d = (status (pop_front d).0, (pop_front d).1)
step take_back d = (status (pop_back d).0, (pop_back d).1)
step see_front d = (seen (front d), d)
step see_back d = (seen (back d), d)

unfoldable pub run : List Op → Deque → List Out × Deque
unfolding step
run [] d = ([], d)
run (op ∷ ops) d = let r = step op d in let rest = run ops r.1 in (r.0 ∷ rest.0, rest.1)

-- The specification: a list of values.
abbrev pub first? : List ℕ → Option ℕ
first? [] = none
first? (x ∷ q) = some x

abbrev pub last? : List ℕ → Option ℕ
last? [] = none
last? (x ∷ []) = some x
last? (x ∷ y ∷ q) = last? (y ∷ q)

abbrev pub rest : List ℕ → List ℕ
rest [] = []
rest (x ∷ q) = q

abbrev pub but_last : List ℕ → List ℕ
but_last [] = []
but_last (x ∷ []) = []
but_last (x ∷ y ∷ q) = x ∷ but_last (y ∷ q)

abbrev pub some_in : List ℕ → Bool
some_in [] = false
some_in (x ∷ q) = true

abbrev pub list_step : Op → List ℕ → Out × List ℕ
list_step (add_front addr v) q = (nothing, v ∷ q)
list_step (add_back addr v) q = (nothing, q ++ v ∷ [])
list_step take_front q = (status (some_in q), rest q)
list_step take_back q = (status (some_in q), but_last q)
list_step see_front q = (seen (first? q), q)
list_step see_back q = (seen (last? q), q)

abbrev pub list_run : List Op → List ℕ → List Out × List ℕ
list_run [] q = ([], q)
list_run (op ∷ ops) q =
    let r = list_step op q in let rest = list_run ops r.1 in (r.0 ∷ rest.0, rest.1)

-- The allocator's part: an address that it gives is not null and not in use.
abbrev pub Fresh : Op → Deque → Type 0
Fresh (add_front addr v) d = (addr ≢ null) × (d.live addr ≡ false)
Fresh (add_back addr v) d = (addr ≢ null) × (d.live addr ≡ false)
Fresh op d = Unit {0}

abbrev pub AllFresh : List Op → Deque → Type 0
AllFresh [] d = Unit {0}
AllFresh (op ∷ ops) d = Fresh op d × AllFresh ops (step op d).1

abbrev pub values : Cells → List ℕ
values [] = []
values ((a, v) ∷ xs) = v ∷ values xs

-- The deque is well formed, with these values in this order.
pub record Stores (d : Deque) (q : List ℕ) : Type 0 where
  pub cells : Cells
  pub holds : Holds d cells
  pub same : values cells ≡ q

values-snoc : (xs : Cells) (a v : ℕ) → values (xs ++ (a, v) ∷ []) ≡ values xs ++ v ∷ []
values-snoc [] a v = refl
values-snoc ((b, w) ∷ xs) a v = ap (λ q. w ∷ q) (values-snoc xs a v)

but_last-snoc : (q : List ℕ) (v : ℕ) → but_last (q ++ v ∷ []) ≡ q
but_last-snoc [] v = refl
but_last-snoc (x ∷ []) v = refl
but_last-snoc (x ∷ y ∷ q) v = ap (λ l. x ∷ l) (but_last-snoc (y ∷ q) v)

last?-snoc : (q : List ℕ) (v : ℕ) → last? (q ++ v ∷ []) ≡ some v
last?-snoc [] v = refl
last?-snoc (x ∷ []) v = refl
last?-snoc (x ∷ y ∷ q) v = last?-snoc (y ∷ q) v

-- Both pointers of an empty deque are null.
empty_ends :
    {d : Deque} {last first : ℕ} → Seg d null last null first [] → (first ≡ null) × (last ≡ null)
empty_ends (nil p q) = (p, q)

module _ {d : Deque} (h : Holds d []) where
  pop_front-nil : pop_front d ≡ (false, d)
  unfolding pop_front
  pop_front-nil = let (p, q) = empty_ends h.links in rw p refl

  pop_back-nil : pop_back d ≡ (false, d)
  unfolding pop_back
  pop_back-nil = let (p, q) = empty_ends h.links in rw q refl

  front-nil : front d ≡ none
  unfolding front
  front-nil = let (p, q) = empty_ends h.links in rw p refl

  back-nil : back d ≡ none
  unfolding back
  back-nil = let (p, q) = empty_ends h.links in rw q refl

abbrev Refines : Op → Deque → List ℕ → Type 0
Refines op d q = ((step op d).0 ≡ (list_step op q).0) × Stores (step op d).1 (list_step op q).1

step_cells : (op : Op) (d : Deque) (xs : Cells) → Holds d xs → Fresh op d → Refines op d (values xs)
unfolding step
step_cells (add_front addr v) d xs h fresh = (
  refl,
  record { cells = (addr, v) ∷ xs; holds = push_front-Holds addr v fresh.0 fresh.1 h; same = refl },
)
step_cells (add_back addr v) d xs h fresh = (
  refl,
  record {
    cells = xs ++ (addr, v) ∷ [];
    holds = push_back-Holds addr v fresh.0 fresh.1 h;
    same = values-snoc xs addr v;
  },
)
step_cells take_front d [] h fresh =
    rw (pop_front-nil h) (refl, record { cells = []; holds = h; same = refl })
step_cells take_front d ((a, v) ∷ xs) h fresh =
    let (held, done, saw, freed) = pop_front-Holds h in
    (ap status done, record { cells = xs; holds = held; same = refl })
step_cells take_back d [] h fresh =
    rw (pop_back-nil h) (refl, record { cells = []; holds = h; same = refl })
step_cells take_back d ((a, v) ∷ xs) h fresh =
    let (z, held, done, saw, freed) = pop_back-Holds h in
    (
      ap status done,
      record {
        cells = z.init;
        holds = held;
        same = sym (
            ap but_last (ap values z.parts ∙ values-snoc z.init z.addr z.value)
            ∙ but_last-snoc (values z.init) z.value);
      },
    )
step_cells see_front d [] h fresh =
    (ap seen (front-nil h), record { cells = []; holds = h; same = refl })
step_cells see_front d ((a, v) ∷ xs) h fresh =
    let (held, done, saw, freed) = pop_front-Holds h in
    (ap seen saw, record { cells = (a, v) ∷ xs; holds = h; same = refl })
step_cells see_back d [] h fresh =
    (ap seen (back-nil h), record { cells = []; holds = h; same = refl })
step_cells see_back d ((a, v) ∷ xs) h fresh =
    let (z, held, done, saw, freed) = pop_back-Holds h in
    (
      ap seen (
          saw
          ∙ sym (
              ap last? (ap values z.parts ∙ values-snoc z.init z.addr z.value)
              ∙ last?-snoc (values z.init) z.value)),
      record { cells = (a, v) ∷ xs; holds = h; same = refl },
    )

-- From a well-formed deque that stores a list of values, any sequence of pushes, pops and reads at
-- both ends whose new addresses are fresh returns, call by call, what the same calls on the list
-- return, and leaves a well-formed deque that stores the list's result.
pub run-Stores :
    (ops : List Op) (d : Deque) (q : List ℕ)
    → Stores d q
    → AllFresh ops d
    → ((run ops d).0 ≡ (list_run ops q).0) × Stores (run ops d).1 (list_run ops q).1
unfolding run
run-Stores [] d q s fresh = (refl, s)
run-Stores (op ∷ ops) d q s fresh =
    let (out, next) = rw s.same at (step_cells op d s.cells s.holds fresh.0) in
    let (outs, final) = run-Stores ops (step op d).1 (list_step op q).1 next fresh.1 in
    (rw (out, outs) refl, final)

-- A new deque is well formed and empty.
pub new-Holds : (d : Deque) → Holds (new d) []
unfolding new
new-Holds d = record { links = nil refl refl; count = refl }

free_loop-has :
    (fuel : ℕ) {d : Deque} {last before first : ℕ} {xs : Cells} (b : ℕ)
    → Seg d null last before first xs
    → length xs < fuel
    → free_loop fuel d first b ≡ (if has b xs then false else d.live b)
unfolding free_loop
free_loop-has zero b s f = absurd (omega arith)
free_loop-has (suc fuel) b (nil p q) f = rw p refl
free_loop-has (suc fuel) {d} b (cons {a} {xs} p out s) f =
    let gone = record d { live = assign d.live a false } in
    let real = p.real in
    let got : (a == null) ≡ false = ground arith in
    let next = frame {e = gone} s λ c h.
      let other : (a == c) ≡ false = ground arith in
      record { live = ground arith; value = refl; prev = refl; next = refl } in
    rw (got, p.next) (free_loop-has fuel b next (omega arith) ∙ ground arith)

-- sdeque_free of a well-formed deque ends, frees every node of the deque and leaves every other
-- allocation alone.
pub free-has :
    (d : Deque) (xs : Cells) (b : ℕ)
    → Holds d xs
    → free d b ≡ (if has b xs then false else d.live b)
unfolding free
free-has d xs b h = free_loop-has (d.num_nodes + 1) b h.links (omega (arith, h.count))
