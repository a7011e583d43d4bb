-- ===== src/Loop/Kept.antt =====
-- simple_io/sio_epoll.c: what the calls into the loop keep while it handles events.
use simple_kit.Base.{
  ℕ, suc, ◌≤◌, ◌≡◌, refl, ap, ◌∙◌, Bool, true, false, ◌&&◌, ◌==◌, if◌then◌else◌, List, [], ◌∷◌,
  ◌++◌, length, length-append, arith, Bool-cases, inl, inr,
}
use simple_kit.Skiplist.Run.{has, AllDistinct, has-append}
use simple_kit.Loop.{
  Sio, Call, on_fd, on_timer, Action, adds, sets, dels, watches_write, watches_read, starts, stops,
  perform, perform_all, add, set, del, watch_events, set_watch_write, set_watch_read, start_timer,
  stop_timer,
}
use simple_kit.Loop.Round.{callback}

-- `calloc` gives an address that is not in use, and the user takes away what is there, once.
abbrev pub IsAllowed : Action → Sio → Type 0
IsAllowed (adds sfd fd callback arg ok) s = s.live sfd ≡ false
IsAllowed (dels sfd) s = (s.live sfd ≡ true) × ((s.fds sfd).is_del ≡ false)
IsAllowed _ s = Unit {0}

abbrev pub AllAllowed : List Action → Sio → Type 0
AllAllowed [] s = Unit {0}
AllAllowed (a ∷ actions) s = IsAllowed a s × AllAllowed actions (perform a s)

-- How often an `sio_fd` has been called.
abbrev pub calls_of : ℕ → List Call → ℕ
calls_of x [] = 0
calls_of x (on_fd sfd fd event callback arg ∷ calls) =
    if sfd == x then suc (calls_of x calls) else calls_of x calls
calls_of x (on_timer timer callback arg ∷ calls) = calls_of x calls

-- In the loop over the events: what has been taken away is put off, once each, inside the array.
pub record IsLooping (s : Sio) : Type 0 where
  pub looping : s.is_in_loop ≡ true
  pub gone : (x : ℕ) → (s.live x && (s.fds x).is_del) ≡ has x s.deferred
  pub once : AllDistinct s.deferred
  pub fits : length s.deferred ≤ s.deferred_capacity

-- From one state of the loop to a later one.
pub record Kept (s r : Sio) : Type 0 where
  pub good : IsLooping r
  pub live : (x : ℕ) → s.live x ≡ true → r.live x ≡ true
  pub gone : (x : ℕ) → s.live x ≡ true → (s.fds x).is_del ≡ true → (r.fds x).is_del ≡ true
  pub silent :
      (x : ℕ) → s.live x ≡ true → (s.fds x).is_del ≡ true → calls_of x r.calls ≡ calls_of x s.calls

pub Kept-refl : (s : Sio) → IsLooping s → Kept s s
Kept-refl s good = record {
  good = good;
  live = λ x p. p;
  gone = λ x p q. q;
  silent = λ x p q. refl;
}

pub Kept-trans : (s t r : Sio) → Kept s t → Kept t r → Kept s r
Kept-trans s t r one two = record {
  good = two.good;
  live = λ x p. two.live x (one.live x p);
  gone = λ x p q. two.gone x (one.live x p) (one.gone x p q);
  silent = λ x p q. two.silent x (one.live x p) (one.gone x p q) ∙ one.silent x p q;
}

AllDistinct-snoc :
    (xs : List ℕ) (x : ℕ) → AllDistinct xs → has x xs ≡ false → AllDistinct (xs ++ (x ∷ []))
AllDistinct-snoc [] x apart out = (refl, tt)
AllDistinct-snoc (y ∷ xs) x (first, apart) out =
    (ground (arith, has-append y xs (x ∷ [])), AllDistinct-snoc xs x apart (ground arith))

add-Kept :
    (sfd fd callback arg : ℕ) (ok : Bool) (s : Sio)
    → IsLooping s
    → s.live sfd ≡ false
    → Kept s (add sfd fd callback arg ok s)
unfolding add
add-Kept sfd fd callback arg false s good fresh = Kept-refl s good
add-Kept sfd fd callback arg true s good fresh = record {
  good = record {
    looping = good.looping;
    gone = λ x. elim (Bool-cases (sfd == x)) [
      | inl here ↦
          let e : sfd ≡ x = ground arith in
          let out = good.gone x in rw here (ground (arith, rw e at fresh))
      | inr other ↦ rw other (good.gone x)
    ];
    once = good.once;
    fits = good.fits;
  };
  live = λ x p. ground arith;
  gone = λ x p q. elim (Bool-cases (sfd == x)) [
    | inl here ↦ let e : sfd ≡ x = ground arith in absurd (ground (arith, rw e at fresh))
    | inr other ↦ rw other q
  ];
  silent = λ x p q. refl;
}

-- A change of one `sio_fd` that leaves `is_del` alone.
touch-Kept :
    (s r : Sio)
    → IsLooping s
    → r.is_in_loop ≡ s.is_in_loop
    → r.deferred ≡ s.deferred
    → r.deferred_capacity ≡ s.deferred_capacity
    → r.live ≡ s.live
    → r.calls ≡ s.calls
    → ((x : ℕ) → (r.fds x).is_del ≡ (s.fds x).is_del)
    → Kept s r
touch-Kept s r good loop deferred capacity live calls del = record {
  good = record {
    looping = loop ∙ good.looping;
    gone = λ x. rw (live, del x, deferred) (good.gone x);
    once = rw deferred good.once;
    fits = rw (deferred, capacity) good.fits;
  };
  live = λ x p. rw live p;
  gone = λ x p q. del x ∙ q;
  silent = λ x p q. ap (calls_of x) calls;
}

del-Kept :
    (sfd : ℕ) (s : Sio)
    → IsLooping s
    → s.live sfd ≡ true
    → (s.fds sfd).is_del ≡ false
    → Kept s (del sfd s)
unfolding del
del-Kept sfd s good there still =
    let out = good.gone sfd in
    let size = length-append s.deferred (sfd ∷ []) in
    let fits = good.fits in
    let loop = good.looping in
    rw loop (record {
      good = record {
        looping = refl;
        gone = λ x. elim (Bool-cases (sfd == x)) [
          | inl here ↦
              let e : sfd ≡ x = ground arith in
              let there' : s.live x ≡ true = rw e at there in
              rw (here, there', has-append x s.deferred (sfd ∷ [])) (ground arith)
          | inr other ↦ rw (other, has-append x s.deferred (sfd ∷ [])) (ground (arith, good.gone x))
        ];
        once = AllDistinct-snoc s.deferred sfd good.once (ground arith);
        fits = ground arith;
      };
      live = λ x p. p;
      gone = λ x p q. ground arith;
      silent = λ x p q. refl;
    })

perform-Kept : (a : Action) (s : Sio) → IsLooping s → IsAllowed a s → Kept s (perform a s)
unfolding perform set set_watch_write set_watch_read watch_events start_timer stop_timer
perform-Kept (adds sfd fd callback arg ok) s good allowed =
    add-Kept sfd fd callback arg ok s good allowed
perform-Kept (sets sfd callback arg) s good allowed =
    touch-Kept s _ good refl refl refl refl refl (λ x. ground arith)
perform-Kept (dels sfd) s good allowed = del-Kept sfd s good allowed.0 allowed.1
perform-Kept (watches_write on sfd) s good allowed =
    touch-Kept s _ good refl refl refl refl refl (λ x. ground arith)
perform-Kept (watches_read on sfd) s good allowed =
    touch-Kept s _ good refl refl refl refl refl (λ x. ground arith)
perform-Kept (starts now timer timeout_ms callback arg) s good allowed =
    touch-Kept s _ good refl refl refl refl refl (λ x. refl)
perform-Kept (stops timer) s good allowed = touch-Kept s _ good refl refl refl refl refl (λ x. refl)

pub perform_all-Kept :
    (actions : List Action) (s : Sio)
    → IsLooping s
    → AllAllowed actions s
    → Kept s (perform_all actions s)
unfolding perform_all
perform_all-Kept [] s good allowed = Kept-refl s good
perform_all-Kept (a ∷ actions) s good (allowed, rest) =
    let one = perform-Kept a s good allowed in
    Kept-trans s (perform a s) _ one (perform_all-Kept actions (perform a s) one.good rest)
