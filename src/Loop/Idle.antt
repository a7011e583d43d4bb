-- ===== src/Loop/Idle.antt =====
-- simple_io/sio_epoll.c, `sio_run`: between two rounds nothing is put off.
use simple_kit.Base.{
  ℕ, zero, suc, ◌≡◌, refl, Bool, true, false, ◌&&◌, ◌==◌, leb, none, some, Option-cases, List, [],
  ◌∷◌, arith, Bool-cases, inl, inr,
}
use simple_kit.Timer
use simple_kit.Timer.Order.{IsValid}
use simple_kit.Timer.Calls.{new-IsValid}
use simple_kit.Loop.{
  Sio, Call, Action, adds, sets, dels, watches_write, watches_read, starts, stops, perform,
  perform_all, new, free, add, set, del, watch_events, set_watch_write, set_watch_read, start_timer,
  stop_timer,
}
use simple_kit.Loop.Round.{Ready, callback, timer_loop, timer_run, handle, run}
use simple_kit.Loop.Timers.{called, timer_loop-none, timer_loop-early, timer_loop-due}
use simple_kit.Loop.Kept.{IsAllowed, AllAllowed, IsLooping}
use simple_kit.Loop.Events.{round-Kept}

-- Outside the loop over the events: nothing that has been taken away is still allocated.
pub record IsIdle (s : Sio) : Type 0 where
  pub outside : s.is_in_loop ≡ false
  pub empty : s.deferred ≡ []
  pub gone : (x : ℕ) → s.live x ≡ true → (s.fds x).is_del ≡ false

-- A new loop is idle and has one `sio_fd`, that of the pipe, and `sio_free` gives it back.
pub new_lem :
    (self sfd fd wakeup : ℕ) (epoll_ok pipe_ok add_ok : Bool) (index expire : ℕ → ℕ)
    → elim (new self sfd fd wakeup epoll_ok pipe_ok add_ok index expire) as (λ _. Type 0) [
      | none ↦ (epoll_ok && pipe_ok && add_ok) ≡ false
      | some s ↦
          IsIdle s
          × IsValid s.st_mgr
          × ((x : ℕ) → s.live x ≡ (sfd == x))
          × ((x : ℕ) → free s x ≡ false)
    ]
unfolding new add set_watch_read watch_events free del
new_lem self sfd fd wakeup true true true index expire = (
  record { outside = refl; empty = refl; gone = λ x p. ground arith },
  (new-IsValid index expire).0,
  λ x. ground arith,
  λ x. ground arith,
)
new_lem self sfd fd wakeup true true false index expire = refl
new_lem self sfd fd wakeup true false add_ok index expire = refl
new_lem self sfd fd wakeup false pipe_ok add_ok index expire = refl

perform-IsIdle : (a : Action) (s : Sio) → IsIdle s → IsAllowed a s → IsIdle (perform a s)
unfolding perform add set del set_watch_write set_watch_read watch_events start_timer stop_timer
perform-IsIdle (adds sfd fd callback arg true) s idle allowed = record {
  outside = idle.outside;
  empty = idle.empty;
  gone = λ x p. elim (Bool-cases (sfd == x)) [
    | inl here ↦ rw here refl
    | inr other ↦ rw other (idle.gone x (rw other at p))
  ];
}
perform-IsIdle (adds sfd fd callback arg false) s idle allowed = idle
perform-IsIdle (sets sfd callback arg) s idle allowed = record {
  outside = idle.outside;
  empty = idle.empty;
  gone = λ x p. ground (arith, idle.gone x p);
}
perform-IsIdle (dels sfd) s idle allowed =
    let out = idle.outside in
    let empty = idle.empty in
    let gone = idle.gone in
    rw out (record { outside = refl; empty = empty; gone = λ x p. gone x (ground arith) })
perform-IsIdle (watches_write on sfd) s idle allowed = record {
  outside = idle.outside;
  empty = idle.empty;
  gone = λ x p. ground (arith, idle.gone x p);
}
perform-IsIdle (watches_read on sfd) s idle allowed = record {
  outside = idle.outside;
  empty = idle.empty;
  gone = λ x p. ground (arith, idle.gone x p);
}
perform-IsIdle (starts now timer timeout_ms callback arg) s idle allowed = record {
  outside = idle.outside;
  empty = idle.empty;
  gone = idle.gone;
}
perform-IsIdle (stops timer) s idle allowed = record {
  outside = idle.outside;
  empty = idle.empty;
  gone = idle.gone;
}

pub perform_all-IsIdle :
    (actions : List Action) (s : Sio)
    → IsIdle s
    → AllAllowed actions s
    → IsIdle (perform_all actions s)
unfolding perform_all
perform_all-IsIdle [] s idle allowed = idle
perform_all-IsIdle (a ∷ actions) s idle (allowed, rest) =
    perform_all-IsIdle actions (perform a s) (perform-IsIdle a s idle allowed) rest

module _ (user : List Call → Sio → List Action)
    (allowed : (call : Call) (s : Sio)
      → AllAllowed (user (call ∷ s.calls) s) (record s { calls = call ∷ s.calls })) where
  called-IsIdle : (t : ℕ) (s : Sio) → IsIdle s → IsIdle (called user t s)
  unfolding callback
  called-IsIdle t s idle =
      perform_all-IsIdle _ _
        (record { outside = idle.outside; empty = idle.empty; gone = idle.gone }) (allowed _ _)

  timer_loop-IsIdle : (rounds now : ℕ) (s : Sio) → IsIdle s → IsIdle (timer_loop user rounds now s)
  unfolding timer_loop
  timer_loop-IsIdle zero now s idle = idle
  timer_loop-IsIdle (suc rounds) now s idle = elim (Option-cases (Timer.top s.st_mgr)) [
    | inl e ↦ rw (timer_loop-none user (suc rounds) now s e) idle
    | inr (t, e) ↦ elim (Bool-cases (leb (s.st_mgr.expire t) now)) [
      | inl due ↦
          rw (timer_loop-due user rounds now t s e due)
            (timer_loop-IsIdle rounds now (called user t s) (called-IsIdle t s idle))
      | inr early ↦ rw (timer_loop-early user (suc rounds) now t s e early) idle
    ]
  ]

  handle-IsIdle : (rs : List Ready) (s : Sio) → IsIdle s → IsIdle (handle user rs s)
  unfolding handle
  handle-IsIdle [] s idle = idle
  handle-IsIdle (r ∷ rs) s idle =
      let looping : IsLooping (record s { is_in_loop = true }) = record {
        looping = refl;
        gone = λ x. rw idle.empty (ground (arith, idle.gone x));
        once = rw idle.empty tt;
        fits = rw idle.empty (omega arith);
      } in
      let (kept, made, freed) =
        round-Kept user allowed (r ∷ rs) (record s { is_in_loop = true }) looping in
      record { outside = refl; empty = refl; gone = λ x p. ground (arith, freed x) }

  -- If the loop is idle - not in its loop over the events, nothing put off, and no sio_fd that was
  -- taken away still allocated - and all callbacks only take away what is there and calloc gives
  -- addresses not in use, then after sio_run, with any answers of the clock and of epoll_wait, the
  -- loop is idle again.
  pub run-IsIdle :
      (now later : ℕ) (wait : ℕ → List Ready) (s : Sio)
      → IsIdle s
      → IsIdle (run user now later wait s)
  unfolding run timer_run
  run-IsIdle now later wait s idle =
      handle-IsIdle _ _ (timer_loop-IsIdle (Timer.size s.st_mgr) now s idle)
