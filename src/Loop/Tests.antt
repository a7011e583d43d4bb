-- ===== src/Loop/Tests.antt =====
-- Runs of the event loop.
use simple_kit.Base.{
  ℕ, ◌+◌, ◌≡◌, refl, true, false, ◌&&◌, ◌||◌, not, ◌*◌, ◌==◌, if◌then◌else◌, List, [], ◌∷◌, arith,
  Bool-cases, inl, inr,
}
use simple_kit.Timer.{Manager, insert, adjust_heap}
use simple_kit.Timer
use simple_kit.Timer.Order.{IsValid, member}
use simple_kit.Timer.Calls.{new-IsValid, insert-Inserted}
use simple_kit.Loop.{
  Sio, SioFd, Event, Call, on_fd, Action, dels, watches_write, perform, perform_all, del,
  watch_events, set_watch_write, start_timer,
}
use simple_kit.Loop.Round.{
  Ready, release, callback, dispatch, dispatch_all, timer_loop, timer_run, calc_timeout, run,
}
use simple_kit.Loop.Start.{start_timer-fires}
use simple_kit.Loop.Timers.{fires, Fired, timer_run-Fired, Waits, calc_timeout-Waits}
use simple_kit.Loop.Kept.{AllAllowed, Kept}
use simple_kit.Loop.Events.{Calls, round-Kept}
use simple_kit.Loop.Idle.{IsIdle, run-IsIdle}

-- A user who takes `sio_fd` 5 away while it is there.
abbrev taker : List Call → Sio → List Action
taker calls s = if s.live 5 && not (s.fds 5).is_del then dels 5 ∷ [] else []

taker-AllAllowed :
    (call : Call) (s : Sio)
    → AllAllowed (taker (call ∷ s.calls) s) (record s { calls = call ∷ s.calls })
taker-AllAllowed call s = elim (Bool-cases (s.live 5)) [
  | inr off ↦ rw off tt
  | inl on ↦ elim (Bool-cases (s.fds 5).is_del) [
    | inl gone ↦ rw (on, gone) tt
    | inr here ↦ rw (on, here) ((on, here), tt)
  ]
]

-- Two `sio_fd` that watch for reading, inside the loop, and timers 1 and 2 for 30 and 40.
abbrev watching : ℕ → SioFd
watching p = record {
  fd = p + 100;
  watch_read = true;
  watch_write = false;
  user_callback = 1;
  user_arg = p;
  is_del = false;
}

abbrev no_timers : Manager
no_timers = Timer.new (λ t. 0) (λ t. t * 10 + 20)

abbrev one_timer : Manager
one_timer = insert no_timers 1

abbrev two_timers : Manager
two_timers = insert one_timer 2

abbrev looping : Sio
looping = record {
  is_in_loop = true;
  deferred = [];
  deferred_capacity = 0;
  fds = watching;
  live = λ p. p == 5 || p == 6;
  wake_sfd = 6;
  st_mgr = two_timers;
  timer_callback = λ t. 9;
  timer_arg = λ t. 0;
  controls = [];
  calls = [];
}

abbrev idle : Sio
idle = record looping { is_in_loop = false }

abbrev readable : ℕ → Ready
readable p = record { sfd = p; input = true; output = true; failed = true }

-- Both are ready; the callback of the first one takes 5 away, which is not called then.
taken :
    ((dispatch_all taker (readable 6 ∷ readable 5 ∷ []) looping).deferred ≡ 5 ∷ [])
    × ((dispatch_all taker (readable 6 ∷ readable 5 ∷ []) looping).calls
        ≡ on_fd 6 106 Event.error 1 6 ∷ on_fd 6 106 Event.read 1 6 ∷ [])
unfolding dispatch_all dispatch callback perform_all perform del
taken = (refl, refl)

round-Kept_example :
    Kept looping (dispatch_all taker (readable 6 ∷ readable 5 ∷ []) looping)
    × Calls taker looping (dispatch_all taker (readable 6 ∷ readable 5 ∷ []) looping)
    × ((x : ℕ)
        → let r = dispatch_all taker (readable 6 ∷ readable 5 ∷ []) looping in
          release r.deferred r.live x ≡ (r.live x && not (r.fds x).is_del))
round-Kept_example =
    round-Kept taker taker-AllAllowed (readable 6 ∷ readable 5 ∷ []) looping
      (record { looping = refl; gone = λ x. ground arith; once = tt; fits = omega arith })

run-IsIdle_example : IsIdle (run taker 35 36 (λ timeout. readable 6 ∷ readable 5 ∷ []) idle)
run-IsIdle_example =
    run-IsIdle taker taker-AllAllowed 35 36 (λ timeout. readable 6 ∷ readable 5 ∷ []) idle
      (record { outside = refl; empty = refl; gone = λ x p. refl })

two_timers-IsValid : IsValid two_timers
unfolding Timer.new insert adjust_heap
two_timers-IsValid =
    (insert-Inserted one_timer 2
      (insert-Inserted no_timers 1 (new-IsValid (λ t. 0) (λ t. t * 10 + 20)).0 (omega arith)
        refl).valid
      (omega arith) refl).valid

-- A user who watches for writing in a callback.
abbrev watcher : List Call → Sio → List Action
watcher calls s = watches_write true 5 ∷ []

timer_run-Fired_example : Fired 35 idle (timer_run watcher 35 idle)
timer_run-Fired_example = timer_run-Fired watcher (λ calls s. (tt, tt)) 35 idle two_timers-IsValid

calc_timeout-Waits_example : Waits 35 idle (calc_timeout 35 idle)
calc_timeout-Waits_example = calc_timeout-Waits 35 idle two_timers-IsValid

-- At 35 the first timer is called; the loop then waits for the second one, due at 40.
timed :
    (fires 1 (timer_run watcher 35 idle).calls ≡ 1)
    × (fires 2 (timer_run watcher 35 idle).calls ≡ 0)
    × (calc_timeout 36 (timer_run watcher 35 idle) ≡ 4)
unfolding timer_run timer_loop calc_timeout callback perform_all perform set_watch_write
    watch_events Timer.new insert adjust_heap Timer.pop Timer.top Timer.size Timer.upheap
    Timer.downheap Timer.upheap_loop Timer.downheap_loop Timer.min_index
timed = (refl, refl, refl)

-- Timer 3, started at 35 for 7 ms, has come at 50.
start_timer-fires_example :
    (fires 3 (timer_run watcher 50 (start_timer 35 3 7 9 0 idle)).calls ≡ 1)
    × (member (timer_run watcher 50 (start_timer 35 3 7 9 0 idle)).st_mgr 3 ≡ false)
unfolding Timer.new insert adjust_heap
start_timer-fires_example =
    start_timer-fires watcher 35 3 7 9 0 50 idle (λ calls s. (tt, tt)) two_timers-IsValid
      (omega arith) refl (omega arith)
