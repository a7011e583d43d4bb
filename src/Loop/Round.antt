-- ===== src/Loop/Round.antt =====
-- simple_io/sio_epoll.c: `_sio_timer_run`, `_sio_calc_timeout` and `sio_run`.
use simple_kit.Base.{
  ℕ, zero, suc, ◌-◌, Bool, true, false, ◌&&◌, not, none, some, if◌then◌else◌, leb, List, [], ◌∷◌,
}
use simple_kit.Timer.{Manager, update}
use simple_kit.Timer
use simple_kit.Loop.{Event, Call, on_fd, on_timer, Sio, assign, Action, perform_all}

-- An entry of `poll_events`: EPOLLIN, EPOLLOUT, and either of EPOLLHUP and EPOLLERR.
pub record Ready : Type 0 where
  pub sfd : ℕ
  pub input : Bool
  pub output : Bool
  pub failed : Bool

unfoldable pub calc_timeout : ℕ → Sio → ℕ
calc_timeout now s = elim (Timer.top s.st_mgr) [
  | none ↦ 1000
  | some timer ↦
      if leb (s.st_mgr.expire timer) now
      then 0
      else (if leb 1000 (s.st_mgr.expire timer - now) then 1000 else s.st_mgr.expire timer - now)
]

-- `free` of what the loop has put off.
unfoldable pub release : List ℕ → (ℕ → Bool) → ℕ → Bool
release [] live = live
release (sfd ∷ deferred) live = release deferred (assign live sfd false)

module _ (user : List Call → Sio → List Action) where
  -- A callback runs.
  unfoldable pub callback : Call → Sio → Sio
  callback call s = perform_all (user (call ∷ s.calls) s) (record s { calls = call ∷ s.calls })

  -- The loop of `_sio_timer_run`; the bound of its rounds is the code's.
  unfoldable pub timer_loop : ℕ → ℕ → Sio → Sio
  unfolding callback
  timer_loop zero now s = s
  timer_loop (suc rounds) now s = elim (Timer.top s.st_mgr) [
    | none ↦ s
    | some timer ↦
        let popped = record s { st_mgr = (Timer.pop s.st_mgr).1 } in
        let call = on_timer timer (s.timer_callback timer) (s.timer_arg timer) in
        let rest = timer_loop rounds now (callback call popped) in
        if leb (s.st_mgr.expire timer) now then rest else s
  ]

  unfoldable pub timer_run : ℕ → Sio → Sio
  unfolding timer_loop
  timer_run now s = timer_loop (Timer.size s.st_mgr) now s

  -- The call of an event's callback.
  abbrev pub notify : ℕ → Event → Sio → Sio
  notify sfd event s =
      let f = s.fds sfd in callback (on_fd sfd f.fd event f.user_callback f.user_arg) s

  -- One round of the loop over `poll_events`.
  unfoldable pub dispatch : Ready → Sio → Sio
  unfolding callback
  dispatch r s =
      let f = s.fds r.sfd in
      let s1 = if r.input && f.watch_read then notify r.sfd Event.read s else s in
      let f1 = s1.fds r.sfd in
      let s2 =
        if not f1.is_del && r.output && f1.watch_write then notify r.sfd Event.write s1 else s1 in
      let f2 = s2.fds r.sfd in
      if f.is_del
      then s
      else (if not f2.is_del && r.failed then notify r.sfd Event.error s2 else s2)

  unfoldable pub dispatch_all : List Ready → Sio → Sio
  unfolding dispatch
  dispatch_all [] s = s
  dispatch_all (r ∷ rs) s = dispatch_all rs (dispatch r s)

  -- `sio_run` behind `epoll_wait`; no event stands for a return of 0 or -1.
  unfoldable pub handle : List Ready → Sio → Sio
  unfolding dispatch_all release
  handle [] s = s
  handle (r ∷ rs) s =
      let done = dispatch_all (r ∷ rs) (record s { is_in_loop = true }) in
      record done { is_in_loop = false; live = release done.deferred done.live; deferred = [] }

  -- `now` and `later` are the clock's two answers, and `wait` is `epoll_wait`.
  unfoldable pub run : ℕ → ℕ → (ℕ → List Ready) → Sio → Sio
  unfolding timer_run calc_timeout handle
  run now later wait s =
      let started = timer_run now s in handle (wait (calc_timeout later started)) started
