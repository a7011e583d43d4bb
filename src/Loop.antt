-- ===== src/Loop.antt =====
-- simple_io/sio_epoll.c and sio.h: the event loop.
-- An `sio_fd` is an object at an address. What the system answers is an argument: the clock, the
-- return of `epoll_ctl`, the events of `epoll_wait`. A callback is the user's: it is a list of calls
-- into the loop, `user`, which may depend on the whole state and on all callbacks so far. The calls
-- of `epoll_ctl` and of the user are logged, the last one first.
pub mod Round
pub mod Timers
pub mod Kept
pub mod Events
pub mod Idle
pub mod Start
mod Tests
use simple_kit.Base.{
  ℕ, zero, suc, ◌+◌, ◌-◌, ◌==◌, Bool, true, false, ◌&&◌, ◌||◌, not, Option, none, some,
  if◌then◌else◌, leb, List, [], ◌∷◌, ◌++◌, length,
}
use simple_kit.Base.Words.{add64}
use simple_kit.Timer.{Manager, update}
use simple_kit.Timer

pub data Event : Type 0 where
  read write error : Event

pub record SioFd : Type 0 where
  pub fd : ℕ
  pub watch_read : Bool
  pub watch_write : Bool
  pub user_callback : ℕ
  pub user_arg : ℕ
  pub is_del : Bool

-- `epoll_ctl`, with the watched events.
pub data Control : Type 0 where
  added : ℕ → ℕ → Control
  modified : ℕ → ℕ → Bool → Bool → Control
  deleted : ℕ → Control

-- A call of a callback, with its argument.
pub data Call : Type 0 where
  on_fd : ℕ → ℕ → Event → ℕ → ℕ → Call
  on_timer : ℕ → ℕ → ℕ → Call

-- `deferred` is `deferred_to_close` up to `deferred_count`.
pub record Sio : Type 0 where
  pub is_in_loop : Bool
  pub deferred : List ℕ
  pub deferred_capacity : ℕ
  pub fds : ℕ → SioFd
  pub live : ℕ → Bool
  pub wake_sfd : ℕ
  pub st_mgr : Manager
  pub timer_callback : ℕ → ℕ
  pub timer_arg : ℕ → ℕ
  pub controls : List Control
  pub calls : List Call

abbrev pub assign {ℓ} : {A : Type ℓ} → (ℕ → A) → ℕ → A → ℕ → A
assign f p v q = if p == q then v else f q

abbrev pub set_fd : ℕ → SioFd → Sio → Sio
set_fd sfd f s = record s { fds = assign s.fds sfd f }

-- `sio_add`, where `calloc` returns `sfd` and `ok` says whether `epoll_ctl` returned 0.
unfoldable pub add : ℕ → ℕ → ℕ → ℕ → Bool → Sio → Sio
add sfd fd callback arg ok s =
    if ok
    then record s {
      fds = assign s.fds sfd (record {
        fd = fd;
        watch_read = false;
        watch_write = false;
        user_callback = callback;
        user_arg = arg;
        is_del = false;
      });
      live = assign s.live sfd true;
      controls = added fd sfd ∷ s.controls;
    }
    else s

unfoldable pub set : ℕ → ℕ → ℕ → Sio → Sio
set sfd callback arg s =
    set_fd sfd (record (s.fds sfd) { user_callback = callback; user_arg = arg }) s

unfoldable pub del : ℕ → Sio → Sio
del sfd s =
    let told = record s { controls = deleted (s.fds sfd).fd ∷ s.controls } in
    if s.is_in_loop
    then record told {
      fds = assign s.fds sfd (record (s.fds sfd) { is_del = true });
      deferred_capacity =
          if length s.deferred == s.deferred_capacity
          then s.deferred_capacity + 1
          else s.deferred_capacity;
      deferred = s.deferred ++ (sfd ∷ []);
    }
    else record told { live = assign s.live sfd false }

-- `_sio_watch_events`, when `watch_events` has been set.
unfoldable pub watch_events : ℕ → SioFd → Sio → Sio
watch_events sfd f s = record s {
  fds = assign s.fds sfd f;
  controls = modified f.fd sfd f.watch_read f.watch_write ∷ s.controls;
}

-- `sio_watch_write` and `sio_unwatch_write`, and the two for reading.
unfoldable pub set_watch_write : Bool → ℕ → Sio → Sio
unfolding watch_events
set_watch_write on sfd s = watch_events sfd (record (s.fds sfd) { watch_write = on }) s

unfoldable pub set_watch_read : Bool → ℕ → Sio → Sio
unfolding watch_events
set_watch_read on sfd s = watch_events sfd (record (s.fds sfd) { watch_read = on }) s

unfoldable pub start_timer : ℕ → ℕ → ℕ → ℕ → ℕ → Sio → Sio
start_timer now timer timeout_ms callback arg s = record s {
  timer_callback = assign s.timer_callback timer callback;
  timer_arg = assign s.timer_arg timer arg;
  st_mgr =
      Timer.insert
        (record (s.st_mgr) { expire = update s.st_mgr.expire timer (add64 now timeout_ms) }) timer;
}

unfoldable pub stop_timer : ℕ → Sio → Sio
stop_timer timer s = record s { st_mgr = Timer.remove s.st_mgr timer }

-- `sio_new` at `self`, whose `calloc` for the pipe's end `fd` returns `sfd`; `wakeup` is
-- `_sio_wakeup_callback`. The three Booleans say whether `epoll_create`, `pipe` and `epoll_ctl`
-- succeed; timers and their fields are the user's.
unfoldable pub new : ℕ → ℕ → ℕ → ℕ → Bool → Bool → Bool → (ℕ → ℕ) → (ℕ → ℕ) → Option Sio
unfolding add set_watch_read
new self sfd fd wakeup epoll_ok pipe_ok add_ok index expire =
    let zeroed : SioFd = record {
      fd = 0;
      watch_read = false;
      watch_write = false;
      user_callback = 0;
      user_arg = 0;
      is_del = false;
    } in
    let empty : Sio = record {
      is_in_loop = false;
      deferred = [];
      deferred_capacity = 0;
      fds = λ p. zeroed;
      live = λ p. false;
      wake_sfd = sfd;
      st_mgr = Timer.new index expire;
      timer_callback = λ t. 0;
      timer_arg = λ t. 0;
      controls = [];
      calls = [];
    } in
    if epoll_ok && pipe_ok && add_ok
    then some (set_watch_read true sfd (add sfd fd wakeup self add_ok empty))
    else none

-- `sio_free`: which objects are still allocated.
unfoldable pub free : Sio → ℕ → Bool
unfolding del
free s = (del s.wake_sfd s).live

-- What a callback can do with the loop.
pub data Action : Type 0 where
  adds : ℕ → ℕ → ℕ → ℕ → Bool → Action
  sets : ℕ → ℕ → ℕ → Action
  dels : ℕ → Action
  watches_write watches_read : Bool → ℕ → Action
  starts : ℕ → ℕ → ℕ → ℕ → ℕ → Action
  stops : ℕ → Action

unfoldable pub perform : Action → Sio → Sio
perform (adds sfd fd callback arg ok) s = add sfd fd callback arg ok s
perform (sets sfd callback arg) s = set sfd callback arg s
perform (dels sfd) s = del sfd s
perform (watches_write on sfd) s = set_watch_write on sfd s
perform (watches_read on sfd) s = set_watch_read on sfd s
perform (starts now timer timeout_ms callback arg) s =
    start_timer now timer timeout_ms callback arg s
perform (stops timer) s = stop_timer timer s

unfoldable pub perform_all : List Action → Sio → Sio
perform_all [] s = s
perform_all (a ∷ actions) s = perform_all actions (perform a s)
