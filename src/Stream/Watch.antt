-- ===== src/Stream/Watch.antt =====
-- Which events of a stream the event loop watches.
use simple_kit.Base.{
  ℕ, ◌≡◌, ◌≢◌, refl, true, false, not, Option, none, some, arith, ◌==◌, if◌then◌else◌, inl, inr,
  ◌⊎◌,
}
use simple_kit.Stream.{
  StreamType, listening, connecting, normal, on_accept, on_connect, on_stream, Registration,
  registration, set_watch_write, is_connecting,
}

-- A registered stream has the callback of its type and watches what that callback waits for; with
-- bytes waiting, a connected one watches for room to write.
abbrev pub Watches : StreamType → ℕ → Option Registration → Type 0
Watches type waiting none = Unit {0}
Watches listening waiting (some r) = (r.callback ≡ on_accept) × (r.watch_read ≡ true)
Watches connecting waiting (some r) = (r.callback ≡ on_connect) × (r.watch_write ≡ true)
Watches normal waiting (some r) =
    (r.callback ≡ on_stream) × (r.watch_read ≡ true) × (waiting ≢ 0 → r.watch_write ≡ true)

pub registration-Watches :
    (type : StreamType) (waiting : ℕ)
    → Watches type waiting (some (registration type (not (waiting == 0))))
registration-Watches listening waiting = (refl, refl)
registration-Watches connecting waiting = (refl, refl)
registration-Watches normal waiting = (refl, refl, λ some_wait. ground arith)

pub set_watch_write-Watches :
    (type : StreamType) (waiting later : ℕ) (sfd : Option Registration)
    → Watches type waiting sfd
    → Watches type later (set_watch_write true sfd)
set_watch_write-Watches type waiting later none w = tt
set_watch_write-Watches listening waiting later (some r) w = w
set_watch_write-Watches connecting waiting later (some r) w = (w.0, refl)
set_watch_write-Watches normal waiting later (some r) w = (w.0, w.1, λ some_wait. refl)

-- More bytes behind those that wait already, or for a connection to come.
pub queued-Watches :
    (type : StreamType) (waiting later : ℕ) (sfd : Option Registration)
    → waiting ≢ 0 ⊎ (is_connecting type ≡ true)
    → Watches type waiting sfd
    → Watches type later sfd
queued-Watches type waiting later none waits w = tt
queued-Watches listening waiting later (some r) waits w = w
queued-Watches connecting waiting later (some r) waits w = w
queued-Watches normal waiting later (some r) (inl waits) w = (w.0, w.1, λ some_wait. w.2 waits)
queued-Watches normal waiting later (some r) (inr not_so) w = ground (arith, not_so)

pub fewer-Watches :
    (type : StreamType) (waiting later : ℕ) (sfd : Option Registration)
    → (waiting ≡ 0 → later ≡ 0)
    → Watches type waiting sfd
    → Watches type later sfd
fewer-Watches type waiting later none fewer w = tt
fewer-Watches listening waiting later (some r) fewer w = w
fewer-Watches connecting waiting later (some r) fewer w = w
fewer-Watches normal waiting later (some r) fewer w =
    (w.0, w.1, λ some_wait. w.2 λ none_wait. some_wait (fewer none_wait))

-- Nothing waits any more on a connected stream.
pub unwatched-Watches :
    (type : StreamType) (waiting later : ℕ) (sfd : Option Registration) (r : Registration)
    → sfd ≡ some r
    → r.callback ≡ on_stream
    → later ≡ 0
    → Watches type waiting sfd
    → Watches type later (set_watch_write false sfd)
unwatched-Watches type waiting later none r e c empty w = tt
unwatched-Watches listening waiting later (some q) r e c empty w = w
unwatched-Watches connecting waiting later (some q) r e c empty w = ground (arith, w.0)
unwatched-Watches normal waiting later (some q) r e c empty w =
    (w.0, w.1, λ some_wait. absurd (some_wait empty))

pub connected-Watches :
    (type : StreamType) (waiting : ℕ) (r : Registration)
    → r.callback ≡ on_connect
    → Watches type waiting (some r)
    → Watches normal waiting (
        some (record r {
          callback = on_stream;
          watch_read = true;
          watch_write = if waiting == 0 then false else r.watch_write;
        }))
connected-Watches listening waiting r c w = ground (arith, w.0)
connected-Watches connecting waiting r c w = (refl, refl, λ some_wait. ground (arith, w.1))
connected-Watches normal waiting r c w = ground (arith, w.0)
