-- ===== src/Stream.antt =====
-- simple_io/sio_stream.c and sio_stream.h: TCP streams with an input and an output buffer.
-- What the system answers to `socket`, `connect`, `read`, `write` and the like is an argument of
-- each operation. `sfd` holds what the event loop has registered: the callback and the watched
-- events; `none` is NULL. What reaches the socket, and the calls of the user's callback, are part
-- of each result. The callback itself is the user's, and is not run here.
pub mod Output
pub mod Watch
pub mod Effects
pub mod Session
pub mod Invariant
pub mod Tests
use simple_kit.Base.{
  ℕ, ◌+◌, ◌-◌, Bool, true, false, ◌||◌, not, Option, none, some, is_none, ◌&&◌, List, [], ◌∷◌, ◌==◌,
  if◌then◌else◌, length, take, drop,
}
use simple_kit.Base.Memory.{Memory, read, write}
use simple_kit.Buffer.{Buffer, new, reserve, seek, append, erase, live_length, live, space}

pub data StreamType : Type 0 where
  listening connecting normal : StreamType

-- `_sio_accept_callback`, `_sio_connect_callback`, `_sio_stream_callback`.
pub data Callback : Type 0 where
  on_accept on_connect on_stream : Callback

pub record Registration : Type 0 where
  pub callback : Callback
  pub watch_read : Bool
  pub watch_write : Bool

pub record Stream : Type 0 where
  pub sock : ℕ
  pub type : StreamType
  pub sfd : Option Registration
  pub inbuf : Buffer
  pub outbuf : Buffer

-- The events of the user's callback.
pub data StreamEvent : Type 0 where
  accepted connected arrived failed closed : StreamEvent

-- The return of `write(2)`: -1 with an error to report, -1 with EINTR or EAGAIN, or a number.
pub data WriteResult : Type 0 where
  error again : WriteResult
  wrote : ℕ → WriteResult

-- The return of `read(2)`, with the bytes that it put into the space.
pub data ReadResult : Type 0 where
  error again end : ReadResult
  got : List ℕ → ReadResult

-- `sio_add`: a registration that watches nothing.
abbrev pub add : Callback → Registration
add callback = record { callback = callback; watch_read = false; watch_write = false }

-- `sio_watch_write` and `sio_unwatch_write`; NULL is a fault, which the callers note.
abbrev pub set_watch_write : Bool → Option Registration → Option Registration
set_watch_write on none = none
set_watch_write on (some r) = some (record r { watch_write = on })

-- `_sio_stream_new`; the two blocks are those of the buffers.
abbrev pub new_stream : Memory → Memory → ℕ → StreamType → Option Registration → Stream
new_stream in_block out_block sock type sfd = record {
  sock = sock;
  type = type;
  sfd = sfd;
  inbuf = new in_block;
  outbuf = new out_block;
}

-- What `sio_add` registers for a stream of each type.
abbrev pub registration : StreamType → Bool → Registration
registration listening pending = record (add on_accept) { watch_read = true }
registration connecting pending = record (add on_connect) { watch_write = true }
registration normal pending = record (add on_stream) { watch_read = true; watch_write = pending }

-- What `connect(2)` answers.
pub data ConnectResult : Type 0 where
  done in_progress refused : ConnectResult

-- `sio_stream_connect`; `sock` is the socket, `none` for -1, and `can_add` whether `sio_add` works.
unfoldable pub connect : Memory → Memory → Option ℕ → ConnectResult → Bool → Option Stream
connect in_block out_block none answer can_add = none
connect in_block out_block (some sock) refused can_add = none
connect in_block out_block (some sock) answer can_add =
    if can_add
    then some (new_stream in_block out_block sock connecting (some (registration connecting false)))
    else none

-- `sio_stream_listen`; `can_bind` is whether `bind` works.
unfoldable pub listen : Memory → Memory → Option ℕ → Bool → Bool → Option Stream
listen in_block out_block none can_bind can_add = none
listen in_block out_block (some sock) can_bind can_add =
    if can_bind
    then (if can_add
        then some
            (new_stream in_block out_block sock listening (some (registration listening false)))
        else none)
    else none

-- `_sio_accept_callback`: the new stream and the event for it, if `accept` and `sio_add` work.
unfoldable pub accept_ready : Memory → Memory → Option ℕ → Bool → Option Stream × List StreamEvent
accept_ready in_block out_block none can_add = (none, [])
accept_ready in_block out_block (some sock) can_add =
    if can_add
    then (
      some (new_stream in_block out_block sock normal (some (registration normal false))),
      accepted ∷ [],
    )
    else (none, [])

unfoldable pub detach : Stream → Stream
detach s = record s { sfd = none }

-- `true` is the return of 0.
unfoldable pub attach : Bool → Stream → Bool × Stream
attach can_add s =
    if can_add
    then (true, record s { sfd = some (registration s.type (not (live_length s.outbuf == 0))) })
    else (false, record s { sfd = none })

-- `_sio_stream_read`, and what `_sio_stream_callback` makes of its return.
unfoldable pub read_ready : Memory → ReadResult → Stream → List StreamEvent × Stream
read_ready fresh error s = (failed ∷ [], record s { inbuf = reserve fresh s.inbuf 4096 })
read_ready fresh again s = ([], record s { inbuf = reserve fresh s.inbuf 4096 })
read_ready fresh end s = (closed ∷ [], record s { inbuf = reserve fresh s.inbuf 4096 })
read_ready fresh (got bytes) s =
    let b = reserve fresh s.inbuf 4096 in
    let filled = record b { buffer = write b.buffer b.end bytes } in
    (arrived ∷ [], record s { inbuf = seek filled (length bytes) })

-- What an operation on the output gives: its return, the bytes that reach the socket, the events,
-- and whether it gave NULL to `sio_watch_write` or `sio_unwatch_write`, which read through it.
pub record Written : Type 0 where
  pub ok : Bool
  pub faults : Bool
  pub sent : List ℕ
  pub events : List StreamEvent
  pub stream : Stream

-- `_sio_stream_write`, and what `_sio_stream_callback` makes of its return.
unfoldable pub write_ready : Memory → WriteResult → Stream → Written
write_ready fresh error s = record {
  ok = false;
  faults = false;
  sent = [];
  events = failed ∷ [];
  stream = s;
}
write_ready fresh again s = record { ok = true; faults = false; sent = []; events = []; stream = s }
write_ready fresh (wrote bytes) s =
    let (at, size) = live s.outbuf in
    let left = record s { outbuf = erase fresh s.outbuf bytes } in
    record {
      ok = true;
      faults = bytes == size && is_none left.sfd;
      sent = take bytes (read s.outbuf.buffer at size);
      events = [];
      stream = if bytes == size then record left { sfd = set_watch_write false left.sfd } else left;
    }

-- `_sio_connect_callback` on SIO_WRITE; `good` is whether `getsockopt` shows no error.
unfoldable pub connect_ready : Bool → Stream → List StreamEvent × Stream
connect_ready good s =
    if good
    then (
      connected ∷ [],
      record s {
        type = normal;
        sfd = elim s.sfd [
          | none ↦ none
          | some r ↦ some (record r {
            callback = on_stream;
            watch_read = true;
            watch_write = if live_length s.outbuf == 0 then false else r.watch_write;
          })
        ];
      },
    )
    else (failed ∷ [], s)

-- The bytes behind those that the socket took wait in the output buffer.
abbrev pub queue_rest : Memory → ℕ → List ℕ → Stream → Written
queue_rest fresh taken bytes s = record {
  ok = true;
  faults = is_none s.sfd;
  sent = take taken bytes;
  events = [];
  stream = record s {
    outbuf = append fresh s.outbuf (drop taken bytes);
    sfd = set_watch_write true s.sfd;
  };
}

abbrev pub is_connecting : StreamType → Bool
is_connecting connecting = true
is_connecting _ = false

-- The call of `write` with nothing waiting.
abbrev pub send_now : Memory → WriteResult → Stream → List ℕ → Written
send_now fresh error s bytes = record {
  ok = false;
  faults = false;
  sent = [];
  events = [];
  stream = s;
}
send_now fresh again s bytes = queue_rest fresh 0 bytes s
send_now fresh (wrote n) s bytes =
    if n == length bytes
    then record { ok = true; faults = false; sent = bytes; events = []; stream = s }
    else queue_rest fresh n bytes s

-- `sio_stream_write`. `answer` is what `write` returns, if it is called.
unfoldable pub send : Memory → WriteResult → Stream → List ℕ → Written
send fresh answer s bytes =
    if not (live_length s.outbuf == 0) || is_connecting s.type
    then record {
      ok = true;
      faults = false;
      sent = [];
      events = [];
      stream = record s { outbuf = append fresh s.outbuf bytes };
    }
    else send_now fresh answer s bytes

unfoldable pub pending : Stream → ℕ
pending s = live_length s.outbuf
