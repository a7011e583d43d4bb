-- ===== src/Stream/Session.antt =====
-- A whole session of a stream: the calls of its user and the events of the loop, in any order,
-- with a log of the bytes on either side.
use simple_kit.Base.{
  ℕ, ◌+◌, ◌^◌, ◌≤◌, ◌<◌, ◌≡◌, Bool, true, false, ◌||◌, Option, none, some, List, [], ◌++◌, length,
  take,
}
use simple_kit.Base.Memory.{Memory}
use simple_kit.Buffer.{erase}
use simple_kit.Buffer.Laws.{IsValid, contents}
use simple_kit.Stream.{
  Stream, Registration, on_connect, on_stream, WriteResult, ReadResult, got, Written, ConnectResult,
  connect, listen, accept_ready, send, write_ready, read_ready, connect_ready, attach, detach,
  pending,
}
use simple_kit.Stream.Output.{Takes, Watchable, accepted_bytes}
use simple_kit.Stream.Watch.{Watches}

-- The stream, and the bytes so far: those of calls of `sio_stream_write` that returned 0, those
-- that the socket took, those that `read` gave, and those that the user erased from the input; and
-- whether NULL has been given where it is read through.
pub record Session : Type 0 where
  pub stream : Stream
  pub accepted : List ℕ
  pub sent : List ℕ
  pub received : List ℕ
  pub consumed : List ℕ
  pub faulted : Bool

abbrev pub start : Stream → Session
start s = record {
  stream = s;
  accepted = [];
  sent = [];
  received = [];
  consumed = [];
  faulted = false;
}

abbrev pub received_bytes : ReadResult → List ℕ
received_bytes (got bytes) = bytes
received_bytes answer = []

abbrev pub output : Session → List ℕ → Written → Session
output x bytes w = record x {
  stream = w.stream;
  accepted = x.accepted ++ accepted_bytes w bytes;
  sent = x.sent ++ w.sent;
  faulted = x.faulted || w.faults;
}

-- One call or event. An event comes only where the callback is registered and watches for it. The
-- socket takes no more than it is offered, `read` gives at most what it was asked for, the user
-- erases only what is there, a write on a detached stream finds bytes waiting or is taken whole,
-- and no more bytes wait than 64 bits count.
pub data Step (x : Session) : Session → Type 0 where
  sends :
      (fresh : Memory) (answer : WriteResult) (bytes : List ℕ)
      → length (contents x.stream.outbuf) + length bytes < 2 ^ 64
      → Takes answer (length bytes)
      → Watchable answer x.stream bytes
      → Step x (output x bytes (send fresh answer x.stream bytes))
  writes :
      (fresh : Memory) (answer : WriteResult) (r : Registration)
      → x.stream.sfd ≡ some r
      → r.callback ≡ on_stream
      → r.watch_write ≡ true
      → Takes answer (pending x.stream)
      → Step x (output x [] (write_ready fresh answer x.stream))
  reads :
      (fresh : Memory) (answer : ReadResult) (r : Registration)
      → x.stream.sfd ≡ some r
      → r.callback ≡ on_stream
      → r.watch_read ≡ true
      → length (contents x.stream.inbuf) + 4096 < 2 ^ 64
      → length (received_bytes answer) ≤ 4096
      → Step x (record x {
        stream = (read_ready fresh answer x.stream).1;
        received = x.received ++ received_bytes answer;
      })
  connects :
      (good : Bool) (r : Registration)
      → x.stream.sfd ≡ some r
      → r.callback ≡ on_connect
      → r.watch_write ≡ true
      → Step x (record x { stream = (connect_ready good x.stream).1 })
  erases :
      (fresh : Memory) (n : ℕ)
      → n ≤ length (contents x.stream.inbuf)
      → Step x (record x {
        stream = record (x.stream) { inbuf = erase fresh x.stream.inbuf n };
        consumed = x.consumed ++ take n (contents x.stream.inbuf);
      })
  detaches :
      (r : Registration) → x.stream.sfd ≡ some r → Step x (record x { stream = detach x.stream })
  attaches :
      (can_add : Bool)
      → x.stream.sfd ≡ none
      → Step x (record x { stream = (attach can_add x.stream).1 })

-- What a listening, connecting or accepted stream comes to by such steps.
pub data Reachable : Session → Type 0 where
  connected :
      (in_block out_block : Memory) (sock : Option ℕ) (answer : ConnectResult) (can_add : Bool)
      (s : Stream)
      → connect in_block out_block sock answer can_add ≡ some s
      → Reachable (start s)
  listens :
      (in_block out_block : Memory) (sock : Option ℕ) (can_bind can_add : Bool) (s : Stream)
      → listen in_block out_block sock can_bind can_add ≡ some s
      → Reachable (start s)
  accepts :
      (in_block out_block : Memory) (sock : Option ℕ) (can_add : Bool) (s : Stream)
      → (accept_ready in_block out_block sock can_add).0 ≡ some s
      → Reachable (start s)
  later : (x y : Session) → Reachable x → Step x y → Reachable y

pub record Sound (x : Session) : Type 0 where
  pub out_valid : IsValid x.stream.outbuf
  pub in_valid : IsValid x.stream.inbuf
  pub no_fault : x.faulted ≡ false
  pub output_log : x.accepted ≡ x.sent ++ contents x.stream.outbuf
  pub input_log : x.received ≡ x.consumed ++ contents x.stream.inbuf
  pub watches : Watches x.stream.type (pending x.stream) x.stream.sfd
