-- ===== src/Stream/Invariant.antt =====
-- What holds of a stream in every session.
use mathlib.Core.List.{append_assoc, append-nil}
use simple_kit.Base.{
  ℕ, ◌≡◌, refl, sym, ap, ◌∙◌, Bool, true, false, Option, none, some, List, [], ◌++◌, arith, take,
  take-append-drop, Bool-cases, inl, inr,
}
use simple_kit.Base.Memory.{Memory}
use simple_kit.Buffer.{erase, live_length}
use simple_kit.Buffer.Laws.{IsValid, contents, length-contents, contents-erase}
use simple_kit.Buffer.Refine.{contents-new}
use simple_kit.Stream.{
  Stream, StreamType, listening, connecting, normal, registration, Written, ConnectResult, done,
  in_progress, refused, connect, listen, accept_ready, new_stream, send, write_ready, read_ready,
  connect_ready, attach, detach, pending,
}
use simple_kit.Stream.Output.{
  pending-eq, accepted_bytes, Conserves, send-Conserves, write_ready-Conserves,
}
use simple_kit.Stream.Watch.{Watches, registration-Watches}
use mathlib.Core.Option.{some-injective}
use simple_kit.Stream.Effects.{
  Keeps, send-Keeps, write_ready-Keeps, connect_ready-Watches, attach-Watches, read_ready-contents,
  read_ready-kept,
}
use simple_kit.Stream.Session.{
  Session, start, received_bytes, output, Step, sends, writes, reads, connects, erases, detaches,
  attaches, Reachable, connected, listens, accepts, later, Sound,
}

output-Sound :
    (x : Session) (bytes : List ℕ) (w : Written)
    → Sound x
    → Conserves x.stream (accepted_bytes w bytes) w
    → Keeps x.stream w
    → Sound (output x bytes w)
output-Sound x bytes w sound c k = record {
  out_valid = c.valid;
  in_valid = rw k.same_input sound.in_valid;
  output_log =
      ap (λ l. l ++ accepted_bytes w bytes) sound.output_log
      ∙ append_assoc x.sent (contents x.stream.outbuf) (accepted_bytes w bytes)
      ∙ ap (λ l. x.sent ++ l) c.bytes
      ∙ sym (append_assoc x.sent w.sent (contents w.stream.outbuf));
  no_fault = rw (sound.no_fault, c.safe) refl;
  input_log = rw k.same_input sound.input_log;
  watches = k.watches;
}

pub start-Sound :
    (in_block out_block : Memory) (sock : ℕ) (type : StreamType)
    → Sound (start (new_stream in_block out_block sock type (some (registration type false))))
start-Sound in_block out_block sock type =
    let (in_valid, in_empty) = contents-new in_block in
    let (out_valid, out_empty) = contents-new out_block in
    record {
      out_valid = out_valid;
      in_valid = in_valid;
      no_fault = refl;
      output_log = sym out_empty;
      input_log = sym in_empty;
      watches =
          rw
            (
              pending-eq (new_stream in_block out_block sock type (some (registration type false)))
                  out_valid,
              out_empty,
            )
            (registration-Watches type 0);
    }

accepted_bytes-nil : (w : Written) → accepted_bytes w [] ≡ []
accepted_bytes-nil w = elim (Bool-cases w.ok) [ inl ok ↦ rw ok refl | inr failed ↦ rw failed refl ]

input-Sound :
    (x : Session) (t : Stream) (bytes gone : List ℕ)
    → Sound x
    → t.outbuf ≡ x.stream.outbuf
    → t.type ≡ x.stream.type
    → t.sfd ≡ x.stream.sfd
    → IsValid t.inbuf
    → contents x.stream.inbuf ++ bytes ≡ gone ++ contents t.inbuf
    → Sound (record x { stream = t; received = x.received ++ bytes; consumed = x.consumed ++ gone })
unfolding pending
input-Sound x t bytes gone sound same_out same_type same_sfd v e = record {
  out_valid = rw same_out sound.out_valid;
  in_valid = v;
  no_fault = sound.no_fault;
  output_log = rw same_out sound.output_log;
  input_log =
      ap (λ l. l ++ bytes) sound.input_log
      ∙ append_assoc x.consumed (contents x.stream.inbuf) bytes
      ∙ ap (λ l. x.consumed ++ l) e
      ∙ sym (append_assoc x.consumed gone (contents t.inbuf));
  watches = rw (same_out, same_type, same_sfd) sound.watches;
}

events-Sound :
    (x : Session) (t : Stream)
    → Sound x
    → (t.inbuf ≡ x.stream.inbuf) × (t.outbuf ≡ x.stream.outbuf) × Watches t.type (pending t) t.sfd
    → Sound (record x { stream = t })
events-Sound x t sound (same_in, same_out, w) = record {
  out_valid = rw same_out sound.out_valid;
  in_valid = rw same_in sound.in_valid;
  no_fault = sound.no_fault;
  output_log = rw same_out sound.output_log;
  input_log = rw same_in sound.input_log;
  watches = w;
}

Step-Sound : (x y : Session) → Sound x → Step x y → Sound y
Step-Sound x _ sound (sends fresh answer bytes small takes watch) =
    output-Sound x bytes (send fresh answer x.stream bytes) sound
      (send-Conserves fresh answer x.stream bytes sound.out_valid small takes watch)
      (send-Keeps fresh answer x.stream bytes sound.watches)
Step-Sound x _ sound (writes fresh answer r e c on takes) =
    let w = write_ready fresh answer x.stream in
    output-Sound x [] w sound
      (rw (accepted_bytes-nil w)
        (write_ready-Conserves fresh answer x.stream sound.out_valid takes (rw e refl)))
      (write_ready-Keeps fresh answer x.stream r sound.out_valid sound.watches e c takes)
Step-Sound x _ sound (reads fresh answer r e c on small most) =
    let (valid, held) = read_ready-contents fresh answer x.stream sound.in_valid small most in
    rw (append-nil x.consumed) at (
      input-Sound x (read_ready fresh answer x.stream).1 (received_bytes answer) [] sound
        (read_ready-kept fresh answer x.stream).0 (read_ready-kept fresh answer x.stream).1
        (read_ready-kept fresh answer x.stream).2 valid (sym held))
Step-Sound x _ sound (connects good r e c on) =
    events-Sound x (connect_ready good x.stream).1 sound
      (connect_ready-Watches good x.stream r e c sound.watches)
Step-Sound x _ sound (erases fresh n most) =
    let (valid, held) = contents-erase fresh x.stream.inbuf n sound.in_valid (
      unfold live_length in
      let p = sound.in_valid in
      let a = p.ordered in
      let b = p.inside in let c = p.small in omega (arith, length-contents x.stream.inbuf)) in
    rw (append-nil x.received) at (
      input-Sound x (record (x.stream) { inbuf = erase fresh x.stream.inbuf n }) []
        (take n (contents x.stream.inbuf)) sound refl refl refl valid
        (append-nil (contents x.stream.inbuf)
          ∙ rw held (sym (take-append-drop n (contents x.stream.inbuf)))))
Step-Sound x _ sound (detaches r e) =
    events-Sound x (detach x.stream) sound (unfold detach in (refl, refl, tt))
Step-Sound x _ sound (attaches can_add e) =
    events-Sound x (attach can_add x.stream).1 sound (attach-Watches can_add x.stream)

started-Sound :
    (in_block out_block : Memory) (sock : ℕ) (type : StreamType) (s : Stream)
    → some (new_stream in_block out_block sock type (some (registration type false))) ≡ some s
    → Sound (start s)
started-Sound in_block out_block sock type s e =
    rw (sym (some-injective _ _ e)) (start-Sound in_block out_block sock type)

connect-Sound :
    (in_block out_block : Memory) (sock : Option ℕ) (answer : ConnectResult) (can_add : Bool)
    (s : Stream)
    → connect in_block out_block sock answer can_add ≡ some s
    → Sound (start s)
unfolding connect
connect-Sound in_block out_block none answer can_add s e = ground (arith, e)
connect-Sound in_block out_block (some sock) refused can_add s e = ground (arith, e)
connect-Sound in_block out_block (some sock) done true s e =
    started-Sound in_block out_block sock connecting s e
connect-Sound in_block out_block (some sock) done false s e = ground (arith, e)
connect-Sound in_block out_block (some sock) in_progress true s e =
    started-Sound in_block out_block sock connecting s e
connect-Sound in_block out_block (some sock) in_progress false s e = ground (arith, e)

listen-Sound :
    (in_block out_block : Memory) (sock : Option ℕ) (can_bind can_add : Bool) (s : Stream)
    → listen in_block out_block sock can_bind can_add ≡ some s
    → Sound (start s)
unfolding listen
listen-Sound in_block out_block none can_bind can_add s e = ground (arith, e)
listen-Sound in_block out_block (some sock) true true s e =
    started-Sound in_block out_block sock listening s e
listen-Sound in_block out_block (some sock) true false s e = ground (arith, e)
listen-Sound in_block out_block (some sock) false can_add s e = ground (arith, e)

accept_ready-Sound :
    (in_block out_block : Memory) (sock : Option ℕ) (can_add : Bool) (s : Stream)
    → (accept_ready in_block out_block sock can_add).0 ≡ some s
    → Sound (start s)
unfolding accept_ready
accept_ready-Sound in_block out_block none can_add s e = ground (arith, e)
accept_ready-Sound in_block out_block (some sock) true s e =
    started-Sound in_block out_block sock normal s e
accept_ready-Sound in_block out_block (some sock) false s e = ground (arith, e)

-- From a stream that sio_stream_connect, sio_stream_listen or an accept returns, any sequence of
-- writes of the user, read, write and connect events where the registration watches for them,
-- erases of the input, detaches and attaches (where a write on a detached stream finds bytes
-- waiting or is taken whole, with system calls that take and give no more bytes than they are
-- asked to and totals below 2^64) keeps: sio_watch_write and sio_unwatch_write have not been given
-- NULL; both buffers are valid; the bytes of the successful calls of sio_stream_write are, in
-- order, those that the socket took and those that wait in the output; the bytes that read gave
-- are, in order, those that the user erased and those in the input; a registered stream has the
-- callback of its type and watches what it waits for, for room to write if it is connected and
-- bytes wait.
pub Reachable-Sound : (x : Session) → Reachable x → Sound x
Reachable-Sound _ (connected in_block out_block sock answer can_add s e) =
    connect-Sound in_block out_block sock answer can_add s e
Reachable-Sound _ (listens in_block out_block sock can_bind can_add s e) =
    listen-Sound in_block out_block sock can_bind can_add s e
Reachable-Sound _ (accepts in_block out_block sock can_add s e) =
    accept_ready-Sound in_block out_block sock can_add s e
Reachable-Sound y (later x _ before last) = Step-Sound x y (Reachable-Sound x before) last
