-- ===== src/Stream/Effects.antt =====
-- What each operation of a stream leaves: the registration that fits, and the bytes of the input.
use mathlib.Core.List.{append-nil}
use simple_kit.Base.{
  ℕ, ◌+◌, ◌-◌, ◌^◌, ◌≤◌, ◌<◌, ◌≡◌, refl, sym, ap, ◌∙◌, Bool, true, false, not, ◌||◌, some, List, [],
  ◌++◌, arith, ◌==◌, length, Bool-cases, inl, inr, length-drop,
}
use simple_kit.Base.Memory.{Memory}
use simple_kit.Base.Words.{sub64}
use simple_kit.Buffer.{Buffer, reserve, erase, live_length, live}
use simple_kit.Buffer.Laws.{IsValid, contents, length-contents, reserve-Reserved, contents-erase}
use simple_kit.Buffer.Refine.{receive, step, step_refines}
use simple_kit.Stream.{
  Stream, Registration, on_connect, on_stream, WriteResult, error, again, wrote, ReadResult, end,
  got, Written, is_connecting, send_now, send, write_ready, read_ready, connect_ready, attach,
  pending,
}
use simple_kit.Stream.Output.{pending-eq, Takes}
use simple_kit.Stream.Watch.{
  Watches, registration-Watches, set_watch_write-Watches, queued-Watches, fewer-Watches,
  unwatched-Watches, connected-Watches,
}
use simple_kit.Stream.Session.{received_bytes}

-- What an operation on the output leaves to the rest of the stream.
pub record Keeps (s : Stream) (w : Written) : Type 0 where
  pub same_input : w.stream.inbuf ≡ s.inbuf
  pub watches : Watches w.stream.type (pending w.stream) w.stream.sfd

send_now-Keeps :
    (fresh : Memory) (answer : WriteResult) (s : Stream) (bytes : List ℕ)
    → Watches s.type (pending s) s.sfd
    → Keeps s (send_now fresh answer s bytes)
send_now-Keeps fresh error s bytes w = record { same_input = refl; watches = w }
send_now-Keeps fresh again s bytes w = record {
  same_input = refl;
  watches = set_watch_write-Watches s.type (pending s) _ s.sfd w;
}
send_now-Keeps fresh (wrote n) s bytes w = elim (Bool-cases (n == length bytes)) [
  | inl all ↦ rw all (record { same_input = refl; watches = w })
  | inr part ↦
      rw part (record {
        same_input = refl;
        watches = set_watch_write-Watches s.type (pending s) _ s.sfd w;
      })
]

pub send-Keeps :
    (fresh : Memory) (answer : WriteResult) (s : Stream) (bytes : List ℕ)
    → Watches s.type (pending s) s.sfd
    → Keeps s (send fresh answer s bytes)
unfolding send pending
send-Keeps fresh answer s bytes w =
    elim (Bool-cases (not (live_length s.outbuf == 0) || is_connecting s.type)) [
      | inl waits ↦ rw waits (record {
        same_input = refl;
        watches = queued-Watches s.type (pending s) _ s.sfd (ground (arith, waits)) w;
      })
      | inr direct ↦ rw direct (send_now-Keeps fresh answer s bytes w)
    ]

pub write_ready-Keeps :
    (fresh : Memory) (answer : WriteResult) (s : Stream) (r : Registration)
    → IsValid s.outbuf
    → Watches s.type (pending s) s.sfd
    → s.sfd ≡ some r
    → r.callback ≡ on_stream
    → Takes answer (pending s)
    → Keeps s (write_ready fresh answer s)
unfolding write_ready live
write_ready-Keeps fresh error s r v w e c takes = record { same_input = refl; watches = w }
write_ready-Keeps fresh again s r v w e c takes = record { same_input = refl; watches = w }
write_ready-Keeps fresh (wrote n) s r v w e c takes =
    let (valid, held) = contents-erase fresh s.outbuf n v (unfold pending in takes) in
    let left : pending (record s { outbuf = erase fresh s.outbuf n }) ≡ pending s - n = omega (
      arith,
      pending-eq (record s { outbuf = erase fresh s.outbuf n }) valid,
      ap length held,
      length-drop n (contents s.outbuf),
      pending-eq s v,
    ) in
    let whole : pending s ≡ sub64 s.outbuf.end s.outbuf.start =
      unfold pending live_length in refl in
    elim (Bool-cases (n == sub64 s.outbuf.end s.outbuf.start)) [
      | inl all ↦ rw all (record {
        same_input = refl;
        watches =
            unwatched-Watches s.type (pending s) _ s.sfd r e c (unfold pending in ground arith) w;
      })
      | inr part ↦ rw part (record {
        same_input = refl;
        watches =
            fewer-Watches s.type (pending s) _ s.sfd (λ empty. unfold pending in omega arith) w;
      })
    ]

pub connect_ready-Watches :
    (good : Bool) (s : Stream) (r : Registration)
    → s.sfd ≡ some r
    → r.callback ≡ on_connect
    → Watches s.type (pending s) s.sfd
    → let t = (connect_ready good s).1 in
      (t.inbuf ≡ s.inbuf) × (t.outbuf ≡ s.outbuf) × Watches t.type (pending t) t.sfd
unfolding connect_ready pending
connect_ready-Watches false s r e c w = (refl, refl, w)
connect_ready-Watches true s r e c w =
    (refl, refl, rw e (connected-Watches s.type (pending s) r c (rw e at w)))

pub attach-Watches :
    (can_add : Bool) (s : Stream)
    → let t = (attach can_add s).1 in
      (t.inbuf ≡ s.inbuf) × (t.outbuf ≡ s.outbuf) × Watches t.type (pending t) t.sfd
unfolding attach pending
attach-Watches false s = (refl, refl, tt)
attach-Watches true s = (refl, refl, registration-Watches s.type (pending s))

reserve-contents :
    (fresh : Memory) (b : Buffer)
    → IsValid b
    → length (contents b) + 4096 < 2 ^ 64
    → IsValid (reserve fresh b 4096) × (contents (reserve fresh b 4096) ≡ contents b ++ [])
reserve-contents fresh b v small =
    let r = reserve-Reserved fresh b 4096 v (omega (arith, length-contents b)) in
    (r.valid, r.same ∙ sym (append-nil (contents b)))

-- `_sio_stream_read` puts the bytes that `read` gives behind those of a valid input.
pub read_ready-contents :
    (fresh : Memory) (answer : ReadResult) (s : Stream)
    → IsValid s.inbuf
    → length (contents s.inbuf) + 4096 < 2 ^ 64
    → length (received_bytes answer) ≤ 4096
    → let t = (read_ready fresh answer s).1 in
      IsValid t.inbuf × (contents t.inbuf ≡ contents s.inbuf ++ received_bytes answer)
unfolding read_ready step
read_ready-contents fresh error s v small most = reserve-contents fresh s.inbuf v small
read_ready-contents fresh again s v small most = reserve-contents fresh s.inbuf v small
read_ready-contents fresh end s v small most = reserve-contents fresh s.inbuf v small
read_ready-contents fresh (got bytes) s v small most =
    step_refines fresh (receive 4096 bytes) s.inbuf (contents s.inbuf) v refl (small, most)

pub read_ready-kept :
    (fresh : Memory) (answer : ReadResult) (s : Stream)
    → let t = (read_ready fresh answer s).1 in
      (t.outbuf ≡ s.outbuf) × (t.type ≡ s.type) × (t.sfd ≡ s.sfd)
unfolding read_ready
read_ready-kept fresh error s = (refl, refl, refl)
read_ready-kept fresh again s = (refl, refl, refl)
read_ready-kept fresh end s = (refl, refl, refl)
read_ready-kept fresh (got bytes) s = (refl, refl, refl)
