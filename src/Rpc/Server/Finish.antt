-- ===== src/Rpc/Server/Finish.antt =====
-- simple_io/sio_rpc.c, `sio_rpc_finish`: what the peer of a connection is sent.
use mathlib.Core.List.{append_assoc}
use simple_kit.Base.{
  ℕ, ◌+◌, ◌^◌, ◌<◌, ◌≡◌, refl, sym, ap, ◌∙◌, true, false, is_none, Option, none, not, ◌||◌, some,
  List, [], ◌∷◌, ◌++◌, ◌==◌, if◌then◌else◌, length, length-append, arith, Bool-cases, inl, inr,
  ==_iff,
}
use simple_kit.Base.Memory.{Memory, read-write_self}
use simple_kit.Head.{Head, ByteOrder, encode_size}
use simple_kit.Head.Codec.{wire, length-wire, encode-wire}
use simple_kit.Buffer.{live_length}
use simple_kit.Buffer.Laws.{IsValid, contents}
use simple_kit.Stream.{
  Stream, Registration, WriteResult, error, again, wrote, set_watch_write, is_connecting, send_now,
  send,
}
use simple_kit.Stream.Output.{Takes, send-Conserves}
use simple_kit.Rpc.Parse.Frames.{Message, frame}
use simple_kit.Rpc.Server.{lookup, put, Server, Response, head_bytes, reply, finish}

head_bytes-wire :
    (order : ByteOrder) (junk : Memory) (head : Head) → head_bytes order junk head ≡ wire head
unfolding head_bytes
head_bytes-wire order junk head =
    rw (encode-wire order head junk encode_size, head_bytes)
      (read-write_self junk 0 24 (wire head) (sym (length-wire head)))

watched :
    (sfd : Option Registration) → is_none sfd ≡ false → is_none (set_watch_write true sfd) ≡ false
watched none here = here
watched (some r) here = refl

send_now-registered :
    (fresh : Memory) (answer : WriteResult) (s : Stream) (bytes : List ℕ)
    → is_none s.sfd ≡ false
    → is_none (send_now fresh answer s bytes).stream.sfd ≡ false
send_now-registered fresh error s bytes here = here
send_now-registered fresh again s bytes here = watched s.sfd here
send_now-registered fresh (wrote n) s bytes here = elim (Bool-cases (n == length bytes)) [
  | inl all ↦ rw all here
  | inr part ↦ rw part (watched s.sfd here)
]

-- A write leaves a registered stream registered.
send-registered :
    (fresh : Memory) (answer : WriteResult) (s : Stream) (bytes : List ℕ)
    → is_none s.sfd ≡ false
    → is_none (send fresh answer s bytes).stream.sfd ≡ false
unfolding send
send-registered fresh answer s bytes here =
    elim (Bool-cases (not (live_length s.outbuf == 0) || is_connecting s.type)) [
      | inl waits ↦ rw waits here
      | inr direct ↦ rw direct (send_now-registered fresh answer s bytes here)
    ]

-- The message that answers a request.
abbrev pub answer_message : Head → List ℕ → Message
answer_message req_head body = record {
  head = record req_head { body_len = length body };
  body = body;
}

reply-frame :
    (order : ByteOrder) (junk fresh fresh' : Memory) (answer answer' : WriteResult)
    (stream : Stream) (req_head : Head) (body : List ℕ)
    → is_none stream.sfd ≡ false
    → IsValid stream.outbuf
    → length (contents stream.outbuf) + 24 + length body < 2 ^ 64
    → Takes answer 24
    → Takes answer' (length body)
    → let (one, two) = reply order junk (fresh, answer) (fresh', answer') stream req_head body in
      one.ok ≡ true
      → two.ok ≡ true
      → IsValid two.stream.outbuf
        × (contents stream.outbuf ++ frame (answer_message req_head body)
            ≡ (one.sent ++ two.sent) ++ contents two.stream.outbuf)
        × (one.faults ≡ false)
        × (two.faults ≡ false)
unfolding reply
reply-frame order junk fresh fresh' answer answer' stream req_head body here v small takes takes' ok
      ok' =
    let head = record req_head { body_len = length body } in
    let bytes = head_bytes order junk head in
    let is_wire = head_bytes-wire order junk head in
    let size : length bytes ≡ 24 = ap length is_wire ∙ length-wire head in
    let one = send fresh answer stream bytes in
    let two = send fresh' answer' one.stream body in
    let first =
      send-Conserves fresh answer stream bytes v (omega arith) (rw size takes) (inl here) in
    let kept : contents stream.outbuf ++ bytes ≡ one.sent ++ contents one.stream.outbuf =
      rw ok at first.bytes in
    let sum = length-append (contents stream.outbuf) bytes in
    let sum' = length-append one.sent (contents one.stream.outbuf) in
    let second =
      send-Conserves fresh' answer' one.stream body first.valid (omega (arith, ap length kept))
        takes' (inl (send-registered fresh answer stream bytes here)) in
    let kept' : contents one.stream.outbuf ++ body ≡ two.sent ++ contents two.stream.outbuf =
      rw ok' at second.bytes in
    (
      second.valid,
      ap (λ l. contents stream.outbuf ++ (l ++ body)) (sym is_wire)
          ∙ sym (append_assoc (contents stream.outbuf) bytes body)
          ∙ ap (λ l. l ++ body) kept
          ∙ append_assoc one.sent (contents one.stream.outbuf) body
          ∙ ap (λ l. one.sent ++ l) kept'
          ∙ sym (append_assoc one.sent two.sent (contents two.stream.outbuf)),
      first.safe,
      second.safe,
    )

lookup-put :
    (table : List (ℕ × Stream)) (key k : ℕ) (held value : Stream)
    → lookup table key ≡ some held
    → lookup (put table key value) k ≡ (if key == k then some value else lookup table k)
lookup-put [] key k held value e = ground (arith, e)
lookup-put ((j, v) ∷ table) key k held value e = elim (Bool-cases (j == key)) [
  | inl here ↦
      let same : j ≡ key = (==_iff j key).0 here in
      rw (here, same)
        (elim (Bool-cases (key == k)) [ inl at_k ↦ rw at_k refl | inr past ↦ rw past refl ])
  | inr apart ↦ rw apart (elim (Bool-cases (j == k)) [
    | inl at_k ↦ let other : key == k ≡ false = ground arith in rw (at_k, other) refl
    | inr past ↦ rw past (lookup-put table key k held value (rw apart at e))
  ])
]

-- What the server and the socket have after an answer.
pub record Answered (s : Server) (id : ℕ) (stream : Stream) (message : Message)
    (r : List ℕ × Server) : Type 0 where
  pub left : Stream
  pub held : lookup r.1.dstreams id ≡ some left
  pub valid : IsValid left.outbuf
  pub bytes : contents stream.outbuf ++ frame message ≡ r.0 ++ contents left.outbuf
  pub others : (k : ℕ) → id == k ≡ false → lookup r.1.dstreams k ≡ lookup s.dstreams k

-- If the connection of a request is still there and registered in the event loop, with a valid
-- output and a total below 2^64, the system takes no more of the 24 bytes of the header and of the
-- body than it is given, and both writes succeed, then sio_rpc_finish gives no NULL to
-- sio_watch_write, and leaves the connection with a valid output such that what waited before and
-- then the wire format of the request's header with the new body's length, and the body, is what
-- reached the socket and then what waits; other connections are as before.
pub finish-Answered :
    (order : ByteOrder) (junk fresh fresh' : Memory) (answer answer' : WriteResult)
    (resp : Response) (body : List ℕ) (s : Server) (stream : Stream)
    → lookup s.dstreams resp.conn_id ≡ some stream
    → is_none stream.sfd ≡ false
    → IsValid stream.outbuf
    → length (contents stream.outbuf) + 24 + length body < 2 ^ 64
    → Takes answer 24
    → Takes answer' (length body)
    → let (one, two) =
        reply order junk (fresh, answer) (fresh', answer') stream resp.req_head body in
      one.ok ≡ true
      → two.ok ≡ true
      → Answered s resp.conn_id stream
          (answer_message resp.req_head body)
          (finish order junk (fresh, answer) (fresh', answer') resp body s)
        × (one.faults ≡ false)
        × (two.faults ≡ false)
unfolding finish
finish-Answered order junk fresh fresh' answer answer' resp body s stream e here v small takes
      takes' ok ok' =
    let (one, two) = reply order junk (fresh, answer) (fresh', answer') stream resp.req_head body in
    let (valid, bytes, safe, safe') =
      reply-frame order junk fresh fresh' answer answer' stream resp.req_head body here v small
        takes takes' ok ok' in
    let self : resp.conn_id == resp.conn_id ≡ true = ground arith in
    rw (e, finish, ok)
      (
        record {
          left = two.stream;
          held = lookup-put s.dstreams resp.conn_id resp.conn_id stream two.stream e ∙ rw self refl;
          valid = valid;
          bytes = bytes;
          others =
              λ k apart. lookup-put s.dstreams resp.conn_id k stream two.stream e ∙ rw apart refl;
        },
        safe,
        safe',
      )
