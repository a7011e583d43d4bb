-- ===== src/Stream/Output.antt =====
-- The output side of a stream: every accepted byte reaches the socket once and in order.
use mathlib.Core.List.{append-nil}
use simple_kit.Base.{
  ℕ, ◌+◌, ◌-◌, ◌^◌, ◌≤◌, ◌<◌, ◌≡◌, refl, false, is_none, ◌⊎◌, sym, ap, ◌∙◌, not, ◌||◌, List, [],
  ◌++◌, arith, ◌==◌, if◌then◌else◌, length, take, drop, take-append-drop, eq-nil_of_length,
  length-drop, Bool-cases, inl, inr,
}
use simple_kit.Base.Memory.{Memory, read}
use simple_kit.Base.Words.{sub64}
use simple_kit.Buffer.{live_length, live, erase}
use simple_kit.Buffer.Laws.{IsValid, contents, length-contents, contents-append, contents-erase}
use simple_kit.Stream.{
  Stream, WriteResult, error, again, wrote, Written, queue_rest, is_connecting, send_now, send,
  write_ready, pending,
}

pub pending-eq : (s : Stream) → IsValid s.outbuf → pending s ≡ length (contents s.outbuf)
unfolding pending live_length
pending-eq s v =
    let p = v.ordered in
    let q = v.inside in let r = v.small in omega (arith, length-contents s.outbuf)

-- The socket takes no more bytes than it is given.
abbrev pub Takes : WriteResult → ℕ → Type 0
Takes (wrote n) size = n ≤ size
Takes answer size = Unit {0}

-- The stream is registered, or the socket takes all there is, or bytes wait already.
abbrev pub Watchable : WriteResult → Stream → List ℕ → Type 0
Watchable answer s bytes =
    (is_none s.sfd ≡ false) ⊎ (answer ≡ wrote (length bytes)) ⊎ (live_length s.outbuf == 0 ≡ false)

-- The bytes that a call made the stream responsible for.
abbrev pub accepted_bytes : Written → List ℕ → List ℕ
accepted_bytes w bytes = if w.ok then bytes else []

-- Bytes are neither lost, nor doubled, nor reordered, and NULL is not read through.
pub record Conserves (s : Stream) (taken : List ℕ) (w : Written) : Type 0 where
  pub valid : IsValid w.stream.outbuf
  pub bytes : contents s.outbuf ++ taken ≡ w.sent ++ contents w.stream.outbuf
  pub safe : w.faults ≡ false

queue_rest-Conserves :
    (fresh : Memory) (n : ℕ) (bytes : List ℕ) (s : Stream)
    → IsValid s.outbuf
    → contents s.outbuf ≡ []
    → length bytes < 2 ^ 64
    → is_none s.sfd ≡ false
    → Conserves s bytes (queue_rest fresh n bytes s)
queue_rest-Conserves fresh n bytes s v e small here =
    let (valid, held) =
      contents-append fresh s.outbuf (drop n bytes) v
        (omega (arith, ap length e, length-contents s.outbuf, length-drop n bytes)) in
    record { valid = valid; bytes = rw (e, held, e) (sym (take-append-drop n bytes)); safe = here }

send_now-Conserves :
    (fresh : Memory) (answer : WriteResult) (s : Stream) (bytes : List ℕ)
    → IsValid s.outbuf
    → contents s.outbuf ≡ []
    → length bytes < 2 ^ 64
    → (is_none s.sfd ≡ false) ⊎ (answer ≡ wrote (length bytes))
    → Conserves s
        (accepted_bytes (send_now fresh answer s bytes) bytes)
        (send_now fresh answer s bytes)
send_now-Conserves fresh error s bytes v e small watch = record {
  valid = v;
  bytes = append-nil (contents s.outbuf);
  safe = refl;
}
send_now-Conserves fresh again s bytes v e small (inl here) =
    queue_rest-Conserves fresh 0 bytes s v e small here
send_now-Conserves fresh again s bytes v e small (inr whole) = ground (arith, whole)
send_now-Conserves fresh (wrote n) s bytes v e small watch = elim (Bool-cases (n == length bytes)) [
  | inl all ↦ rw all (record { valid = v; bytes = rw e (sym (append-nil bytes)); safe = refl })
  | inr some_left ↦ elim watch [
    | inl here ↦ rw some_left (queue_rest-Conserves fresh n bytes s v e small here)
    | inr whole ↦ absurd (ground (arith, whole))
  ]
]

-- For a stream with a valid output and totals below 2^64, which is registered in the event loop,
-- or has bytes waiting, or whose write is taken whole, and where the system takes no more bytes
-- than it is given: sio_stream_write does not give NULL to sio_watch_write, after it the output is
-- valid, and what it held before with the new bytes behind (or, on a return of -1, without them)
-- is what the socket takes now with what waits then behind.
pub send-Conserves :
    (fresh : Memory) (answer : WriteResult) (s : Stream) (bytes : List ℕ)
    → IsValid s.outbuf
    → length (contents s.outbuf) + length bytes < 2 ^ 64
    → Takes answer (length bytes)
    → Watchable answer s bytes
    → Conserves s (accepted_bytes (send fresh answer s bytes) bytes) (send fresh answer s bytes)
unfolding send
send-Conserves fresh answer s bytes v small takes watch =
    elim (Bool-cases (not (live_length s.outbuf == 0) || is_connecting s.type)) [
      | inl waits ↦
          let (valid, held) =
            contents-append fresh s.outbuf bytes v (omega (arith, length-contents s.outbuf)) in
          rw waits (record { valid = valid; bytes = sym held; safe = refl })
      | inr direct ↦
          let none_waits : live_length s.outbuf ≡ 0 = ground arith in
          let e =
            eq-nil_of_length (contents s.outbuf)
              (sym (pending-eq s v) ∙ unfold pending in none_waits) in
          rw direct (
            send_now-Conserves fresh answer s bytes v e (omega arith) (elim watch [
              | inl here ↦ inl here
              | inr (inl whole) ↦ inr whole
              | inr (inr waits) ↦ absurd (ground arith)
            ]))
    ]

-- When the socket takes part of a valid output, what it takes is its front, and the rest waits.
pub write_ready-Conserves :
    (fresh : Memory) (answer : WriteResult) (s : Stream)
    → IsValid s.outbuf
    → Takes answer (pending s)
    → is_none s.sfd ≡ false
    → Conserves s [] (write_ready fresh answer s)
unfolding write_ready live
write_ready-Conserves fresh error s v takes here = record {
  valid = v;
  bytes = append-nil (contents s.outbuf);
  safe = refl;
}
write_ready-Conserves fresh again s v takes here = record {
  valid = v;
  bytes = append-nil (contents s.outbuf);
  safe = refl;
}
write_ready-Conserves fresh (wrote n) s v takes here =
    let (valid, held) = contents-erase fresh s.outbuf n v (unfold pending in takes) in
    let size-eq : sub64 s.outbuf.end s.outbuf.start ≡ s.outbuf.end - s.outbuf.start =
      let p = v.ordered in let q = v.inside in let r = v.small in omega arith in
    let kept : contents s.outbuf ++ []
        ≡ take n (read s.outbuf.buffer s.outbuf.start (sub64 s.outbuf.end s.outbuf.start))
          ++ contents (erase fresh s.outbuf n) =
      append-nil (contents s.outbuf)
      ∙ rw (size-eq, held) (sym (take-append-drop n (contents s.outbuf))) in
    elim (Bool-cases (n == sub64 s.outbuf.end s.outbuf.start)) [
      | inl all ↦ rw all (record { valid = valid; bytes = kept; safe = here })
      | inr part ↦ rw part (record { valid = valid; bytes = kept; safe = refl })
    ]
