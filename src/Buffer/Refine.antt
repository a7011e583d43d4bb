-- ===== src/Buffer/Refine.antt =====
-- A byte queue as the specification of the buffer, over any sequence of calls.
use simple_kit.Base.{
  ℕ, ◌+◌, ◌-◌, ◌^◌, ◌≤◌, ◌<◌, ◌≡◌, refl, ◌∙◌, List, [], ◌∷◌, ◌++◌, arith, length, drop, ap, inl,
}
use simple_kit.Base.Memory.{Memory, read, write, read-write_self, read-write_apart}
use simple_kit.Buffer.{Buffer, new, reserve, seek, append, erase, live_length, space}
use simple_kit.Buffer.Laws.{
  IsValid, contents, length-contents, reserve-Reserved, contents-append, contents-seek,
  contents-erase,
}

-- What a client does: `sio_buffer_append`; a reserve, a write into the space and a seek, as
-- `_sio_stream_read` does; `sio_buffer_erase`.
pub data Op : Type 0 where
  append_bytes : List ℕ → Op
  receive : ℕ → List ℕ → Op
  consume : ℕ → Op

-- The calls on the buffer; `fresh` is what an allocation of this call holds.
unfoldable pub step : Memory → Op → Buffer → Buffer
step fresh (append_bytes bytes) b = append fresh b bytes
step fresh (receive most bytes) b =
    let r = reserve fresh b most in
    seek (record r { buffer = write r.buffer r.end bytes }) (length bytes)
step fresh (consume n) b = erase fresh b n

pub run : List (Memory × Op) → Buffer → Buffer
unfolding step
run [] b = b
run ((fresh, op) ∷ ops) b = run ops (step fresh op b)

-- The specification: a sequence of bytes.
abbrev pub queue_step : Op → List ℕ → List ℕ
queue_step (append_bytes bytes) q = q ++ bytes
queue_step (receive most bytes) q = q ++ bytes
queue_step (consume n) q = drop n q

abbrev pub queue_run : List (Memory × Op) → List ℕ → List ℕ
queue_run [] q = q
queue_run ((_, op) ∷ ops) q = queue_run ops (queue_step op q)

-- The caller's part: no more bytes than 64 bits count, none beyond what was reserved, and none
-- consumed that are not there.
abbrev pub Allowed : Op → List ℕ → Type 0
Allowed (append_bytes bytes) q = length q + length bytes < 2 ^ 64
Allowed (receive most bytes) q = (length q + most < 2 ^ 64) × (length bytes ≤ most)
Allowed (consume n) q = n ≤ length q

abbrev pub AllAllowed : List (Memory × Op) → List ℕ → Type 0
AllAllowed [] q = Unit {0}
AllAllowed ((_, op) ∷ ops) q = Allowed op q × AllAllowed ops (queue_step op q)

-- One call of a client does to the bytes what the queue's step does.
pub step_refines :
    (fresh : Memory) (op : Op) (b : Buffer) (q : List ℕ)
    → IsValid b
    → contents b ≡ q
    → Allowed op q
    → IsValid (step fresh op b) × (contents (step fresh op b) ≡ queue_step op q)
unfolding step
step_refines fresh (append_bytes bytes) b q v e fits =
    let size = length-contents b in
    let (valid, same) = contents-append fresh b bytes v (omega (arith, ap length e)) in
    (valid, same ∙ rw e)
step_refines fresh (receive most bytes) b q v e fits =
    let r = reserve fresh b most in
    let kept = reserve-Reserved fresh b most v (omega (arith, length-contents b, ap length e)) in
    let ok = kept.valid in
    let w = record r { buffer = write r.buffer r.end bytes } in
    let apart =
      read-write_apart r.buffer r.start (r.end - r.start) r.end bytes (inl (omega arith)) in
    let (valid, joined) =
      contents-seek w (length bytes) (omega arith)
        (unfold space in (omega (arith, kept.room, fits.1))) in
    let back = read-write_self r.buffer r.end (length bytes) bytes refl in
    (valid, joined ∙ unfold space in rw (apart, kept.same, back, e))
step_refines fresh (consume n) b q v e fits =
    let (valid, same) =
      contents-erase fresh b n v
        (unfold live_length in omega (arith, length-contents b, ap length e)) in
    (valid, same ∙ rw e)

-- From a valid buffer that holds the bytes of a queue, every sequence of appends,
-- reserve-write-seek rounds and erases that stays within the caller's duties (totals below 2^64,
-- no more bytes than reserved, no more consumed than held) leaves the buffer valid and holding
-- exactly what the queue of bytes holds.
pub run_refines :
    (ops : List (Memory × Op)) (b : Buffer) (q : List ℕ)
    → IsValid b
    → contents b ≡ q
    → AllAllowed ops q
    → IsValid (run ops b) × (contents (run ops b) ≡ queue_run ops q)
unfolding run
run_refines [] b q v e ok = (v, e)
run_refines ((fresh, op) ∷ ops) b q v e ok =
    let (valid, same) = step_refines fresh op b q v e ok.0 in
    run_refines ops (step fresh op b) (queue_step op q) valid same ok.1

-- A new buffer is valid and empty.
pub contents-new : (fresh : Memory) → IsValid (new fresh) × (contents (new fresh) ≡ [])
unfolding new read
contents-new fresh = (omega arith, refl)
