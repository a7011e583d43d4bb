-- ===== src/Buffer/Laws.antt =====
-- The buffer's bounds, and what each operation does to the bytes that it holds.
use simple_kit.Base.{
  ℕ, ◌+◌, ◌-◌, ◌*◌, ◌^◌, ◌≤◌, ◌<◌, ◌≡◌, ◌⊎◌, inl, inr, refl, sym, ◌∙◌, ◌&&◌, List, ◌++◌, arith, ltb,
  leb, ltb→lt, leb→le, Bool-cases, if◌then◌else◌, length, drop,
}
use simple_kit.Base.Memory.{
  Memory, read, write, copy, length-read, read-write_self, read-write_apart, read-append, drop-read,
}
use simple_kit.Base.Words.{add64, sub64, mul64}
use simple_kit.Buffer.{
  Buffer, init_capacity, shrink_capacity, move_to, reserve, seek, append, erase, live_length, space,
}

-- The live bytes lie inside the block.
pub record IsValid (b : Buffer) : Type 0 where
  pub ordered : b.start ≤ b.end
  pub inside : b.end ≤ b.capacity
  pub small : b.capacity < 2 ^ 64

-- The bytes that the buffer holds, oldest first.
abbrev pub contents : Buffer → List ℕ
contents b = read b.buffer b.start (b.end - b.start)

pub length-contents : (b : Buffer) → length (contents b) ≡ b.end - b.start
length-contents b = length-read b.buffer b.start (b.end - b.start)

sub64-eq : (a b : ℕ) → b ≤ a → a < 2 ^ 64 → sub64 a b ≡ a - b
sub64-eq a b h k = omega arith

-- Moving the live bytes to a block that is large enough keeps them.
move_to_lem :
    (b : Buffer) (block : Memory) (capacity : ℕ)
    → IsValid b
    → b.end - b.start ≤ capacity
    → capacity < 2 ^ 64
    → IsValid (move_to b block capacity) × (contents (move_to b block capacity) ≡ contents b)
unfolding copy
move_to_lem b block capacity v room small =
    let n = b.end - b.start in
    let same : sub64 b.end b.start ≡ n = omega arith in
    let self =
      read-write_self block 0 n (read b.buffer b.start n) (sym (length-read b.buffer b.start n)) in
    let all : n - 0 ≡ n = omega arith in (omega arith, rw (same, all) self)

-- What `sio_buffer_reserve` promises: the buffer stays valid, its bytes stay the same, and there
-- is room for `size` more, provided that the total fits 64 bits.
pub record Reserved (b : Buffer) (size : ℕ) (r : Buffer) : Type 0 where
  pub valid : IsValid r
  pub same : contents r ≡ contents b
  pub room : size ≤ r.capacity - r.end

-- The new capacity: at least what is needed, and at least double unless doubling wraps.
abbrev pub grown : Buffer → ℕ → ℕ
grown b size =
    let wanted = add64 (sub64 b.end b.start) size in
    let doubled = mul64 b.capacity 2 in if ltb wanted doubled then doubled else wanted

grown_lem :
    (b : Buffer) (size : ℕ)
    → IsValid b
    → b.end - b.start + size < 2 ^ 64
    → (b.end - b.start + size ≤ grown b size) × (grown b size < 2 ^ 64)
grown_lem b size v fits =
    let wanted : add64 (sub64 b.end b.start) size ≡ b.end - b.start + size = omega arith in
    rw wanted (elim (Bool-cases (ltb (b.end - b.start + size) (mul64 b.capacity 2))) [
      | inl less ↦ rw less (omega (arith, ltb→lt _ _ less))
      | inr more ↦ rw more (omega arith)
    ])

-- On a valid buffer whose live bytes plus size stay below 2^64, sio_buffer_reserve keeps validity
-- and the live bytes and leaves room for size more, also when doubling the capacity wraps.
pub reserve-Reserved :
    (fresh : Memory) (b : Buffer) (size : ℕ)
    → IsValid b
    → b.end - b.start + size < 2 ^ 64
    → Reserved b size (reserve fresh b size)
unfolding reserve
reserve-Reserved fresh b size v fits = elim (Bool-cases (leb size (sub64 b.capacity b.end))) [
  | inl roomy ↦ rw roomy (record { valid = v; same = refl; room = omega (arith, leb→le _ _ roomy) })
  | inr tight ↦ rw tight (elim (Bool-cases (leb size (add64 (sub64 b.capacity b.end) b.start))) [
    | inl slack ↦
        let (valid, same) = move_to_lem b b.buffer b.capacity v (omega arith) (omega arith) in
        rw slack (record { valid = valid; same = same; room = omega (arith, leb→le _ _ slack) })
    | inr full ↦
        let (enough, small) = grown_lem b size v fits in
        let (valid, same) = move_to_lem b fresh (grown b size) v (omega arith) small in
        rw full (record { valid = valid; same = same; room = omega arith })
  ])
]

grown-doubles : (b : Buffer) (size : ℕ) → b.capacity < 2 ^ 63 → 2 * b.capacity ≤ grown b size
grown-doubles b size small =
    let wanted = add64 (sub64 b.end b.start) size in
    elim (Bool-cases (ltb wanted (mul64 b.capacity 2))) [
      | inl less ↦ rw less (omega arith)
      | inr more ↦ rw more (ground arith)
    ]

-- With a capacity below 2^63, sio_buffer_reserve keeps the capacity or at least doubles it.
pub reserve-doubles :
    (fresh : Memory) (b : Buffer) (size : ℕ)
    → b.capacity < 2 ^ 63
    → ((reserve fresh b size).capacity ≡ b.capacity)
      ⊎ (2 * b.capacity ≤ (reserve fresh b size).capacity)
unfolding reserve
reserve-doubles fresh b size small = elim (Bool-cases (leb size (sub64 b.capacity b.end))) [
  | inl roomy ↦ rw roomy (inl refl)
  | inr tight ↦ rw tight (elim (Bool-cases (leb size (add64 (sub64 b.capacity b.end) b.start))) [
    | inl slack ↦ rw slack (inl refl)
    | inr full ↦ rw full (inr (grown-doubles b size small))
  ])
]

-- `n` more bytes behind the live ones.
extend_lem :
    (r : Buffer) (m : Memory) (n : ℕ)
    → IsValid r
    → n ≤ r.capacity - r.end
    → read m r.start (r.end - r.start) ≡ contents r
    → let x = record r { buffer = m; end = add64 r.end n } in
      IsValid x × (contents x ≡ contents r ++ read m r.end n)
extend_lem r m n v room same =
    let total : add64 r.end n - r.start ≡ r.end - r.start + n = omega arith in
    let join : r.start + (r.end - r.start) ≡ r.end = omega arith in
    (omega arith, rw total (read-append m r.start (r.end - r.start) n ∙ rw (same, join)))

-- On a valid buffer with the total below 2^64, sio_buffer_append keeps validity and puts the given
-- bytes behind those that the buffer holds.
pub contents-append :
    (fresh : Memory) (b : Buffer) (bytes : List ℕ)
    → IsValid b
    → b.end - b.start + length bytes < 2 ^ 64
    → IsValid (append fresh b bytes) × (contents (append fresh b bytes) ≡ contents b ++ bytes)
unfolding append
contents-append fresh b bytes v fits =
    let n = length bytes in
    let r = reserve fresh b n in
    let kept = reserve-Reserved fresh b n v fits in
    let ok = kept.valid in
    let apart =
      read-write_apart r.buffer r.start (r.end - r.start) r.end bytes (inl (omega arith)) in
    let (valid, joined) = extend_lem r (write r.buffer r.end bytes) n ok kept.room apart in
    (valid, joined ∙ rw (kept.same, read-write_self r.buffer r.end n bytes refl))

-- `sio_buffer_seek` behind a caller that filled `n` bytes of the space makes them live.
pub contents-seek :
    (b : Buffer) (n : ℕ)
    → IsValid b
    → n ≤ (space b).1
    → IsValid (seek b n) × (contents (seek b n) ≡ contents b ++ read b.buffer (space b).0 n)
unfolding seek space
contents-seek b n v fits = extend_lem b b.buffer n v (omega arith) refl

-- On a valid buffer that holds n bytes or more, sio_buffer_erase keeps validity and drops exactly
-- the n oldest bytes, whether or not it moves to a smaller block.
pub contents-erase :
    (fresh : Memory) (b : Buffer) (n : ℕ)
    → IsValid b
    → n ≤ live_length b
    → IsValid (erase fresh b n) × (contents (erase fresh b n) ≡ drop n (contents b))
unfolding erase live_length
contents-erase fresh b n v fits =
    let e = record b { start = add64 b.start n } in
    let valid : IsValid e = omega arith in
    let from : add64 b.start n ≡ b.start + n = omega arith in
    let left : b.end - (b.start + n) ≡ b.end - b.start - n = omega arith in
    let dropped : contents e ≡ drop n (contents b) =
      rw (from, left) (sym (drop-read b.buffer b.start (b.end - b.start) n (omega arith))) in
    elim (Bool-cases (leb shrink_capacity e.capacity && ltb (sub64 e.end e.start) init_capacity)) [
      | inr large ↦ rw large (valid, dropped)
      | inl small ↦
          let (ok, same) = move_to_lem e fresh init_capacity valid (ground arith) (omega arith) in
          rw small (ok, same ∙ dropped)
    ]

-- After an erase a block of a mebibyte or more holds at least 16 KiB of live bytes.
pub erase-shrinks :
    (fresh : Memory) (b : Buffer) (n : ℕ)
    → (erase fresh b n).capacity < shrink_capacity ⊎ init_capacity ≤ live_length (erase fresh b n)
unfolding erase live_length
erase-shrinks fresh b n =
    let e = record b { start = add64 b.start n } in
    elim (Bool-cases (leb shrink_capacity e.capacity && ltb (sub64 e.end e.start) init_capacity)) [
      | inl small ↦ rw small (inl (omega arith))
      | inr large ↦ rw large (ground arith)
    ]
