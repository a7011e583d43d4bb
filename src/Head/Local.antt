-- ===== src/Head/Local.antt =====
-- What `shead_decode` reads: 24 bytes, wherever they stand.
use simple_kit.Base.{ℕ, ◌+◌, ◌≤◌, ◌≡◌, sym, ap, ◌∙◌, some, arith, get_or}
use simple_kit.Base.Memory.{Memory, read, write, read_congr, get_or-read, read-write_self}
use simple_kit.Head.{Head, ByteOrder, decode, magic_num, undigits, reverse_bytes}
use simple_kit.Head.Codec.{Fits, wire, length-wire, encode-wire, decode-encode, decode-field}

-- A part of what two memories share.
read-part :
    (m k : Memory) (at n : ℕ) → at + n ≤ 24 → read m 0 24 ≡ read k 0 24 → read m at n ≡ read k at n
read-part m k at n h e = read_congr m k at at n λ i p. ground (
  arith,
  get_or-read m 0 24 (at + i),
  get_or-read k 0 24 (at + i),
  ap (λ l. get_or l (at + i) 0) e,
  ap m {x = 0 + (at + i)} {y = at + i},
  ap k {x = 0 + (at + i)} {y = at + i},
)

-- `shead_decode` reads 24 bytes and no more.
pub decode_congr :
    (order : ByteOrder) (m k : Memory)
    → read m 0 24 ≡ read k 0 24
    → decode order m 24 ≡ decode order k 24
decode_congr order m k e =
    let part = λ (at n : ℕ) (h : at + n ≤ 24).
      ap (λ l. undigits (reverse_bytes l n)) (read-part m k at n h e) in
    decode-field order m 24
    ∙ rw
        (
          part 0 8 (omega arith),
          part 8 4 (omega arith),
          part 12 4 (omega arith),
          part 16 4 (omega arith),
          part 20 4 (omega arith),
        )
        (sym (decode-field order k 24))

-- Memory that reads as the wire format of a header decodes to it.
pub decode-wire :
    (order : ByteOrder) (m : Memory) (h : Head)
    → Fits h
    → read m 0 24 ≡ wire h
    → decode order m 24 ≡ some (record h { magic = magic_num })
decode-wire order m h fits e =
    let sent = write m 0 (wire h) in
    let same : read m 0 24 ≡ read sent 0 24 =
      e ∙ sym (read-write_self m 0 24 (wire h) (sym (length-wire h))) in
    decode_congr order m sent same
    ∙ decode-encode order order h m 24 24 fits (omega arith) (encode-wire order h m 24)
