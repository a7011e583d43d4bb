-- ===== src/Head/Codec.antt =====
-- `shead_encode` and `shead_decode` against the wire format.
use mathlib.Core.List.{append_assoc, append-nil}
use simple_kit.Base.{
  ℕ, ◌+◌, ◌^◌, ◌≤◌, ◌<◌, ◌≡◌, ◌≢◌, ◌↔◌, ◌⊎◌, inl, inr, refl, ap, ◌∙◌, sym, none, some, List, [],
  ◌++◌, arith, length, get_or, get_or-beyond, length-append, ltb, ltb→lt, Bool-cases, ◌==◌, ==_iff,
  true, if◌then◌else◌,
}
use simple_kit.Base.Memory.{
  Memory, read, write, length-read, get_or-read, read-write_self, read-append, read-write_middle,
  write-write,
}
use simple_kit.Head.{
  Head, ByteOrder, little, big, undigits, reverse_bytes, get_field, put_field, encode, decode,
  magic_num,
}
use simple_kit.Head.Wire.{
  big_endian, length-big_endian, reverse_bytes-digits, undigits-big_endian, big_endian-undigits,
}

-- Both byte orders write a field most significant byte first.
put_field-big_endian :
    (order : ByteOrder) (m : Memory) (at width n : ℕ)
    → 0 < width
    → put_field order m at width n ≡ write m at (big_endian width n)
unfolding put_field
put_field-big_endian little m at width n h = rw (reverse_bytes-digits width n h)
put_field-big_endian big m at width n h = rw (reverse_bytes-digits width n h)

-- Both read it so.
get_field-big_endian :
    (order : ByteOrder) (m : Memory) (at width : ℕ)
    → get_field order m at width ≡ undigits (reverse_bytes (read m at width) width)
unfolding get_field
get_field-big_endian little m at width = refl
get_field-big_endian big m at width = rw (length-read m at width)

-- The 24 bytes of a header on the wire: its own magic number is not sent, but the constant.
abbrev pub wire : Head → List ℕ
wire h =
    big_endian 8 h.id
    ++ big_endian 4 h.type
    ++ big_endian 4 magic_num
    ++ big_endian 4 h.reserved
    ++ big_endian 4 h.body_len

pub length-wire : (h : Head) → length (wire h) ≡ 24
length-wire h = simp (length-append, length-big_endian)

put_field-eight :
    (order : ByteOrder) (m : Memory) (at n : ℕ)
    → put_field order m at 8 n ≡ write m at (big_endian 8 n)
put_field-eight order m at n = put_field-big_endian order m at 8 n (omega arith)

put_field-four :
    (order : ByteOrder) (m : Memory) (at n : ℕ)
    → put_field order m at 4 n ≡ write m at (big_endian 4 n)
put_field-four order m at n = put_field-big_endian order m at 4 n (omega arith)

-- For every byte order, shead_encode returns -1 exactly when len is below 24, and else writes the
-- big-endian wire format of the header at offset 0 and nothing else.
pub encode-wire :
    (order : ByteOrder) (h : Head) (output : Memory) (len : ℕ)
    → encode order h output len ≡ (if ltb len 24 then none else some (write output 0 (wire h)))
unfolding encode
encode-wire order h output len =
    let a = big_endian 8 h.id in
    let b = big_endian 4 h.type in
    let c = big_endian 4 magic_num in
    let d = big_endian 4 h.reserved in
    let e = big_endian 4 h.body_len in
    let ab : length (a ++ b) ≡ 12 = simp (length-append, length-big_endian) in
    let abc : length (a ++ b ++ c) ≡ 16 = simp (length-append, length-big_endian) in
    let abcd : length (a ++ b ++ c ++ d) ≡ 20 = simp (length-append, length-big_endian) in
    simp (put_field-eight order, put_field-four order)
      (rw (
        write-write output 0 8 a b (omega (arith, length-big_endian 8 h.id)),
        write-write output 0 12 (a ++ b) c (omega arith),
        write-write output 0 16 (a ++ b ++ c) d (omega arith),
        write-write output 0 20 (a ++ b ++ c ++ d) e (omega arith),
      ))

-- What `shead_decode` gives: the fields as big-endian numbers, if the magic number is right.
abbrev pub field : Memory → ℕ → ℕ → ℕ
field m at width = undigits (reverse_bytes (read m at width) width)

pub decode-field :
    (order : ByteOrder) (input : Memory) (len : ℕ)
    → decode order input len ≡ (
        if ltb len 24
        then none
        else if field input 12 4 == magic_num
        then some (record {
          id = field input 0 8;
          type = field input 8 4;
          magic = field input 12 4;
          reserved = field input 16 4;
          body_len = field input 20 4;
        })
        else none)
unfolding decode
decode-field order input len = simp (get_field-big_endian order)

-- The fields of a header fit their C types.
pub record Fits (h : Head) : Type 0 where
  pub id : h.id < 2 ^ 64
  pub type : h.type < 2 ^ 32
  pub reserved : h.reserved < 2 ^ 32
  pub body_len : h.body_len < 2 ^ 32

-- A field behind `before` in written bytes.
field-write :
    (m : Memory) (at width n : ℕ) (bytes before after : List ℕ)
    → bytes ≡ before ++ (big_endian width n ++ after)
    → length before ≡ at
    → 0 < width
    → n < 256 ^ width
    → field (write m 0 bytes) at width ≡ n
field-write m at width n bytes before after e size pos fits =
    let middle =
      read-write_middle m at width before (big_endian width n) after (sym size)
        (sym (length-big_endian width n)) in
    rw (e, middle) (undigits-big_endian width n pos fits)

-- A header read off the place where it was written.
field-wire :
    (m : Memory) (h : Head)
    → Fits h
    → (field (write m 0 (wire h)) 0 8 ≡ h.id)
      × (field (write m 0 (wire h)) 8 4 ≡ h.type)
      × (field (write m 0 (wire h)) 12 4 ≡ magic_num)
      × (field (write m 0 (wire h)) 16 4 ≡ h.reserved)
      × (field (write m 0 (wire h)) 20 4 ≡ h.body_len)
field-wire m h fits =
    let a = big_endian 8 h.id in
    let b = big_endian 4 h.type in
    let c = big_endian 4 magic_num in
    let d = big_endian 4 h.reserved in
    let e = big_endian 4 h.body_len in
    (
      field-write m 0 8 h.id (wire h) [] (b ++ c ++ d ++ e) (simp append_assoc) refl (omega arith)
          (omega arith),
      field-write m 8 4 h.type (wire h) a (c ++ d ++ e) (simp append_assoc)
          (length-big_endian 8 h.id) (omega arith) (omega arith),
      field-write m 12 4 magic_num (wire h) (a ++ b) (d ++ e) (simp append_assoc)
          (simp (length-append, length-big_endian)) (omega arith) (omega arith),
      field-write m 16 4 h.reserved (wire h) (a ++ b ++ c) e (simp append_assoc)
          (simp (length-append, length-big_endian)) (omega arith) (omega arith),
      field-write m 20 4 h.body_len (wire h) (a ++ b ++ c ++ d) [] (simp (append_assoc, append-nil))
          (simp (length-append, length-big_endian)) (omega arith) (omega arith),
    )

read-small :
    (m : Memory) (at n : ℕ) → ((i : ℕ) → m i < 256) → (i : ℕ) → get_or (read m at n) i 0 < 256
read-small m at n bytes i = elim (Bool-cases (ltb i n)) [
  | inl inside ↦ omega (arith, get_or-read m at n i (ltb→lt i n inside), bytes (at + i))
  | inr outside ↦
      omega (arith, get_or-beyond (read m at n) i 0 (ground (arith, length-read m at n)))
]

-- For a header whose fields fit their C types, a machine of any byte order decodes what a machine
-- of any byte order encoded into the first 24 bytes to the same header with the magic number in
-- place.
pub decode-encode :
    (sender receiver : ByteOrder) (h : Head) (output : Memory) (len size : ℕ) {sent : Memory}
    → Fits h
    → 24 ≤ size
    → encode sender h output len ≡ some sent
    → decode receiver sent size ≡ some (record h { magic = magic_num })
decode-encode sender receiver h output len size {sent} fits room e =
    let sent_is : sent ≡ write output 0 (wire h) =
      ground (arith, encode-wire sender h output len) in
    let (id, type, magic, reserved, body_len) = field-wire output h fits in
    rw (sent_is, decode-field) (ground (arith, id, type, magic, reserved, body_len))

-- On a memory of bytes shead_decode returns -1 exactly when len is below 24 or bytes 12 to 15 are
-- not the big-endian magic number.
pub decode-eq-none :
    (order : ByteOrder) (input : Memory) (len : ℕ)
    → ((i : ℕ) → input i < 256)
    → (decode order input len ≡ none) ↔ ((len < 24) ⊎ (read input 12 4 ≢ big_endian 4 magic_num))
decode-eq-none order input len bytes = (reject, refuse)
  where
    back : big_endian 4 (field input 12 4) ≡ read input 12 4
    back =
        big_endian-undigits (read input 12 4) 4 (omega arith) (length-read input 12 4)
          (read-small input 12 4 bytes)

    magic_of : read input 12 4 ≡ big_endian 4 magic_num → (field input 12 4 == magic_num) ≡ true
    magic_of same =
        (==_iff _ _).1 (rw same (undigits-big_endian 4 magic_num (omega arith) (omega arith)))

    reject : decode order input len ≡ none → (len < 24) ⊎ (read input 12 4 ≢ big_endian 4 magic_num)
    reject e = elim (Bool-cases (ltb len 24)) [
      | inl short ↦ inl (ltb→lt len 24 short)
      | inr long ↦
          inr λ same. cc (rw (long, magic_of same) at (sym (decode-field order input len) ∙ e))
    ]

    refuse : (len < 24) ⊎ (read input 12 4 ≢ big_endian 4 magic_num) → decode order input len ≡ none
    refuse (inl short) = rw decode-field (ground arith)
    refuse (inr wrong) = elim (Bool-cases (field input 12 4 == magic_num)) [
      | inl right ↦ absurd (wrong (sym back ∙ ap (big_endian 4) ((==_iff _ _).0 right)))
      | inr other ↦ rw (decode-field, other) (ground arith)
    ]

-- What shead_decode accepts from a memory of bytes and shead_encode encodes again, on machines of
-- any byte order, is byte for byte what was received in the 24 bytes.
pub encode-decode :
    (receiver sender : ByteOrder) (input output : Memory) (len size : ℕ) {h : Head} {sent : Memory}
    → ((i : ℕ) → input i < 256)
    → decode receiver input len ≡ some h
    → encode sender h output size ≡ some sent
    → read sent 0 24 ≡ read input 0 24
encode-decode receiver sender input output len size {h} {sent} bytes d e =
    let sent_is : sent ≡ write output 0 (wire h) =
      ground (arith, encode-wire sender h output size) in
    let found = sym (decode-field receiver input len) ∙ d in
    let same = λ (at width : ℕ) (pos : 0 < width).
      big_endian-undigits (read input at width) width pos (length-read input at width)
        (read-small input at width bytes) in
    let id : h.id ≡ field input 0 8 = ground arith in
    let type : h.type ≡ field input 8 4 = ground arith in
    let magic : magic_num ≡ field input 12 4 = ground arith in
    let reserved : h.reserved ≡ field input 16 4 = ground arith in
    let body_len : h.body_len ≡ field input 20 4 = ground arith in
    rw sent_is (
      read-write_self output 0 24 (wire h) (sym (length-wire h))
      ∙ rw (
        id,
        type,
        magic,
        reserved,
        body_len,
        same 0 8 (omega arith),
        same 8 4 (omega arith),
        same 12 4 (omega arith),
        same 16 4 (omega arith),
        same 20 4 (omega arith),
        ← read-append input 0 8 4,
        ← read-append input 0 12 4,
        ← read-append input 0 16 4,
        ← read-append input 0 20 4,
      ))
