-- ===== src/Head.antt =====
-- simple_head/shead.c and shead.h: the 24-byte message header of the RPC protocol.
-- An integer in memory is a run of bytes in the order of the machine, which is a parameter: the
-- code tests that order when it runs, by the union in `_shead_check_bigendian`.
pub mod Reverse
pub mod Wire
pub mod Codec
pub mod Local
pub mod Tests
use simple_kit.Base.{
  ℕ, zero, suc, ◌+◌, ◌-◌, ◌*◌, ◌/◌, ◌%◌, ◌^◌, ◌<◌, Bool, true, false, Option, none, some, List, [],
  ◌∷◌, ◌++◌, ltb, ◌==◌, if◌then◌else◌, length, get_or, set,
}
use simple_kit.Base.Memory.{Memory, read, write}

abbrev pub magic_num : ℕ
magic_num = 0xF2A1C2CC

abbrev pub encode_size : ℕ
encode_size = 24

pub record Head : Type 0 where
  pub id : ℕ
  pub type : ℕ
  pub magic : ℕ
  pub reserved : ℕ
  pub body_len : ℕ

-- The byte order of the machine that runs the code.
pub data ByteOrder : Type 0 where
  little big : ByteOrder

-- The `width` bytes of `n`, least significant first.
unfoldable pub digits : ℕ → ℕ → List ℕ
digits zero n = []
digits (suc width) n = n % 256 ∷ digits width (n / 256)

-- The integer of bytes that stand least significant first.
unfoldable pub undigits : List ℕ → ℕ
undigits [] = 0
undigits (b ∷ bytes) = b + 256 * undigits bytes

-- `while (bytes < end) { swap; ++bytes, --end; }`, on fuel; `i` and `j` are the two pointers.
reverse_loop : ℕ → List ℕ → ℕ → ℕ → List ℕ
reverse_loop zero bytes i j = bytes
reverse_loop (suc fuel) bytes i j =
    let swapped = set (set bytes i (get_or bytes j 0)) j (get_or bytes i 0) in
    let rest = reverse_loop fuel swapped (i + 1) (j - 1) in if ltb i j then rest else bytes

-- `end = bytes + len - 1`; every caller has a positive length, so `len - 1` does not wrap.
pub reverse_bytes : List ℕ → ℕ → List ℕ
unfolding reverse_loop
reverse_bytes bytes len = reverse_loop len bytes 0 (len - 1)

-- The bytes of an integer as the machine stores them, and the integer of stored bytes.
pub store : ByteOrder → ℕ → ℕ → List ℕ
unfolding digits reverse_bytes
store little width n = digits width n
store big width n = reverse_bytes (digits width n) width

pub fetch : ByteOrder → List ℕ → ℕ
unfolding undigits reverse_bytes
fetch little bytes = undigits bytes
fetch big bytes = undigits (reverse_bytes bytes (length bytes))

-- `u.n = 1; if (u.b == 1)`: the first stored byte of 1 tells a little-endian machine.
pub check_bigendian : ByteOrder → List ℕ → ℕ → List ℕ
unfolding store reverse_bytes
check_bigendian order bytes len =
    if get_or (store order 4 1) 0 0 == 1 then reverse_bytes bytes len else bytes

-- One field of the encoder: the local copy, its bytes put in wire order, and the `memcpy`.
pub put_field : ByteOrder → Memory → ℕ → ℕ → ℕ → Memory
unfolding store check_bigendian write
put_field order output at width n =
    write output at (check_bigendian order (store order width n) width)

-- One field of the decoder.
pub get_field : ByteOrder → Memory → ℕ → ℕ → ℕ
unfolding fetch check_bigendian read
get_field order input at width = fetch order (check_bigendian order (read input at width) width)

-- `none` is the return of -1, with `output` as it was.
pub encode : ByteOrder → Head → Memory → ℕ → Option Memory
unfolding put_field
encode order head output len =
    if ltb len encode_size
    then none
    else let output = put_field order output 0 8 head.id in
      let output = put_field order output 8 4 head.type in
      let output = put_field order output 12 4 magic_num in
      let output = put_field order output 16 4 head.reserved in
      some (put_field order output 20 4 head.body_len)

-- `none` is the return of -1, with `*head` as it was; else every field of `*head` is assigned.
pub decode : ByteOrder → Memory → ℕ → Option Head
unfolding get_field
decode order input len =
    if ltb len encode_size
    then none
    else let magic = get_field order input 12 4 in
      if magic == magic_num
      then some (record {
        id = get_field order input 0 8;
        type = get_field order input 8 4;
        magic = magic;
        reserved = get_field order input 16 4;
        body_len = get_field order input 20 4;
      })
      else none
