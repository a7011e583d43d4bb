-- ===== src/Head/Tests.antt =====
-- The header's theorems at concrete headers and memories.
use simple_kit.Base.{
  ◌-◌, ◌<◌, ◌≡◌, ◌≢◌, ◌↔◌, ◌⊎◌, refl, none, some, [], ◌∷◌, arith, if◌then◌else◌, ltb, ◌==◌, get_or,
}
use simple_kit.Base.Memory.{Memory, read, write}
use simple_kit.Head.{
  digits, undigits, Head, little, big, reverse_loop, reverse_bytes, store, fetch, check_bigendian,
  get_field, encode, decode, magic_num,
}
use simple_kit.Head.Reverse.{get_or-reverse_bytes, reverse_bytes-reverse_bytes}
use simple_kit.Head.Wire.{big_endian}
use simple_kit.Head.Codec.{Fits, wire, encode-wire, decode-encode, decode-eq-none, encode-decode}

abbrev sample : Head
sample = record { id = 258; type = 7; magic = 0; reserved = 0; body_len = 65536 }

sample-Fits : Fits sample
sample-Fits = record {
  id = omega arith;
  type = omega arith;
  reserved = omega arith;
  body_len = omega arith;
}

abbrev zeros : Memory
zeros i = 0

encode-wire_example :
    encode little sample zeros 23 ≡ (if ltb 23 24 then none else some (write zeros 0 (wire sample)))
encode-wire_example = encode-wire little sample zeros 23

decode-encode_example :
    decode big (write zeros 0 (wire sample)) 24 ≡ some (record sample { magic = magic_num })
decode-encode_example =
    decode-encode little big sample zeros 32 24 sample-Fits (omega arith)
      (encode-wire little sample zeros 32)

decode-eq-none_example :
    (decode little zeros 24 ≡ none) ↔ ((24 < 24) ⊎ (read zeros 12 4 ≢ big_endian 4 magic_num))
decode-eq-none_example = decode-eq-none little zeros 24 λ i. omega arith

reverse_bytes-reverse_bytes_example :
    reverse_bytes (reverse_bytes (1 ∷ 2 ∷ 3 ∷ []) 3) 3 ≡ 1 ∷ 2 ∷ 3 ∷ []
reverse_bytes-reverse_bytes_example = reverse_bytes-reverse_bytes (1 ∷ 2 ∷ 3 ∷ []) (omega arith)

get_or-reverse_bytes_example :
    get_or (reverse_bytes (1 ∷ 2 ∷ 3 ∷ []) 3) 0 0 ≡ get_or (1 ∷ 2 ∷ 3 ∷ []) (3 - 1 - 0) 0
get_or-reverse_bytes_example = get_or-reverse_bytes (1 ∷ 2 ∷ 3 ∷ []) 0 (omega arith) (omega arith)

-- A header as it arrives: only the magic number and the body's length are not zero.
abbrev received : Memory
received i =
    if i == 12
    then 242
    else if i == 13
    then 161
    else if i == 14
    then 194
    else if i == 15
    then 204
    else if i == 23
    then 9
    else 0

abbrev parsed : Head
parsed = record { id = 0; type = 0; magic = magic_num; reserved = 0; body_len = 9 }

received-parsed : decode little received 24 ≡ some parsed
unfolding read digits undigits reverse_loop reverse_bytes store fetch check_bigendian get_field
    decode
received-parsed = refl

encode-decode_example : read (write zeros 0 (wire parsed)) 0 24 ≡ read received 0 24
encode-decode_example =
    encode-decode little big received zeros 24 24 (λ i. ground arith) received-parsed
      (encode-wire big parsed zeros 24)
