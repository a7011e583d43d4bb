-- ===== src/Rpc/Parse.antt =====
-- simple_io/sio_rpc.c: the loop of `_sio_rpc_dstream_parse_request`, which is also that of
-- `_sio_rpc_upstream_parse_response`. What is done with a message is a parameter; it must leave
-- the connection's input buffer alone, as it does unless it closes the connection.
pub mod Frames
pub mod Input
pub mod Chunks
use simple_kit.Base.{
  ℕ, zero, suc, ◌+◌, ◌-◌, ◌%◌, ◌^◌, Bool, true, false, Option, none, some, List, [], ◌∷◌, ltb,
  if◌then◌else◌,
}
use simple_kit.Base.Memory.{Memory, read}
use simple_kit.Base.Words.{add64}
use simple_kit.Head.{Head, ByteOrder, decode, encode_size}
use simple_kit.Buffer.{Buffer, live, erase}

-- `SHEAD_ENCODE_SIZE + head.body_len` is a `uint32_t`.
abbrev pub add32 : ℕ → ℕ → ℕ
add32 a b = (a + b) % 2 ^ 32

-- The return of -1; the end of the loop, with `used`; or no fuel left.
pub data Outcome {ℓ} (S : Type ℓ) : Type ℓ where
  rejected : S → Outcome S
  consumed : ℕ → S → Outcome S
  out_of_fuel : Outcome S

module _ {ℓ} {S : Type ℓ} (order : ByteOrder) (handle : Head → List ℕ → S → S) where
  -- `while (used < size)`; `bytes` is the memory from `data` on.
  unfoldable pub parse_loop : ℕ → Memory → ℕ → ℕ → S → Outcome S
  parse_loop zero bytes size used s = out_of_fuel
  parse_loop (suc fuel) bytes size used s =
      let round : Outcome S = elim (decode order (λ i. bytes (used + i)) encode_size) [
        | none ↦ rejected s
        | some head ↦
            let rest =
              parse_loop fuel bytes size (add64 used (add32 encode_size head.body_len))
                (handle head (read bytes (used + encode_size) head.body_len) s) in
            if ltb (size - used - encode_size) head.body_len then consumed used s else rest
      ] in
      if ltb used size
      then if ltb (size - used) encode_size then consumed used s else round
      else consumed used s

  -- `false` is the return of -1, which leaves the input as it was.
  unfoldable pub parse : Memory → Buffer → S → Option (Bool × Buffer × S)
  unfolding parse_loop
  parse fresh b s =
      let (at, size) = live b in
      elim (parse_loop (size + 1) (λ i. b.buffer (at + i)) size 0 s) [
        | rejected t ↦ some (false, b, t)
        | consumed used t ↦ some (true, erase fresh b used, t)
        | out_of_fuel ↦ none
      ]
