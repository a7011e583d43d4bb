-- ===== src/Rpc/Parse/Input.antt =====
-- The parsing loop on the input buffer of a connection.
use simple_kit.Base.{
  ℕ, suc, ◌+◌, ◌-◌, ◌^◌, ◌≤◌, ◌<◌, ◌≡◌, ◌≢◌, refl, sym, ap, ◌∙◌, Bool, true, false, Option, some,
  List, [], ◌∷◌, ◌++◌, arith, length, length-append, drop, drop-append,
}
use simple_kit.Base.Memory.{Memory, read, length-read, read_congr}
use simple_kit.Base.Words.{sub64}
use simple_kit.Head.{Head, ByteOrder, magic_num}
use simple_kit.Head.Wire.{big_endian}
use simple_kit.Buffer.{Buffer, live, erase, live_length}
use simple_kit.Buffer.Laws.{IsValid, contents, length-contents, contents-erase}
use simple_kit.Rpc.Parse.{parse_loop, parse}
use simple_kit.Rpc.Parse.Frames.{
  Message, AllSent, frame, frames, length-frame, Incomplete, handle_all, parse_loop-frames,
  parse_loop-Incomplete, parse_loop-bad,
}

length-le-frames : (ms : List Message) → length ms ≤ length (frames ms)
length-le-frames [] = omega arith
length-le-frames (m ∷ ms) =
    omega (arith, length-append (frame m) (frames ms), length-frame m, length-le-frames ms)

-- What a successful parse leaves.
pub record Parsed {ℓ} {S : Type ℓ} (rest : List ℕ) (t : S) (r : Option (Bool × Buffer × S))
    : Type ℓ where
  pub buffer : Buffer
  pub returned : r ≡ some (true, buffer, t)
  pub valid : IsValid buffer
  pub left : contents buffer ≡ rest

module _ {ℓ} {S : Type ℓ} (order : ByteOrder) (handle : Head → List ℕ → S → S) where
  module _ (fresh : Memory) (b : Buffer) (s : S) (ms : List Message) (rest : List ℕ) (v : IsValid b)
      (small : length (contents b) < 2 ^ 32) (sent : AllSent ms)
      (e : contents b ≡ frames ms ++ rest) where
    abbrev bytes : Memory
    bytes i = b.buffer (b.start + i)

    abbrev size : ℕ
    size = sub64 b.end b.start

    size-eq : size ≡ b.end - b.start
    size-eq = let p = v.ordered in let q = v.inside in let r = v.small in omega arith

    here : read bytes 0 size ≡ frames ms ++ rest
    here =
        ap (read bytes 0) size-eq
        ∙ read_congr bytes b.buffer 0 b.start (b.end - b.start) (λ i p. ap b.buffer (omega arith))
        ∙ e

    size-length : size ≡ length (frames ms) + length rest
    size-length = sym (length-read bytes 0 size) ∙ ap length here ∙ length-append (frames ms) rest

    looped :
        (left : ℕ) × (parse_loop order handle (size + 1) bytes size 0 s
          ≡ parse_loop order handle
              (suc left)
              bytes
              size
              (length (frames ms))
              (handle_all handle ms s))
        × (length (frames ms) + length rest ≡ size)
        × (read bytes (length (frames ms)) (length rest) ≡ rest)
    looped =
        let all : size - 0 ≡ size = omega arith in
        let zero_less : 0 + length (frames ms) ≡ length (frames ms) = omega arith in
        rw zero_less at (
          parse_loop-frames order handle (size + 1) bytes size 0 s ms rest
            (omega (arith, size-eq, length-contents b)) (omega arith) sent
            (omega (arith, length-le-frames ms, size-length)) (rw all here))

    -- On an input of whole messages and an incomplete one, `parse` handles the whole messages in
    -- order, returns 0 and leaves exactly the bytes of the incomplete one.
    pub parse-frames :
        Incomplete rest → Parsed rest (handle_all handle ms s) (parse order handle fresh b s)
    unfolding parse live
    parse-frames open_end =
        let (left, run, total, kept) = looped in
        let stop =
          parse_loop-Incomplete order handle left bytes size (length (frames ms))
            (handle_all handle ms s) rest (omega (arith, size-eq, length-contents b)) total kept
            open_end in
        let used = length (frames ms) in
        let (valid, same) =
          contents-erase fresh b used v (unfold live_length in omega (arith, size-length)) in
        record {
          buffer = erase fresh b used;
          returned = rw (run ∙ stop, parse) refl;
          valid = valid;
          left = same ∙ ap (drop used) e ∙ drop-append (frames ms) rest;
        }

    -- On a valid input of bytes below 256, fewer than 2^32, that holds whole messages and then 24
    -- bytes or more of which the third word is not the magic number, the parser handles the whole
    -- messages in order, returns -1 and leaves the input as it was.
    pub parse-bad :
        (first word last : List ℕ)
        → ((i : ℕ) → b.buffer i < 256)
        → rest ≡ first ++ (word ++ last)
        → length first ≡ 12
        → length word ≡ 4
        → 8 ≤ length last
        → word ≢ big_endian 4 magic_num
        → parse order handle fresh b s ≡ some (false, b, handle_all handle ms s)
    unfolding parse live
    parse-bad first word last small_bytes is lf lw ll wrong =
        let (left, run, total, kept) = looped in
        let stop =
          parse_loop-bad order handle left bytes size (length (frames ms)) (handle_all handle ms s)
            first word last (λ i. small_bytes (b.start + i)) (rw is at total) (rw is at kept) lf lw
            ll wrong in
        rw (run ∙ stop, parse) refl
