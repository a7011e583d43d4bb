-- ===== src/Rpc/Parse/Frames.antt =====
-- A message on the wire, and what the parsing loop does with the bytes of several messages.
use mathlib.Core.List.{append_assoc}
use simple_kit.Base.{
  ℕ, zero, suc, ◌+◌, ◌-◌, ◌^◌, ◌≤◌, ◌<◌, ◌≡◌, ◌≢◌, inl, inr, refl, sym, ap, ◌∙◌, true, false, some,
  List, [], ◌∷◌, ◌++◌, arith, length, ltb, Bool-cases, length-append, append_cancel,
}
use simple_kit.Base.Memory.{Memory, read, length-read, read-append, read_congr}
use simple_kit.Base.Words.{add64}
use simple_kit.Head.{Head, ByteOrder, encode_size, magic_num}
use simple_kit.Head.Wire.{big_endian}
use simple_kit.Head.Codec.{Fits, wire, length-wire, decode-eq-none}
use simple_kit.Head.Local.{decode-wire}
use simple_kit.Rpc.Parse.{add32, rejected, consumed, parse_loop}

-- A header with the body behind it.
pub record Message : Type 0 where
  pub head : Head
  pub body : List ℕ

-- A message as a peer sends it.
pub record IsSent (m : Message) : Type 0 where
  pub fits : Fits m.head
  pub magic : m.head.magic ≡ magic_num
  pub sized : m.head.body_len ≡ length m.body

abbrev pub AllSent : List Message → Type 0
AllSent [] = Unit {0}
AllSent (m ∷ ms) = IsSent m × AllSent ms

abbrev pub frame : Message → List ℕ
frame m = wire m.head ++ m.body

-- The bytes of all messages, in order.
abbrev pub frames : List Message → List ℕ
frames [] = []
frames (m ∷ ms) = frame m ++ frames ms

-- A message of which some bytes are missing: not all of the header is there, or all of the header
-- and not all of the body.
pub data Incomplete (rest : List ℕ) : Type 0 where
  short : length rest < 24 → Incomplete rest
  open_body :
      (h : Head) (part : List ℕ)
      → Fits h
      → rest ≡ wire h ++ part
      → length part < h.body_len
      → Incomplete rest

-- Handling messages one after the other.
abbrev pub handle_all {ℓ} : {S : Type ℓ} → (Head → List ℕ → S → S) → List Message → S → S
handle_all handle [] s = s
handle_all handle (m ∷ ms) s = handle_all handle ms (handle m.head m.body s)

pub length-frame : (m : Message) → length (frame m) ≡ 24 + length m.body
length-frame m = omega (arith, length-append (wire m.head) m.body, length-wire m.head)

-- Reading parts of what stands in memory.
read-prefix :
    (bytes : Memory) (at n k : ℕ) (xs ys : List ℕ)
    → read bytes at n ≡ xs ++ ys
    → length xs ≡ k
    → (k ≤ n) × (read bytes at k ≡ xs) × (read bytes (at + k) (n - k) ≡ ys)
read-prefix bytes at n k xs ys e size =
    let total : n ≡ length xs + length ys =
      sym (length-read bytes at n) ∙ ap length e ∙ length-append xs ys in
    let fits : k ≤ n = omega arith in
    let sum : k + (n - k) ≡ n = omega arith in
    let cut = sym (read-append bytes at k (n - k)) ∙ ap (read bytes at) sum ∙ e in
    let (front, back) =
      append_cancel xs (read bytes at k) (read bytes (at + k) (n - k)) ys cut
        (size ∙ sym (length-read bytes at k)) in
    (fits, front, back)

module _ {ℓ} {S : Type ℓ} (order : ByteOrder) (handle : Head → List ℕ → S → S) where
  -- A whole message in front: it is handled, and the loop goes on behind it.
  parse_loop-frame :
      (fuel : ℕ) (bytes : Memory) (size used : ℕ) (s : S) (m : Message) (more : List ℕ)
      → size < 2 ^ 32
      → used ≤ size
      → IsSent m
      → read bytes used (size - used) ≡ frame m ++ more
      → let next = used + length (frame m) in
        (next ≤ size)
        × (read bytes next (size - next) ≡ more)
        × (parse_loop order handle (suc fuel) bytes size used s
            ≡ parse_loop order handle fuel bytes size next (handle m.head m.body s))
  unfolding parse_loop
  parse_loop-frame fuel bytes size used s m more small inside sent e =
      let sized = sent.sized in
      let (room, head_is, body_more) =
        read-prefix bytes used (size - used) 24 (wire m.head) (m.body ++ more)
          (e ∙ append_assoc (wire m.head) m.body more) (length-wire m.head) in
      let (fits, body_is, more_is) =
        read-prefix bytes (used + 24) (size - used - 24) m.head.body_len m.body more body_more
          (sym sized) in
      let next : used + length (frame m) ≡ used + 24 + m.head.body_len =
        omega (arith, length-frame m) in
      let left : size - (used + 24 + m.head.body_len) ≡ size - used - 24 - m.head.body_len =
        omega arith in
      let moved : add64 used (add32 encode_size m.head.body_len) ≡ used + 24 + m.head.body_len =
        omega arith in
      let shifted : read (λ i. bytes (used + i)) 0 24 ≡ read bytes used 24 =
        read_congr (λ i. bytes (used + i)) bytes 0 used 24 λ i p. ap bytes (omega arith) in
      let got =
        decode-wire order (λ i. bytes (used + i)) m.head sent.fits (shifted ∙ head_is)
        ∙ ap (λ g. some (record m.head { magic = g })) (sym sent.magic) in
      let more_bytes : ltb used size ≡ true = ground arith in
      let whole : ltb (size - used) encode_size ≡ false = ground arith in
      let complete : ltb (size - used - encode_size) m.head.body_len ≡ false = ground arith in
      rw next
        (omega arith, rw left more_is, rw (more_bytes, whole, got, complete, moved, body_is) refl)

  -- All whole messages in front: they are handled in order.
  pub parse_loop-frames :
      (fuel : ℕ) (bytes : Memory) (size used : ℕ) (s : S) (ms : List Message) (rest : List ℕ)
      → size < 2 ^ 32
      → used ≤ size
      → AllSent ms
      → length ms < fuel
      → read bytes used (size - used) ≡ frames ms ++ rest
      → (left : ℕ) × (parse_loop order handle fuel bytes size used s
          ≡ parse_loop order handle
              (suc left)
              bytes
              size
              (used + length (frames ms))
              (handle_all handle ms s))
        × (used + length (frames ms) + length rest ≡ size)
        × (read bytes (used + length (frames ms)) (length rest) ≡ rest)
  parse_loop-frames zero bytes size used s ms rest small inside sent f e = absurd (omega arith)
  parse_loop-frames (suc fuel) bytes size used s [] rest small inside sent f e =
      let none_yet : used + 0 ≡ used = omega arith in
      let all : size - used ≡ length rest =
        sym (length-read bytes used (size - used)) ∙ ap length e in
      (fuel, rw none_yet refl, omega arith, rw none_yet (rw all at e))
  parse_loop-frames (suc fuel) bytes size used s (m ∷ ms) rest small inside sent f e =
      let (room, more, goes) =
        parse_loop-frame fuel bytes size used s m (frames ms ++ rest) small inside sent.0
          (e ∙ append_assoc (frame m) (frames ms) rest) in
      let next = used + length (frame m) in
      let (left, run, total, kept) =
        parse_loop-frames fuel bytes size next (handle m.head m.body s) ms rest small room sent.1
          (omega arith) more in
      let sum : used + length (frame m ++ frames ms) ≡ next + length (frames ms) =
        omega (arith, length-append (frame m) (frames ms)) in
      (left, goes ∙ rw sum run, rw sum total, rw sum kept)

  -- A message of which bytes are missing ends the loop.
  pub parse_loop-Incomplete :
      (fuel : ℕ) (bytes : Memory) (size used : ℕ) (s : S) (rest : List ℕ)
      → size < 2 ^ 32
      → used + length rest ≡ size
      → read bytes used (length rest) ≡ rest
      → Incomplete rest
      → parse_loop order handle (suc fuel) bytes size used s ≡ consumed used s
  unfolding parse_loop
  parse_loop-Incomplete fuel bytes size used s rest small total e (short few) =
      elim (Bool-cases (ltb used size)) [
        | inr done ↦ rw done refl
        | inl more ↦
            let cut : ltb (size - used) encode_size ≡ true = ground arith in rw (more, cut) refl
      ]
  parse_loop-Incomplete fuel bytes size used s rest small total e (open_body h part fits is less) =
      let long : length rest ≡ 24 + length part =
        omega (arith, ap length is, length-append (wire h) part, length-wire h) in
      let (room, head_is, body_is) =
        read-prefix bytes used (length rest) 24 (wire h) part (e ∙ is) (length-wire h) in
      let shifted : read (λ i. bytes (used + i)) 0 24 ≡ read bytes used 24 =
        read_congr (λ i. bytes (used + i)) bytes 0 used 24 λ i p. ap bytes (omega arith) in
      let got = decode-wire order (λ i. bytes (used + i)) h fits (shifted ∙ head_is) in
      let more : ltb used size ≡ true = ground arith in
      let whole : ltb (size - used) encode_size ≡ false = ground arith in
      let missing : ltb (size - used - encode_size) h.body_len ≡ true = ground arith in
      rw (more, whole, got, missing) refl

  -- A wrong magic number ends it with an error.
  pub parse_loop-bad :
      (fuel : ℕ) (bytes : Memory) (size used : ℕ) (s : S) (a b c : List ℕ)
      → ((i : ℕ) → bytes i < 256)
      → used + length (a ++ (b ++ c)) ≡ size
      → read bytes used (length (a ++ (b ++ c))) ≡ a ++ (b ++ c)
      → length a ≡ 12
      → length b ≡ 4
      → 8 ≤ length c
      → b ≢ big_endian 4 magic_num
      → parse_loop order handle (suc fuel) bytes size used s ≡ rejected s
  unfolding parse_loop
  parse_loop-bad fuel bytes size used s a b c small total e la lb lc wrong =
      let sum = length-append a (b ++ c) in
      let sum' = length-append b c in
      let (_, _, behind) = read-prefix bytes used (length (a ++ (b ++ c))) 12 a (b ++ c) e la in
      let (_, word, _) =
        read-prefix bytes (used + 12) (length (a ++ (b ++ c)) - 12) 4 b c behind lb in
      let shifted : read (λ i. bytes (used + i)) 12 4 ≡ read bytes (used + 12) 4 =
        read_congr (λ i. bytes (used + i)) bytes 12 (used + 12) 4 λ i p. ap bytes (omega arith) in
      let got =
        (decode-eq-none order (λ i. bytes (used + i)) 24 (λ i. small (used + i))).1
          (inr λ right. wrong (sym (shifted ∙ word) ∙ right)) in
      let more : ltb used size ≡ true = ground arith in
      let whole : ltb (size - used) encode_size ≡ false = ground arith in rw (more, whole, got) refl
