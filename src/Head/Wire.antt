-- ===== src/Head/Wire.antt =====
-- The wire format, described without the code: most significant byte first, on every machine.
use native.Mathlib.Nat.{pow-suc}
use simple_kit.Base.{
  ℕ, zero, suc, ◌+◌, ◌-◌, ◌*◌, ◌/◌, ◌%◌, ◌^◌, ◌<◌, ◌≡◌, refl, ap, ◌∙◌, sym, List, [], ◌∷◌, ◌++◌,
  arith, length, get_or, length-append, get_or-append, get_or_ext, get_or-beyond, Bool-cases, inl,
  inr, ltb, ltb→lt,
}
use simple_kit.Head.{digits, undigits, reverse_bytes}
use simple_kit.Head.Reverse.{
  get_or-reverse_bytes, length-reverse_bytes, reverse_bytes-reverse_bytes,
}

-- The big-endian bytes of `n`.
unfoldable pub big_endian : ℕ → ℕ → List ℕ
big_endian zero n = []
big_endian (suc width) n = big_endian width (n / 256) ++ n % 256 ∷ []

-- Every entry is a byte.
abbrev pub AllBytes : List ℕ → Type 0
AllBytes [] = Unit {0}
AllBytes (b ∷ bytes) = (b < 256) × AllBytes bytes

pub length-digits : (width n : ℕ) → length (digits width n) ≡ width
unfolding digits
length-digits zero n = refl
length-digits (suc width) n = ap suc (length-digits width (n / 256))

pub length-big_endian : (width n : ℕ) → length (big_endian width n) ≡ width
unfolding big_endian
length-big_endian zero n = refl
length-big_endian (suc width) n = omega (
  arith,
  length-append (big_endian width (n / 256)) (n % 256 ∷ []),
  length-big_endian width (n / 256),
)

get_or-big_endian :
    (width n k : ℕ)
    → k < width
    → get_or (big_endian width n) k 0 ≡ get_or (digits width n) (width - 1 - k) 0
unfolding big_endian digits
get_or-big_endian zero n k h = absurd (omega arith)
get_or-big_endian (suc width) n k h = ground (
  arith,
  get_or-append (big_endian width (n / 256)) (n % 256 ∷ []) k 0,
  length-big_endian width (n / 256),
  get_or-big_endian width (n / 256) k,
  ap (λ m. get_or (n % 256 ∷ digits width (n / 256)) m 0) {x = suc width - 1 - k}
      {y = suc (width - 1 - k)},
  ap (λ m. get_or (n % 256 ∷ digits width (n / 256)) m 0) {x = suc width - 1 - k} {y = 0},
  ap (λ m. get_or (n % 256 ∷ []) m 0) {x = k - width} {y = 0},
)

pub undigits-digits : (width n : ℕ) → n < 256 ^ width → undigits (digits width n) ≡ n
unfolding digits undigits
undigits-digits zero n h = omega arith
undigits-digits (suc width) n h =
    omega (arith, undigits-digits width (n / 256) (omega (arith, pow-suc 256 width)))

pub digits-undigits :
    (bytes : List ℕ) → AllBytes bytes → digits (length bytes) (undigits bytes) ≡ bytes
unfolding digits undigits
digits-undigits [] h = refl
digits-undigits (b ∷ bytes) h =
    let low : (b + 256 * undigits bytes) % 256 ≡ b = omega arith in
    let high : (b + 256 * undigits bytes) / 256 ≡ undigits bytes = omega arith in
    rw (low, high, digits-undigits bytes h.1)

-- The reversed little-endian bytes are the big-endian bytes.
pub reverse_bytes-digits :
    (width n : ℕ) → 0 < width → reverse_bytes (digits width n) width ≡ big_endian width n
reverse_bytes-digits width n h =
    let low = digits width n in
    let size = length-digits width n in
    let total : length (reverse_bytes low width) ≡ width = length-reverse_bytes low width ∙ size in
    get_or_ext 0 _ _ (total ∙ sym (length-big_endian width n)) λ k p.
      let q : k < width = omega arith in
      rw size at (get_or-reverse_bytes low k (omega arith) (omega arith))
      ∙ sym (get_or-big_endian width n k q)

AllBytes-of : (bytes : List ℕ) → ((i : ℕ) → get_or bytes i 0 < 256) → AllBytes bytes
AllBytes-of [] h = tt
AllBytes-of (b ∷ bytes) h = (h 0, AllBytes-of bytes λ i. h (suc i))

reverse_small :
    (bytes : List ℕ) (i : ℕ)
    → 0 < length bytes
    → ((j : ℕ) → get_or bytes j 0 < 256)
    → get_or (reverse_bytes bytes (length bytes)) i 0 < 256
reverse_small bytes i pos small =
    let n = length bytes in
    elim (Bool-cases (ltb i n)) [
      | inl inside ↦
          omega (arith, get_or-reverse_bytes bytes i pos (ltb→lt i n inside), small (n - 1 - i))
      | inr outside ↦ omega (
        arith,
        get_or-beyond (reverse_bytes bytes n) i 0 (ground (arith, length-reverse_bytes bytes n)),
      )
    ]

-- Reading bytes as a big-endian number and writing the number gives the bytes back.
pub big_endian-undigits :
    (bytes : List ℕ) (width : ℕ)
    → 0 < width
    → length bytes ≡ width
    → ((i : ℕ) → get_or bytes i 0 < 256)
    → big_endian width (undigits (reverse_bytes bytes width)) ≡ bytes
big_endian-undigits bytes width pos size small =
    let turned = reverse_bytes bytes width in
    let total : length turned ≡ width = length-reverse_bytes bytes width ∙ size in
    let value = undigits turned in
    let all = AllBytes-of turned λ i. rw size at (reverse_small bytes i (omega arith) small) in
    let again : digits width value ≡ turned = rw total at (digits-undigits turned all) in
    sym (reverse_bytes-digits width value pos)
    ∙ rw again (rw size at (reverse_bytes-reverse_bytes bytes (omega arith)))

-- And the other way round, for a number that fits.
pub undigits-big_endian :
    (width n : ℕ)
    → 0 < width
    → n < 256 ^ width
    → undigits (reverse_bytes (big_endian width n) width) ≡ n
undigits-big_endian width n pos fits =
    let low = digits width n in
    let size = length-digits width n in
    rw (← reverse_bytes-digits width n pos) (
      ap undigits (rw size at (reverse_bytes-reverse_bytes low (omega arith)))
      ∙ undigits-digits width n fits)
