-- ===== src/Head/Reverse.antt =====
-- `_shead_reverse_bytes` and the byte order of stored integers.
use simple_kit.Base.{
  ℕ, zero, suc, ◌+◌, ◌-◌, ◌<◌, ◌≡◌, refl, ap, ◌∙◌, List, arith, ltb, ltb→lt, Bool-cases, inl, inr,
  ◌==◌, if◌then◌else◌, length, get_or, set, length-set, get_or-set, get_or_ext,
}
use simple_kit.Head.{reverse_loop, reverse_bytes}

-- The loop keeps the length.
length-reverse_loop :
    (fuel : ℕ) (bytes : List ℕ) (i j : ℕ) → length (reverse_loop fuel bytes i j) ≡ length bytes
unfolding reverse_loop
length-reverse_loop zero bytes i j = refl
length-reverse_loop (suc fuel) bytes i j =
    let a = get_or bytes i 0 in
    let b = get_or bytes j 0 in
    ground (
      arith,
      length-set bytes i b,
      length-set (set bytes i b) j a,
      length-reverse_loop fuel (set (set bytes i b) j a) (i + 1) (j - 1),
    )

-- One exchange at both ends of the window, then the mirror image of what is inside.
mirrored :
    (at once swapped : ℕ → ℕ) (i j k m : ℕ)
    → i < j
    → m ≡ i + j - k
    → ((n : ℕ) → swapped n ≡ (if j == n then at i else once n))
    → ((n : ℕ) → once n ≡ (if i == n then at j else at n))
    → (if ltb k (i + 1) then swapped k else if ltb (j - 1) k then swapped k else swapped m)
      ≡ (if ltb k i then at k else if ltb j k then at k else at m)
mirrored at once swapped i j k m lt e p q = ground (
  arith,
  p k,
  p m,
  q k,
  q m,
  ap at {x = m} {y = j},
  ap at {x = m} {y = i},
  ap at {x = k} {y = j},
  ap at {x = k} {y = i},
)

-- Inside the window from `i` to `j` the loop mirrors, outside it changes nothing.
get_or-reverse_loop :
    (fuel : ℕ) (bytes : List ℕ) (i j k : ℕ)
    → j < length bytes
    → j < i + fuel
    → get_or (reverse_loop fuel bytes i j) k 0 ≡ (
        if ltb k i
        then get_or bytes k 0
        else if ltb j k
        then get_or bytes k 0
        else get_or bytes (i + j - k) 0)
unfolding reverse_loop
get_or-reverse_loop zero bytes i j k h f = ground arith
get_or-reverse_loop (suc fuel) bytes i j k h f =
    let a = get_or bytes i 0 in
    let b = get_or bytes j 0 in
    let once = set bytes i b in
    let both = set once j a in
    elim (Bool-cases (ltb i j)) [
      | inl more ↦
          let lt : i < j = ltb→lt i j more in
          let size : length both ≡ length bytes =
            omega (arith, length-set bytes i b, length-set once j a) in
          let mirror : i + 1 + (j - 1) - k ≡ i + j - k = omega arith in
          let image =
            mirrored (λ n. get_or bytes n 0) (λ n. get_or once n 0) (λ n. get_or both n 0) i j k
              (i + j - k) lt refl
              (λ n. get_or-set once j n a 0 (omega (arith, length-set bytes i b)))
              (λ n. get_or-set bytes i n b 0 (omega arith)) in
          rw more (
            get_or-reverse_loop fuel both (i + 1) (j - 1) k (omega arith) (omega arith)
            ∙ rw mirror image)
      | inr done ↦ rw done (ground (arith, ap (λ n. get_or bytes n 0) {x = i + j - k} {y = k}))
    ]

-- `reverse_bytes` mirrors its buffer.
pub get_or-reverse_bytes :
    (bytes : List ℕ) (k : ℕ)
    → 0 < length bytes
    → k < length bytes
    → get_or (reverse_bytes bytes (length bytes)) k 0 ≡ get_or bytes (length bytes - 1 - k) 0
unfolding reverse_bytes
get_or-reverse_bytes bytes k h p =
    let n = length bytes in
    ground (
      arith,
      get_or-reverse_loop n bytes 0 (n - 1) k,
      ap (λ m. get_or bytes m 0) {x = 0 + (n - 1) - k} {y = n - 1 - k} (omega arith),
    )

pub length-reverse_bytes :
    (bytes : List ℕ) (len : ℕ) → length (reverse_bytes bytes len) ≡ length bytes
unfolding reverse_bytes
length-reverse_bytes bytes len = length-reverse_loop len bytes 0 (len - 1)

-- Reversing twice gives the bytes back.
pub reverse_bytes-reverse_bytes :
    (bytes : List ℕ)
    → 0 < length bytes
    → reverse_bytes (reverse_bytes bytes (length bytes)) (length bytes) ≡ bytes
reverse_bytes-reverse_bytes bytes h =
    let n = length bytes in
    let once = reverse_bytes bytes n in
    let size : length once ≡ n = length-reverse_bytes bytes n in
    get_or_ext 0 _ _ (length-reverse_bytes once n ∙ size) λ i p.
      let q : i < n = omega (arith, length-reverse_bytes once n) in
      let outer = rw size at (get_or-reverse_bytes once i (omega arith) (omega arith)) in
      outer
      ∙ get_or-reverse_bytes bytes (n - 1 - i) h (omega arith)
      ∙ ap (λ m. get_or bytes m 0) (omega arith)
