-- ===== src/Base/Memory.antt =====
-- Byte memory: a block of storage is a function from offsets to bytes. Every bound on the offsets
-- that the code may touch is stated by the components' theorems.
use Prim.Native.Nat.{ℕ, zero, suc, ◌+◌, ◌-◌, ◌<◌, ◌≤◌}
use mathlib.Core.Path.{◌≡◌, refl, ap, fun_ext}
use mathlib.Core.Bool.{◌&&◌}
use mathlib.Core.Logic.{◌⊎◌}
use mathlib.Core.List.{List, [], ◌∷◌, ◌++◌}
use native.Mathlib.Omega.{arith}
use simple_kit.Base.Tests.{leb, ltb, if◌then◌else◌}
use simple_kit.Base.Lists.{
  length, get_or, drop, length-append, length-drop, get_or-append, get_or-drop, get_or_ext,
}

abbrev pub Memory : Type 0
Memory = ℕ → ℕ

-- `memcpy(dst + at, bytes, length)`.
unfoldable pub write : Memory → ℕ → List ℕ → Memory
write m at bytes i = if leb at i && ltb i (at + length bytes) then get_or bytes (i - at) 0 else m i

-- The `n` bytes from `at` on.
unfoldable pub read : Memory → ℕ → ℕ → List ℕ
read m at zero = []
read m at (suc n) = m at ∷ read m (at + 1) n

-- `memcpy(dst + to, src + at, n)`, and `memmove` too: the bytes are read before any is written.
unfoldable pub copy : Memory → ℕ → Memory → ℕ → ℕ → Memory
unfolding write read
copy dst to src at n = write dst to (read src at n)

pub length-read : (m : Memory) (at n : ℕ) → length (read m at n) ≡ n
unfolding read
length-read m at zero = refl
length-read m at (suc n) = ap suc (length-read m (at + 1) n)

pub get_or-read : (m : Memory) (at n i : ℕ) → i < n → get_or (read m at n) i 0 ≡ m (at + i)
unfolding read
get_or-read m at zero i h = absurd (omega arith)
get_or-read m at (suc n) zero h = ap m (omega arith)
get_or-read m at (suc n) (suc i) h =
    ground (arith, get_or-read m (at + 1) n i, ap m {x = at + 1 + i} {y = at + suc i} (omega arith))

-- Blocks that agree on a range read alike there.
pub read_congr :
    (m k : Memory) (at to n : ℕ)
    → ((i : ℕ) → i < n → m (at + i) ≡ k (to + i))
    → read m at n ≡ read k to n
read_congr m k at to n h =
    get_or_ext 0 _ _ (omega (arith, length-read m at n, length-read k to n)) λ i p.
      let q : i < n = omega (arith, length-read m at n) in
      ground (arith, get_or-read m at n i, get_or-read k to n i, h i)

-- What was written is read back.
pub read-write_self :
    (m : Memory) (at n : ℕ) (bytes : List ℕ)
    → n ≡ length bytes
    → read (write m at bytes) at n ≡ bytes
unfolding write
read-write_self m at n bytes e =
    get_or_ext 0 _ _ (omega (arith, length-read (write m at bytes) at n)) λ i p.
      let q : i < n = omega (arith, length-read (write m at bytes) at n) in
      ground (
        arith,
        get_or-read (write m at bytes) at n i,
        ap (λ k. get_or bytes k 0) {x = at + i - at} {y = i} (omega arith),
      )

-- A write outside the range does not change what is read.
pub read-write_apart :
    (m : Memory) (at n to : ℕ) (bytes : List ℕ)
    → (at + n ≤ to) ⊎ (to + length bytes ≤ at)
    → read (write m to bytes) at n ≡ read m at n
unfolding write
read-write_apart m at n to bytes apart = read_congr (write m to bytes) m at at n λ i p. ground arith

pub read-append : (m : Memory) (at n k : ℕ) → read m at (n + k) ≡ read m at n ++ read m (at + n) k
read-append m at n k =
    get_or_ext 0 _ _
      (omega (
        arith,
        length-read m at (n + k),
        length-read m at n,
        length-read m (at + n) k,
        length-append (read m at n) (read m (at + n) k),
      ))
      λ i p.
        let q : i < n + k = omega (arith, length-read m at (n + k)) in
        ground (
          arith,
          get_or-read m at (n + k) i,
          get_or-read m at n i,
          get_or-append (read m at n) (read m (at + n) k) i 0,
          length-read m at n,
          get_or-read m (at + n) k (i - n),
          ap m {x = at + n + (i - n)} {y = at + i},
        )

pub drop-read : (m : Memory) (at n k : ℕ) → k ≤ n → drop k (read m at n) ≡ read m (at + k) (n - k)
drop-read m at n k h =
    get_or_ext 0 _ _
      (omega
        (arith, length-read m at n, length-read m (at + k) (n - k), length-drop k (read m at n)))
      λ i p.
        let q : i < n - k = omega (arith, length-read m at n, length-drop k (read m at n)) in
        ground (
          arith,
          get_or-read m at n (k + i),
          get_or-read m (at + k) (n - k) i,
          get_or-drop k i (read m at n) 0,
          ap m {x = at + k + i} {y = at + (k + i)} (omega arith),
        )

-- Two writes, one behind the other, are one write of the joined bytes.
pub write-write :
    (m : Memory) (at next : ℕ) (xs ys : List ℕ)
    → next ≡ at + length xs
    → write (write m at xs) next ys ≡ write m at (xs ++ ys)
unfolding write
write-write m at next xs ys e = fun_ext λ i. ground (
  arith,
  get_or-append xs ys (i - at) 0,
  length-append xs ys,
  ap (λ k. get_or ys k 0) {x = i - next} {y = i - at - length xs},
)

-- The middle of what was written.
pub read-write_middle :
    (m : Memory) (at n : ℕ) (before mid after : List ℕ)
    → at ≡ length before
    → n ≡ length mid
    → read (write m 0 (before ++ (mid ++ after))) at n ≡ mid
unfolding write
read-write_middle m at n before mid after e k =
    let all = write m 0 (before ++ (mid ++ after)) in
    get_or_ext 0 _ _ (omega (arith, length-read all at n)) λ i p.
      let q : i < n = omega (arith, length-read all at n) in
      ground (
        arith,
        get_or-read all at n i,
        get_or-append before (mid ++ after) (at + i) 0,
        get_or-append mid after i 0,
        length-append before (mid ++ after),
        length-append mid after,
        ap (λ j. get_or (before ++ (mid ++ after)) j 0) {x = at + i - 0} {y = at + i} (omega arith),
        ap (λ j. get_or (mid ++ after) j 0) {x = at + i - length before} {y = i} (omega arith),
      )
