-- ===== src/Skiplist/Ends.antt =====
-- simple_skiplist/slist.c: the first and the last node, and the next one.
use simple_kit.Base.{ℕ, ◌≤◌, ◌≡◌, ◌⊎◌, inl, inr, refl, ap, true, List, [], ◌∷◌, ◌++◌, arith}
use simple_kit.Skiplist.{Level, Skiplist, null}
use simple_kit.Skiplist.Run.{has, Run, stop, low, high}
use simple_kit.Skiplist.Invariant.{IsValid}

abbrev pub first_or : ℕ → List ℕ → ℕ
first_or a [] = a
first_or a (x ∷ xs) = x

-- On the lowest level a node points at the next one.
pub Run-first :
    {level : Level} {height : ℕ → ℕ} {a d : ℕ} (xs : List ℕ)
    → Run level height 0 a d xs
    → ((y : ℕ) → has y xs ≡ true → 1 ≤ height y)
    → level.next a ≡ first_or null xs
Run-first [] (stop e) tall = e
Run-first (x ∷ xs) (low h run) tall = let q = tall x (ground arith) in absurd (omega arith)
Run-first (x ∷ xs) (high h next span prev run) tall = next

-- The first node is behind the head.
pub head_next :
    (s : Skiplist) (nodes : List ℕ)
    → IsValid s nodes
    → (s.levels 0).next s.head ≡ first_or null nodes
head_next s nodes valid =
    let bound = valid.bounds in
    Run-first nodes (valid.runs 0 (omega arith)) (λ y p. (valid.heights y p).0)

pub unsnoc : (xs : List ℕ) → (xs ≡ []) ⊎ ((pre : List ℕ) × (x : ℕ) × (xs ≡ pre ++ (x ∷ [])))
unsnoc [] = inl refl
unsnoc (x ∷ xs) = elim (unsnoc xs) [
  | inl e ↦ inr ([], x, ap (λ ys. x ∷ ys) e)
  | inr (pre, y, e) ↦ inr (x ∷ pre, y, ap (λ ys. x ∷ ys) e)
]
