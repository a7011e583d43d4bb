-- ===== src/Config/Line.antt =====
-- What a line of a configuration file means: blanks, a name, `=`, a value, and a comment.
use mathlib.Core.List.{append-nil}
use simple_kit.Base.{
  ℕ, suc, ◌+◌, ◌≡◌, ◌⊎◌, inl, inr, refl, ap, ◌∙◌, Bool, true, false, ◌&&◌, ◌||◌, not, some, List,
  [], ◌∷◌, ◌++◌, ◌==◌, if◌then◌else◌, take, length, arith,
}
use simple_kit.Config.{
  is_space, is_digit, is_alpha, equals, hash, underscore, no_token, entry, skip, name_end,
  value_end, parse_value, parse_name, parse_found, parse_line,
}

abbrev pub AllSpace : List ℕ → Type 0
AllSpace [] = Unit {0}
AllSpace (c ∷ cs) = (is_space c ≡ true) × AllSpace cs

abbrev pub AllWord : List ℕ → Type 0
AllWord [] = Unit {0}
AllWord (c ∷ cs) = (is_alpha c || is_digit c || c == underscore ≡ true) × AllWord cs

-- A letter, and then letters, digits and underscores.
abbrev pub IsName : List ℕ → Type 0
IsName [] = ⊥
IsName (c ∷ cs) = (is_alpha c ≡ true) × AllWord cs

-- Behind `prev`, the rest of a value: no `#` behind a blank, and no blank at the end.
abbrev pub IsRest : ℕ → List ℕ → Type 0
IsRest prev [] = is_space prev ≡ false
IsRest prev (c ∷ cs) = ((c == hash && is_space prev) ≡ false) × IsRest c cs

abbrev pub IsValue : List ℕ → Type 0
IsValue [] = Unit {0}
IsValue (c ∷ cs) = (is_space c ≡ false) × IsRest c cs

-- What may stand behind a value: blanks, and behind at least one of them a comment.
abbrev pub IsTail : Bool → List ℕ → Type 0
IsTail after_space [] = Unit {0}
IsTail after_space (c ∷ cs) =
    ((is_space c ≡ true) × IsTail true cs) ⊎ ((c ≡ hash) × (after_space ≡ true))

skip-AllSpace :
    (blanks cs : List ℕ) (c : ℕ)
    → AllSpace blanks
    → is_alpha c ≡ true
    → skip (blanks ++ (c ∷ cs)) ≡ some (c ∷ cs)
unfolding skip
skip-AllSpace [] cs c all letter =
    let fine : c == equals || c == underscore || is_digit c ≡ false = ground arith in
    let solid : is_space c ≡ false = ground arith in rw (fine, solid) refl
skip-AllSpace (b ∷ blanks) cs c (blank, all) letter =
    let fine : b == equals || b == underscore || is_digit b ≡ false = ground arith in
    rw (fine, blank) (skip-AllSpace blanks cs c all letter)

name_end-AllWord :
    (name behind : List ℕ)
    → AllWord name
    → name_end true (name ++ (equals ∷ behind)) ≡ some (name, behind)
unfolding name_end
name_end-AllWord [] behind all = refl
name_end-AllWord (c ∷ name) behind (word, all) =
    let fine : c == equals ≡ false = ground arith in
    rw (fine, word, name_end-AllWord name behind all) refl

name_end-IsName :
    (c : ℕ) (name behind : List ℕ)
    → is_alpha c ≡ true
    → AllWord name
    → name_end false (c ∷ (name ++ (equals ∷ behind))) ≡ some (c ∷ name, behind)
unfolding name_end
name_end-IsName c name behind letter all =
    let fine : c == equals ≡ false = ground arith in
    rw (fine, letter, name_end-AllWord name behind all) refl

-- Blanks and a comment do not move the end.
value_end-IsTail :
    (i prev last : ℕ) (tail : List ℕ)
    → IsTail (is_space prev && not (i == 0)) tail
    → value_end i prev last tail ≡ last
unfolding value_end
value_end-IsTail i prev last [] ends = refl
value_end-IsTail i prev last (c ∷ cs) (inl (blank, ends)) =
    let fine : c == hash ≡ false = ground arith in
    let later : suc i == 0 ≡ false = ground arith in
    rw (fine, blank) (value_end-IsTail (suc i) c last cs (rw (blank, later) ends))
value_end-IsTail i prev last (c ∷ cs) (inr (comment, after)) =
    let cut : c == hash && not (i == 0) && is_space prev ≡ true = ground arith in rw cut refl

value_end-IsRest :
    (i prev last : ℕ) (value tail : List ℕ)
    → IsRest prev value
    → IsTail false tail
    → value_end (suc i) prev (if is_space prev then last else suc i) (value ++ tail)
      ≡ suc i + length value
unfolding value_end
value_end-IsRest i prev last [] tail solid ends =
    rw solid (value_end-IsTail (suc i) prev (suc i) tail (rw solid ends) ∙ omega arith)
value_end-IsRest i prev last (c ∷ value) tail (fine, rest) ends =
    let kept : c == hash && not (suc i == 0) && is_space prev ≡ false = ground arith in
    rw kept (
      value_end-IsRest (suc i) c (if is_space prev then last else suc i) value tail rest ends
      ∙ omega arith)

length-pos_take : (v t : List ℕ) → take (length v) (v ++ t) ≡ v
length-pos_take [] t = refl
length-pos_take (c ∷ v) t = ap (λ l. c ∷ l) (length-pos_take v t)

parse_value-IsValue :
    (name value tail : List ℕ)
    → IsValue value
    → IsTail false tail
    → parse_value name (value ++ tail) ≡ entry name value
unfolding parse_value
parse_value-IsValue name [] [] solid ends = refl
parse_value-IsValue name [] (t ∷ tail) solid ends = rw (value_end-IsTail 0 0 0 (t ∷ tail) ends) refl
parse_value-IsValue name (c ∷ value) tail (first, rest) ends =
    let uncut : c == hash && not (0 == 0) && is_space 0 ≡ false = ground arith in
    let whole : value_end 0 0 0 (c ∷ (value ++ tail)) ≡ suc (length value) =
      unfold value_end in
      rw (uncut, first) (rw first at (value_end-IsRest 0 c 0 value tail rest ends) ∙ omega arith) in
    let some_bytes : suc (length value) == 0 ≡ false = ground arith in
    rw (whole, some_bytes, first) (ap (λ l. entry name (c ∷ l)) (length-pos_take value tail))

-- A line of blanks, a letter with letters, digits and underscores behind it, `=`, a value (empty,
-- or with no blank at its ends and no # behind a blank) and then blanks, behind which, if there is
-- one, a comment may stand, parses to exactly that name and that value.
pub parse_line-entry :
    (blanks name value tail : List ℕ)
    → AllSpace blanks
    → IsName name
    → IsValue value
    → IsTail false tail
    → parse_line (blanks ++ (name ++ (equals ∷ (value ++ tail)))) ≡ entry name value
unfolding parse_line parse_found parse_name
parse_line-entry blanks [] value tail all is_name solid ends = absurd is_name
parse_line-entry blanks (c ∷ name) value tail all (letter, word) solid ends =
    let fine : c == hash ≡ false = ground arith in
    rw
      (
        skip-AllSpace blanks (name ++ (equals ∷ (value ++ tail))) c all letter,
        parse_line,
        fine,
        parse_name,
        name_end-IsName c name (value ++ tail) letter word,
      )
      (parse_value-IsValue (c ∷ name) value tail solid ends)

skip-blank :
    (blanks rest found : List ℕ)
    → AllSpace blanks
    → skip rest ≡ some found
    → skip (blanks ++ rest) ≡ some found
unfolding skip
skip-blank [] rest found all e = e
skip-blank (b ∷ blanks) rest found (blank, all) e =
    let fine : b == equals || b == underscore || is_digit b ≡ false = ground arith in
    rw (fine, blank) (skip-blank blanks rest found all e)

-- A line of blanks, with or without a comment behind them, parses to no entry and no error.
pub parse_line-no_token :
    (blanks comment : List ℕ)
    → AllSpace blanks
    → (parse_line blanks ≡ no_token) × (parse_line (blanks ++ (hash ∷ comment)) ≡ no_token)
unfolding parse_line parse_found
parse_line-no_token blanks comment all =
    let alone = skip-blank blanks [] [] all (unfold skip in refl) in
    let behind = skip-blank blanks (hash ∷ comment) (hash ∷ comment) all (unfold skip in refl) in
    (rw (rw (append-nil blanks) at alone, parse_line) refl, rw (behind, parse_line) refl)
