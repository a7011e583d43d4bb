-- ===== src/Config.antt =====
-- simple_config/sconfig.c: `_sconfig_parse_line`. A line is the list of its bytes, with no zero
-- among them and without the newline. The tests of ctype.h are those of the C locale.
pub mod Line
pub mod Load
pub mod Tests
use simple_kit.Base.{
  ℕ, suc, Bool, true, false, ◌&&◌, ◌||◌, not, Option, none, some, List, [], ◌∷◌, leb, ◌==◌,
  if◌then◌else◌, take,
}

abbrev pub is_space : ℕ → Bool
is_space c = c == 32 || leb 9 c && leb c 13

abbrev pub is_digit : ℕ → Bool
is_digit c = leb 48 c && leb c 57

abbrev pub is_alpha : ℕ → Bool
is_alpha c = leb 65 c && leb c 90 || leb 97 c && leb c 122

abbrev pub equals : ℕ
equals = 61

abbrev pub hash : ℕ
hash = 35

abbrev pub underscore : ℕ
underscore = 95

-- The returns of -1, of 0, and of 1 or 2 with `*name` and `*value`.
pub data Parsed : Type 0 where
  bad no_token : Parsed
  entry : List ℕ → List ℕ → Parsed

-- The loop for the beginning of the name; `none` is the return of -1.
unfoldable skip : List ℕ → Option (List ℕ)
skip [] = some []
skip (c ∷ cs) =
    let rest = skip cs in
    if c == equals || c == underscore || is_digit c
    then none
    else if is_space c
    then rest
    else some (c ∷ cs)

-- The loop for the end of the name: the name, and what is behind the `=`.
unfoldable name_end : Bool → List ℕ → Option (List ℕ × List ℕ)
name_end has_alpha [] = none
name_end has_alpha (c ∷ cs) =
    let rest : Option (List ℕ × List ℕ) = elim (name_end (has_alpha || is_alpha c) cs) [
      | none ↦ none
      | some (name, behind) ↦ some (c ∷ name, behind)
    ] in
    if c == equals
    then if has_alpha then some ([], cs) else none
    else if is_alpha c || is_digit c || c == underscore
    then rest
    else none

-- The loop for the end of the value: `last_char + 1` from the value's beginning on, at index `i`
-- behind the byte `prev`.
unfoldable value_end : ℕ → ℕ → ℕ → List ℕ → ℕ
value_end i prev last [] = last
value_end i prev last (c ∷ cs) =
    let rest = value_end (suc i) c (if is_space c then last else suc i) cs in
    if c == hash && not (i == 0) && is_space prev then last else rest

unfoldable parse_value : List ℕ → List ℕ → Parsed
unfolding value_end
parse_value name [] = entry name []
parse_value name (c ∷ cs) =
    let last = value_end 0 0 0 (c ∷ cs) in
    if last == 0 then entry name [] else if is_space c then bad else entry name (take last (c ∷ cs))

unfoldable parse_name : List ℕ → Parsed
unfolding name_end parse_value
parse_name cs = elim (name_end false cs) [
  | none ↦ bad
  | some (name, behind) ↦ parse_value name behind
]

unfoldable parse_found : List ℕ → Parsed
unfolding parse_name
parse_found [] = no_token
parse_found (c ∷ cs) = if c == hash then no_token else parse_name (c ∷ cs)

unfoldable pub parse_line : List ℕ → Parsed
unfolding skip parse_found
parse_line cs = elim (skip cs) [ none ↦ bad | some found ↦ parse_found found ]
