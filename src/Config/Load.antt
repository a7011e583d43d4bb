-- ===== src/Config/Load.antt =====
-- simple_config/sconfig.c: `_sconfig_load`, `sconfig_new`, `sconfig_reload` and
-- `sconfig_read_str`. A file is the list of its bytes. The skip list of the entries is the list of
-- them in the order of their keys, which are the names with their zero bytes; that the skip list
-- implements such a list is what Skiplist is about.
pub mod Order
pub mod Lines
use simple_kit.Base.{
  ℕ, zero, suc, ◌+◌, Bool, true, false, ◌&&◌, Option, none, some, List, [], ◌∷◌, ◌==◌,
  if◌then◌else◌, length, ◌++◌, Ordering,
}
use simple_kit.Hash.Keys.{key_compare}
use simple_kit.Config.{Parsed, bad, no_token, entry, parse_line}

abbrev pub newline : ℕ
newline = 10

-- `fgets` of at most `n` bytes: those it reads, those behind, and whether it met the file's end.
unfoldable pub fgets : ℕ → List ℕ → List ℕ × List ℕ × Bool
fgets zero file = ([], file, false)
fgets (suc n) [] = ([], [], true)
fgets (suc n) (c ∷ file) =
    let (line, rest, eof) = fgets n file in
    if c == newline then (c ∷ [], file, false) else (c ∷ line, rest, eof)

-- What `fgets` has put into the buffer, as far as `strlen` goes.
unfoldable pub cut_nul : List ℕ → List ℕ
cut_nul [] = []
cut_nul (c ∷ cs) = let rest = cut_nul cs in if c == 0 then [] else c ∷ rest

-- The line without its newline, if it ends in one.
abbrev pub chomp : List ℕ → Option (List ℕ)
chomp [] = none
chomp (c ∷ []) = if c == newline then some [] else none
chomp (c ∷ d ∷ cs) = elim (chomp (d ∷ cs)) [ none ↦ none | some line ↦ some (c ∷ line) ]

abbrev pub same : List ℕ → List ℕ → Bool
same [] [] = true
same [] (y ∷ ys) = false
same (x ∷ xs) [] = false
same (x ∷ xs) (y ∷ ys) = x == y && same xs ys

abbrev pub Items : Type 0
Items = List (List ℕ × List ℕ)

unfoldable pub find : Items → List ℕ → Option (List ℕ)
find [] name = none
find ((key, value) ∷ items) name =
    let rest = find items name in if same key name then some value else rest

-- A new entry stands before the first one with a larger key; a key has its zero byte.
unfoldable pub place : List ℕ → List ℕ → Items → Items
place name value [] = (name, value) ∷ []
place name value ((key, held) ∷ items) = elim (key_compare (name ++ (0 ∷ [])) (key ++ (0 ∷ []))) [
  | Ordering.lt ↦ (name, value) ∷ (key, held) ∷ items
  | _ ↦ (key, held) ∷ place name value items
]

-- `none` is the return of -1.
unfoldable pub insert : Items → List ℕ → List ℕ → Option Items
unfolding find place
insert items name value = elim (find items name) [
  | none ↦ some (place name value items)
  | some held ↦ none
]

-- What the loop does with a parsed line; `none` is a break.
unfoldable pub store : Parsed → Items → Option Items
unfolding insert
store bad items = none
store no_token items = some items
store (entry name value) items = insert items name value

-- `fgets` takes one byte less than the buffer has.
abbrev pub line_size : ℕ
line_size = 4095

-- The return, `true` for 0, and the entries; `undefined` is a read of `buffer[-1]`.
pub data Loaded : Type 0 where
  out_of_fuel undefined : Loaded
  loaded : Bool → Items → Loaded

-- The loop, on fuel, with lines of at most `size` bytes, and then `feof`. `strlen` is 0 only for a
-- line that begins with a zero byte: with no bytes to read, `fgets` gives NULL.
unfoldable pub load_loop : ℕ → ℕ → List ℕ → Items → Loaded
unfolding fgets store cut_nul
load_loop size zero file items = out_of_fuel
load_loop size (suc n) file items =
    let (line, rest, eof) = fgets size file in
    elim (cut_nul line) [
      | [] ↦ elim line [ [] ↦ loaded eof items | c ∷ cs ↦ undefined ]
      | c ∷ cs ↦ elim (chomp (c ∷ cs)) [
        | none ↦ loaded eof items
        | some text ↦ elim (store (parse_line text) items) [
          | none ↦ loaded eof items
          | some more ↦ load_loop size n rest more
        ]
      ]
    ]

unfoldable pub load : List ℕ → Loaded
unfolding load_loop
load file = load_loop line_size (length file + 1) file []

-- `sconfig_reload`; `sconfig_new` is the same with nothing to keep.
unfoldable pub reload : List ℕ → Items → Loaded
unfolding load
reload file held = elim (load file) [
  | loaded ok items ↦ if ok then loaded true items else loaded false held
  | other ↦ other
]
