-- ===== src/Config/Load/Lines.antt =====
-- What the lines of a file give.
use mathlib.Core.List.{append_assoc}
use simple_kit.Base.{
  ℕ, zero, suc, ◌+◌, ◌-◌, ◌≤◌, ◌<◌, ◌≡◌, refl, ap, ◌∙◌, Bool, true, false, Option, none, some, List,
  [], ◌∷◌, ◌++◌, ◌==◌, length, arith, length-append,
}
use simple_kit.Config.{Parsed, bad, no_token, entry, parse_line}
use simple_kit.Config.Load.Order.{InOrder, place-InOrder}
use simple_kit.Config.Load.{
  undefined, newline, fgets, cut_nul, chomp, place, Loaded, loaded, Items, find, insert, store,
  line_size, load_loop, load,
}

-- A line as a file has it, without its newline; `fgets` takes 4095 bytes at most.
abbrev pub NoNewline : List ℕ → Type 0
NoNewline [] = Unit {0}
NoNewline (c ∷ cs) = (c == newline ≡ false) × NoNewline cs

abbrev pub joined : List (List ℕ) → List ℕ
joined [] = []
joined (text ∷ texts) = text ++ (newline ∷ joined texts)

-- Bytes with no zero among them, as in a text.
abbrev pub NoNul : List ℕ → Type 0
NoNul [] = Unit {0}
NoNul (c ∷ cs) = (c == 0 ≡ false) × NoNul cs

-- Whether a line may follow entries, and what it adds to them.
abbrev pub Accepts : Parsed → Items → Type 0
Accepts bad items = ⊥
Accepts no_token items = Unit {0}
Accepts (entry name value) items = find items name ≡ none

abbrev pub added : Parsed → Items → Items
added bad items = items
added no_token items = items
added (entry name value) items = place name value items

abbrev pub all_added : List (List ℕ) → Items → Items
all_added [] items = items
all_added (text ∷ texts) items = all_added texts (added (parse_line text) items)

abbrev pub AllGood : ℕ → List (List ℕ) → Items → Type 0
AllGood size [] items = Unit {0}
AllGood size (text ∷ texts) items =
    NoNewline text
    × NoNul text
    × (length text < size)
    × Accepts (parse_line text) items
    × AllGood size texts (added (parse_line text) items)

fgets-line :
    (n : ℕ) (text rest : List ℕ)
    → NoNewline text
    → length text < n
    → fgets n (text ++ (newline ∷ rest)) ≡ (text ++ (newline ∷ []), rest, false)
unfolding fgets
fgets-line zero text rest fine short = absurd (omega arith)
fgets-line (suc n) [] rest fine short = refl
fgets-line (suc n) (c ∷ text) rest (apart, fine) short =
    rw (apart, fgets-line n text rest fine (omega arith)) refl

fgets-end :
    (n : ℕ) (text : List ℕ) → NoNewline text → length text < n → fgets n text ≡ (text, [], true)
unfolding fgets
fgets-end zero text fine short = absurd (omega arith)
fgets-end (suc n) [] fine short = refl
fgets-end (suc n) (c ∷ text) (apart, fine) short =
    rw (apart, fgets-end n text fine (omega arith)) refl

chomp-newline : (text : List ℕ) → chomp (text ++ (newline ∷ [])) ≡ some text
chomp-newline [] = refl
chomp-newline (c ∷ []) = refl
chomp-newline (c ∷ d ∷ cs) = rw (chomp-newline (d ∷ cs)) refl

chomp-NoNewline : (text : List ℕ) → NoNewline text → chomp text ≡ none
chomp-NoNewline [] fine = refl
chomp-NoNewline (c ∷ []) (apart, fine) = rw apart refl
chomp-NoNewline (c ∷ d ∷ cs) (apart, fine) = rw (chomp-NoNewline (d ∷ cs) fine) refl

cut_nul-NoNul : (text : List ℕ) → NoNul text → cut_nul text ≡ text
unfolding cut_nul
cut_nul-NoNul [] clean = refl
cut_nul-NoNul (c ∷ text) (apart, clean) = rw (apart, cut_nul-NoNul text clean) refl

cut_nul-line :
    (text : List ℕ) → NoNul text → cut_nul (text ++ (newline ∷ [])) ≡ text ++ (newline ∷ [])
unfolding cut_nul
cut_nul-line [] clean = refl
cut_nul-line (c ∷ text) (apart, clean) = rw (apart, cut_nul-line text clean) refl

-- A round of the loop with what `chomp`, `cut_nul` and `fgets` give.
module _ (size n : ℕ) (items : Items) where
  abbrev chosen : List ℕ → Bool → Option Items → Loaded
  chosen rest eof none = loaded eof items
  chosen rest eof (some more) = load_loop size n rest more

  abbrev chomped : List ℕ → Bool → Option (List ℕ) → Loaded
  chomped rest eof none = loaded eof items
  chomped rest eof (some text) = chosen rest eof (store (parse_line text) items)

  abbrev seen : List ℕ → List ℕ → Bool → List ℕ → Loaded
  seen line rest eof [] = elim line [ [] ↦ loaded eof items | c ∷ cs ↦ undefined ]
  seen line rest eof (c ∷ cs) = chomped rest eof (chomp (c ∷ cs))

  round_lem :
      (file : List ℕ)
      → load_loop size (suc n) file items
        ≡ (let (line, rest, eof) = fgets size file in seen line rest eof (cut_nul line))
  unfolding load_loop
  round_lem file = refl

  seen-line :
      (text rest : List ℕ)
      → seen (text ++ (newline ∷ [])) rest false (text ++ (newline ∷ []))
        ≡ chomped rest false (some text)
  seen-line [] rest = refl
  seen-line (c ∷ text) rest = ap (chomped rest false) (chomp-newline (c ∷ text))

  seen-end : (end : List ℕ) → NoNewline end → seen end [] true end ≡ loaded true items
  seen-end [] fine = refl
  seen-end (c ∷ end) fine = ap (chomped [] true) (chomp-NoNewline (c ∷ end) fine)

  -- What it does with a line that ends in a newline.
  load_loop-read :
      (text rest : List ℕ)
      → NoNewline text
      → NoNul text
      → length text < size
      → load_loop size (suc n) (text ++ (newline ∷ rest)) items ≡ chomped rest false (some text)
  load_loop-read text rest fine clean short =
      round_lem (text ++ (newline ∷ rest))
      ∙ ap (λ r. seen r.0 r.1 r.2 (cut_nul r.0)) (fgets-line size text rest fine short)
      ∙ ap (seen (text ++ (newline ∷ [])) rest false) (cut_nul-line text clean)
      ∙ seen-line text rest

store-Accepts :
    (p : Parsed) (items : Items) → Accepts p items → store p items ≡ some (added p items)
unfolding store insert
store-Accepts bad items good = absurd good
store-Accepts no_token items good = refl
store-Accepts (entry name value) items good = rw (good, insert) refl

-- A line that may follow the entries.
load_loop-line :
    (size n : ℕ) (text rest : List ℕ) (items : Items)
    → NoNewline text
    → NoNul text
    → length text < size
    → Accepts (parse_line text) items
    → load_loop size (suc n) (text ++ (newline ∷ rest)) items
      ≡ load_loop size n rest (added (parse_line text) items)
load_loop-line size n text rest items fine clean short good =
    load_loop-read size n items text rest fine clean short
    ∙ ap (chosen size n items rest false) (store-Accepts (parse_line text) items good)

load_loop-AllGood :
    (size n : ℕ) (texts : List (List ℕ)) (rest : List ℕ) (items : Items)
    → AllGood size texts items
    → length (joined texts) ≤ n
    → (m : ℕ) × (n - length (joined texts) ≤ m)
      × (load_loop size n (joined texts ++ rest) items
          ≡ load_loop size m rest (all_added texts items))
load_loop-AllGood size n [] rest items good enough = (n, omega arith, refl)
load_loop-AllGood size zero (text ∷ texts) rest items good enough =
    absurd (omega (arith, length-append text (newline ∷ joined texts)))
load_loop-AllGood size (suc n) (text ∷ texts) rest items (fine, clean, short, fits, good) enough =
    let sum = length-append text (newline ∷ joined texts) in
    let (m, left, e) =
      load_loop-AllGood size n texts rest (added (parse_line text) items) good (omega arith) in
    (
      m,
      omega arith,
      rw (append_assoc text (newline ∷ joined texts) rest)
          (load_loop-line size n text (joined texts ++ rest) items fine clean short fits ∙ e),
    )

load_loop-end :
    (size m : ℕ) (end : List ℕ) (items : Items)
    → NoNewline end
    → NoNul end
    → length end < size
    → load_loop size (suc m) end items ≡ loaded true items
load_loop-end size m end items fine clean short =
    round_lem size m items end
    ∙ ap (λ r. seen size m items r.0 r.1 r.2 (cut_nul r.0)) (fgets-end size end fine short)
    ∙ ap (seen size m items end [] true) (cut_nul-NoNul end clean)
    ∙ seen-end size m items end fine

load_loop-break :
    (size m : ℕ) (text rest : List ℕ) (items : Items)
    → NoNewline text
    → NoNul text
    → length text < size
    → store (parse_line text) items ≡ none
    → load_loop size (suc m) (text ++ (newline ∷ rest)) items ≡ loaded false items
load_loop-break size m text rest items fine clean short stops =
    load_loop-read size m items text rest fine clean short
    ∙ ap (chosen size m items rest false) stops

added-InOrder :
    (p : Parsed) (items : Items) → Accepts p items → InOrder items → InOrder (added p items)
added-InOrder bad items good ordered = ordered
added-InOrder no_token items good ordered = ordered
added-InOrder (entry name value) items good ordered = place-InOrder name value items good ordered

all_added-InOrder :
    (size : ℕ) (texts : List (List ℕ)) (items : Items)
    → AllGood size texts items
    → InOrder items
    → InOrder (all_added texts items)
all_added-InOrder size [] items good ordered = ordered
all_added-InOrder size (text ∷ texts) items (fine, clean, short, fits, good) ordered =
    all_added-InOrder size texts (added (parse_line text) items) good
      (added-InOrder (parse_line text) items fits ordered)

-- Fuel that is not used up.
spare : (n k m : ℕ) → k ≤ n → n + 1 - k ≤ m → (l : ℕ) × (m ≡ suc l)
spare n k m fits left = (m - 1, omega arith)

-- Loading a file with no zero byte, of lines below 4095 bytes, each a comment, blank or an entry
-- whose name no earlier line has, and then fewer than 4095 bytes with no newline, returns 0 with
-- the entries of the lines, each put before the first one with a larger key, so that they are in
-- strictly ascending order of their keys; the bytes with no newline add nothing, whatever else
-- they are.
pub load-AllGood :
    (texts : List (List ℕ)) (end : List ℕ)
    → AllGood line_size texts []
    → NoNewline end
    → NoNul end
    → length end < line_size
    → (load (joined texts ++ end) ≡ loaded true (all_added texts [])) × InOrder (all_added texts [])
unfolding load load_loop
load-AllGood texts end good fine clean short =
    let sum = length-append (joined texts) end in
    let (m, left, e) =
      load_loop-AllGood line_size (length (joined texts ++ end) + 1) texts end [] good
        (omega arith) in
    let (l, some_left) = spare (length (joined texts ++ end)) _ m (omega arith) left in
    (
      e ∙ rw some_left (load_loop-end line_size l end (all_added texts []) fine clean short),
      all_added-InOrder line_size texts [] good tt,
    )

-- Loading a file of such lines and then a line below 4095 bytes with no zero byte that does not
-- parse or whose name an earlier line has returns -1, whatever is behind that line.
pub load-broken :
    (texts : List (List ℕ)) (text rest : List ℕ)
    → AllGood line_size texts []
    → NoNewline text
    → NoNul text
    → length text < line_size
    → store (parse_line text) (all_added texts []) ≡ none
    → load (joined texts ++ (text ++ (newline ∷ rest))) ≡ loaded false (all_added texts [])
unfolding load load_loop
load-broken texts text rest good fine clean short stops =
    let sum = length-append (joined texts) (text ++ (newline ∷ rest)) in
    let (m, left, e) =
      load_loop-AllGood line_size (length (joined texts ++ (text ++ (newline ∷ rest))) + 1) texts
        (text ++ (newline ∷ rest)) [] good (omega arith) in
    let (l, some_left) =
      spare (length (joined texts ++ (text ++ (newline ∷ rest)))) _ m (omega arith) left in
    e
    ∙ rw some_left
        (load_loop-break line_size l text rest (all_added texts []) fine clean short stops)
