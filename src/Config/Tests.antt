-- ===== src/Config/Tests.antt =====
-- The parser and the loader at concrete bytes.
use simple_kit.Base.{ℕ, ◌≡◌, refl, true, false, none, List, [], ◌∷◌, ◌++◌, arith, inl, inr}
use simple_kit.Config.{parse_line, entry}
use simple_kit.Config.Line.{parse_line-entry}
use simple_kit.Config.Load.{load, load_loop, fgets, cut_nul, loaded, undefined, find, store, insert}
use simple_kit.Config.Load.Order.{InOrder}
use simple_kit.Config.Load.Lines.{joined, all_added, load-AllGood, load-broken, AllGood}

-- ` a_1=x y # c`
parse_line-entry_example :
    parse_line (32 ∷ 97 ∷ 95 ∷ 49 ∷ 61 ∷ 120 ∷ 32 ∷ 121 ∷ 32 ∷ 35 ∷ 99 ∷ [])
    ≡ entry (97 ∷ 95 ∷ 49 ∷ []) (120 ∷ 32 ∷ 121 ∷ [])
parse_line-entry_example =
    parse_line-entry (32 ∷ []) (97 ∷ 95 ∷ 49 ∷ []) (120 ∷ 32 ∷ 121 ∷ []) (32 ∷ 35 ∷ 99 ∷ [])
      (refl, tt) (refl, (refl, (refl, tt))) (refl, (refl, (refl, refl)))
      (inl (refl, inr (refl, refl)))

-- `a=1` and a comment.
abbrev texts : List (List ℕ)
texts = (97 ∷ 61 ∷ 49 ∷ []) ∷ (35 ∷ 99 ∷ []) ∷ []

texts-AllGood : AllGood 4095 texts []
unfolding parse_line find
texts-AllGood = (
  (refl, (refl, (refl, tt))),
  (refl, (refl, (refl, tt))),
  omega arith,
  refl,
  ((refl, (refl, tt)), (refl, (refl, tt)), omega arith, tt, tt),
)

-- Behind them `b=2` with no newline.
load-AllGood_example :
    (load (joined texts ++ (98 ∷ 61 ∷ 50 ∷ [])) ≡ loaded true (all_added texts []))
    × InOrder (all_added texts [])
load-AllGood_example =
    load-AllGood texts (98 ∷ 61 ∷ 50 ∷ []) texts-AllGood (refl, (refl, (refl, tt)))
      (refl, (refl, (refl, tt))) (omega arith)

-- A zero byte hides the newline, and a line that begins with one is read from before the buffer.
zeros : (load (35 ∷ 97 ∷ 0 ∷ 98 ∷ 10 ∷ []) ≡ loaded false []) × (load (0 ∷ 10 ∷ []) ≡ undefined)
unfolding load load_loop fgets cut_nul
zeros = (refl, refl)

again-stops : store (parse_line (97 ∷ 61 ∷ 50 ∷ [])) (all_added texts []) ≡ none
unfolding parse_line find store insert
again-stops = refl

-- Behind them `a=2`, and more.
load-broken_example :
    load (joined texts ++ ((97 ∷ 61 ∷ 50 ∷ []) ++ (10 ∷ 35 ∷ [])))
    ≡ loaded false (all_added texts [])
load-broken_example =
    load-broken texts (97 ∷ 61 ∷ 50 ∷ []) (35 ∷ []) texts-AllGood (refl, (refl, (refl, tt)))
      (refl, (refl, (refl, tt))) (omega arith) again-stops
