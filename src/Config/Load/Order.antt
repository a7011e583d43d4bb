-- ===== src/Config/Load/Order.antt =====
-- simple_config/sconfig.c: a new entry comes in at its place in the order of the keys.
use simple_kit.Base.{◌≡◌, refl, true, none, List, [], ◌∷◌, ◌++◌, ℕ, arith, Ordering, inl, inr}
use simple_kit.Hash.Keys.{key_compare}
use simple_kit.Hash.Keys.Order.{key_compare_trans, key_compare_flip, key_compare-eq, Ordering-cases}
use simple_kit.Config.Load.{Items, same, find, place}

-- A name as a key of the skip list.
abbrev pub key_of : List ℕ → List ℕ
key_of name = name ++ (0 ∷ [])

abbrev pub AllLarger : List ℕ → Items → Type 0
AllLarger name [] = Unit {0}
AllLarger name ((other, value) ∷ items) =
    (key_compare (key_of name) (key_of other) ≡ Ordering.lt) × AllLarger name items

-- The entries in the order of their keys.
abbrev pub InOrder : Items → Type 0
InOrder [] = Unit {0}
InOrder ((name, value) ∷ items) = AllLarger name items × InOrder items

AllLarger-trans :
    (a b : List ℕ) (items : Items)
    → key_compare (key_of a) (key_of b) ≡ Ordering.lt
    → AllLarger b items
    → AllLarger a items
AllLarger-trans a b [] less all = tt
AllLarger-trans a b ((name, value) ∷ items) less (first, all) = (
  key_compare_trans (key_of a) (key_of b) (key_of name) less first,
  AllLarger-trans a b items less all,
)

place-AllLarger :
    (a name value : List ℕ) (items : Items)
    → key_compare (key_of a) (key_of name) ≡ Ordering.lt
    → AllLarger a items
    → AllLarger a (place name value items)
unfolding place
place-AllLarger a name value [] less all = (less, tt)
place-AllLarger a name value ((other, held) ∷ items) less (first, all) =
    let rest = place-AllLarger a name value items less all in
    elim (Ordering-cases (key_compare (key_of name) (key_of other))) [
      | inl e ↦ rw (e, AllLarger) (less, (first, all))
      | inr (inl e) ↦ rw (e, AllLarger) (first, rest)
      | inr (inr e) ↦ rw (e, AllLarger) (first, rest)
    ]

-- The same key is the same name.
key_of-same : (a b : List ℕ) → key_of a ≡ key_of b → same b a ≡ true
key_of-same [] [] e = refl
key_of-same [] (y ∷ []) e = cc
key_of-same [] (y ∷ z ∷ b) e = cc
key_of-same (x ∷ []) [] e = cc
key_of-same (x ∷ z ∷ a) [] e = cc
key_of-same (x ∷ a) (y ∷ b) e =
    let heads : x ≡ y = cc in
    let tails : key_of a ≡ key_of b = cc in let rest = key_of-same a b tails in ground arith

pub place-InOrder :
    (name value : List ℕ) (items : Items)
    → find items name ≡ none
    → InOrder items
    → InOrder (place name value items)
unfolding place find
place-InOrder name value [] missing ordered = (tt, tt)
place-InOrder name value ((other, held) ∷ items) missing (larger, ordered) =
    elim (Ordering-cases (key_compare (key_of name) (key_of other))) [
      | inl e ↦ rw (e, InOrder) ((e, AllLarger-trans name other items e larger), (larger, ordered))
      | inr (inl e) ↦
          let twin = key_of-same name other (key_compare-eq (key_of name) (key_of other) e) in
          absurd (ground (arith, missing, twin))
      | inr (inr e) ↦
          let rest = place-InOrder name value items (ground (arith, missing)) ordered in
          rw (e, InOrder)
            (
              place-AllLarger other name value items
                  ((key_compare_flip (key_of name) (key_of other)).0 e) larger,
              rest,
            )
    ]
