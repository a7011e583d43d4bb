-- ===== src/Skiplist/Erase/Refine.antt =====
-- simple_skiplist/slist.c: an erasure, by key or at an end, takes one entry out.
use simple_kit.Base.{
  ℕ, ◌≡◌, inl, inr, refl, sym, ap, ◌∙◌, true, false, ◌==◌, Option, none, some, is_some, List, [],
  ◌∷◌, ◌++◌, arith,
}
use mathlib.Core.List.{append-nil}
use simple_kit.Hash.Keys.{Key}
use simple_kit.Skiplist.{Skiplist, null, find_node}
use simple_kit.Skiplist.Run.{has-append}
use simple_kit.Skiplist.Refine.{search-absent, search-present}
use simple_kit.Skiplist.Invariant.{IsValid, absent, present, place, last_or}
use simple_kit.Skiplist.Order.{last_or-between}
use simple_kit.Skiplist.Spec.{
  lookup, remove, entries, Keeps, lookup-below, remove-below, above_lem, here_lem, entries-append,
}
use simple_kit.Skiplist.Erase.{erase_node, erase, pop_front, pop_back, front, back}
use simple_kit.Skiplist.Erase.Valid.{erase_node-IsValid}
use simple_kit.Skiplist.Ends.{head_next, unsnoc}

-- Without the first entry, and without the last one.
abbrev pub but_first : List (Key × ℕ) → List (Key × ℕ)
but_first [] = []
but_first (e ∷ es) = es

abbrev pub but_last : List (Key × ℕ) → List (Key × ℕ)
but_last [] = []
but_last (e ∷ []) = []
but_last (e ∷ f ∷ es) = e ∷ but_last (f ∷ es)

abbrev pub first : List (Key × ℕ) → Option (Key × ℕ)
first [] = none
first (e ∷ es) = some e

abbrev pub last : List (Key × ℕ) → Option (Key × ℕ)
last [] = none
last (e ∷ []) = some e
last (e ∷ f ∷ es) = last (f ∷ es)

-- The last entry and those before it.
ends_lem :
    (es : List (Key × ℕ)) (e : Key × ℕ)
    → (last (es ++ (e ∷ [])) ≡ some e) × (but_last (es ++ (e ∷ [])) ≡ es)
ends_lem [] e = (refl, refl)
ends_lem (f ∷ []) e = (refl, refl)
ends_lem (f ∷ g ∷ es) e = let (a, b) = ends_lem (g ∷ es) e in (a, ap (λ fs. f ∷ fs) b)

module _ (s : Skiplist) where
  -- A node that is erased takes its entry with it.
  erase_node-Keeps :
      (pre : List ℕ) (x : ℕ) (post : List ℕ)
      → IsValid s (pre ++ (x ∷ post))
      → Keeps (erase_node s x) (entries s.key s.value (pre ++ post))
  unfolding erase_node
  erase_node-Keeps pre x post valid = (pre ++ post, erase_node-IsValid s x pre post valid, refl)

  erase-absent : (key : Key) → find_node s key ≡ none → erase s key ≡ (false, s)
  unfolding erase
  erase-absent key e = rw (e, erase) refl

  erase-present :
      (key : Key) (x : ℕ) → find_node s key ≡ some x → erase s key ≡ (true, erase_node s x)
  unfolding erase
  erase-present key x e = rw (e, erase) refl

  -- On a well-formed skip list that keeps the entries es, in the order of their keys, slist_erase
  -- returns 0 just if es has an entry of the key, and leaves a well-formed skip list of es without
  -- it: on every level pointers and spans fit again, and iterators stand on nodes that are left or
  -- on none.
  pub erase-Keeps :
      (key : Key) (es : List (Key × ℕ))
      → Keeps s es
      → ((erase s key).0 ≡ is_some (lookup key es)) × Keeps (erase s key).1 (remove key es)
  erase-Keeps key es (nodes, valid, stored) =
      rw (sym stored) (elim (place s.key key nodes valid.sorted) [
        | absent pre post parts below above ↦
            let (nobody, no_value, no_rank) =
              search-absent s key pre post (rw parts at valid) below above in
            let (a, b, c, d) = above_lem s.key s.value key post above in
            let gone = erase-absent key nobody in
            let missing = lookup-below s.key s.value key pre post below ∙ a in
            let same =
              remove-below s.key s.value key pre post below
              ∙ ap (λ es. entries s.key s.value pre ++ es) d
              ∙ sym (entries-append s.key s.value pre post) in
            rw (parts, gone, missing, same) (refl, (pre ++ post, rw parts at valid, refl))
        | present pre x post parts below here above ↦
            let (node, value, rank) =
              search-present s key pre x post (rw parts at valid) below here above in
            let (a, b, c) = here_lem s.key s.value key x post here in
            let gone = erase-present key x node in
            let there = lookup-below s.key s.value key pre (x ∷ post) below ∙ a in
            let rest =
              remove-below s.key s.value key pre (x ∷ post) below
              ∙ ap (λ es. entries s.key s.value pre ++ es) c
              ∙ sym (entries-append s.key s.value pre post) in
            rw (parts, gone, there, rest) (refl, erase_node-Keeps pre x post (rw parts at valid))
      ])

  -- The first entry, and taking it out.
  pub front-Keeps :
      (es : List (Key × ℕ))
      → Keeps s es
      → (front s ≡ first es)
        × ((pop_front s).0 ≡ is_some (first es))
        × Keeps (pop_front s).1 (but_first es)
  unfolding front pop_front
  front-Keeps es ([], valid, stored) =
      let e = head_next s [] valid in rw (sym stored, e) (refl, refl, ([], valid, refl))
  front-Keeps es (x ∷ xs, valid, stored) =
      let e = head_next s (x ∷ xs) valid in
      let real : x == null ≡ false = ground (arith, valid.distinct) in
      rw (sym stored, e, real) (refl, refl, erase_node-Keeps [] x xs valid)

  back-at :
      (x : ℕ)
      → s.tail ≡ x
      → x == null ≡ false
      → (back s ≡ some (s.key x, s.value x)) × (pop_back s ≡ (true, erase_node s x))
  unfolding back pop_back
  back-at x e real =
      let f : s.tail == null ≡ false = ap (λ a. a == null) e ∙ real in
      rw f (ap (λ a. some (s.key a, s.value a)) e, ap (λ a. (true, erase_node s a)) e)

  back-none : s.tail ≡ null → (back s ≡ none) × (pop_back s ≡ (false, s))
  unfolding back pop_back
  back-none e = let f : s.tail == null ≡ true = ground arith in rw f (refl, refl)

  -- On a well-formed skip list that keeps the entries es, slist_back shows the last entry of es,
  -- and slist_pop_back leaves a well-formed skip list of the entries before it; both return -1 if
  -- es is empty.
  pub back-Keeps :
      (es : List (Key × ℕ))
      → Keeps s es
      → (back s ≡ last es)
        × ((pop_back s).0 ≡ is_some (last es))
        × Keeps (pop_back s).1 (but_last es)
  back-Keeps es (nodes, valid, stored) = elim (unsnoc nodes) [
    | inl none_left ↦
        let e : s.tail ≡ null = valid.tail ∙ ap (last_or null) none_left in
        let (a, b) = back-none e in
        rw (sym stored, none_left, a, b) (refl, refl, ([], rw none_left at valid, refl))
    | inr (pre, x, parts) ↦
        let valid' = rw parts at valid in
        let e : s.tail ≡ x = valid'.tail ∙ last_or-between null x pre [] in
        let real : x == null ≡ false =
          ground (arith, valid'.distinct, has-append null pre (x ∷ [])) in
        let (at_end, popped) = back-at x e real in
        let (a, b) = ends_lem (entries s.key s.value pre) (s.key x, s.value x) in
        rw (sym stored, parts, entries-append s.key s.value pre (x ∷ []), a, b, at_end, popped)
          (refl, refl, rw (append-nil pre) at (erase_node-Keeps pre x [] valid'))
  ]
