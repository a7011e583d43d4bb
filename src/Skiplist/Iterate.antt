-- ===== src/Skiplist/Iterate.antt =====
-- simple_skiplist/slist.c, `slist_iterate` and `slist_riterate`: they visit every entry once.
use mathlib.Core.List.{append-nil, append_assoc, reverse, reverse-append}
use simple_kit.Base.{
  ℕ, zero, suc, ◌≤◌, ◌<◌, ◌≡◌, inl, inr, refl, sym, ap, ◌∙◌, true, false, ◌==◌, Option, none, some,
  if◌then◌else◌, List, [], ◌∷◌, ◌++◌, length, arith, length-append,
}
use simple_kit.Hash.Keys.{Key}
use simple_kit.Skiplist.{Skiplist, null}
use simple_kit.Skiplist.Run.{has, Run-behind, has-append, has-apart}
use simple_kit.Skiplist.Invariant.{IsValid, last_or}
use simple_kit.Skiplist.Order.{last_or-between}
use simple_kit.Skiplist.Spec.{entries, Keeps, entries-append, entries-length}
use simple_kit.Skiplist.Ends.{first_or, Run-first, head_next, unsnoc}
use simple_kit.Skiplist.Erase.{begin_iterate, iterate, begin_riterate, riterate}
use simple_kit.Skiplist.Erase.Valid.{old_links, before_or_null}

abbrev pub collect : Option (Key × ℕ) → Option (List (Key × ℕ)) → Option (List (Key × ℕ))
collect none rest = some []
collect (some e) none = none
collect (some e) (some es) = some (e ∷ es)

-- A caller's loop over an iterator: the entries that it is given until there is none; `none` when
-- the fuel runs out.
unfoldable pub drain :
    (Skiplist → Option (Key × ℕ) × Skiplist) → ℕ → Skiplist → Option (List (Key × ℕ))
drain next zero s = none
drain next (suc fuel) s = let (entry, later) = next s in collect entry (drain next fuel later)

module _ (next : Skiplist → Option (Key × ℕ) × Skiplist) (fuel : ℕ) (s t : Skiplist) where
  drain-none : next s ≡ (none, t) → drain next (suc fuel) s ≡ some []
  unfolding drain
  drain-none e = ap (λ q. collect q.0 (drain next fuel q.1)) e

  drain-some :
      (entry : Key × ℕ) (es : List (Key × ℕ))
      → next s ≡ (some entry, t)
      → drain next fuel t ≡ some es
      → drain next (suc fuel) s ≡ some (entry ∷ es)
  unfolding drain
  drain-some entry es e rest =
      ap (λ q. collect q.0 (drain next fuel q.1)) e ∙ ap (λ r. collect (some entry) r) rest

module _ (s : Skiplist) (i j : ℕ) where
  -- The skip list with these iterators.
  abbrev here : Skiplist
  here = record s { iterator = i; riterator = j }

  iterate-null : i ≡ null → iterate here ≡ (none, here)
  unfolding iterate
  iterate-null e = let f : i == null ≡ true = ground arith in rw f refl

  iterate-at :
      (y n : ℕ)
      → i ≡ y
      → y == null ≡ false
      → (s.levels 0).next y ≡ n
      → iterate here ≡ (some (s.key y, s.value y), record s { iterator = n; riterator = j })
  unfolding iterate
  iterate-at y n e real f = rw (e, real, f) refl

  riterate-null : j ≡ null → riterate here ≡ (none, here)
  unfolding riterate
  riterate-null e = let f : j == null ≡ true = ground arith in rw f refl

  riterate-at :
      (y n : ℕ)
      → j ≡ y
      → y == null ≡ false
      → (let b = (s.levels 0).prev y in if b == s.head then null else b) ≡ n
      → riterate here ≡ (some (s.key y, s.value y), record s { iterator = i; riterator = n })
  unfolding riterate
  riterate-at y n e real f = rw (e, real, f) refl

module _ (s : Skiplist) (nodes : List ℕ) (valid : IsValid s nodes) where
  is_real : (y : ℕ) → has y nodes ≡ true → y == null ≡ false
  is_real y p = ground (arith, has-apart y null nodes p (ground (arith, valid.distinct)))

  forwards :
      (fuel i j : ℕ) (us ys : List ℕ)
      → nodes ≡ us ++ ys
      → i ≡ first_or null ys
      → length ys < fuel
      → drain iterate fuel (here s i j) ≡ some (entries s.key s.value ys)
  forwards zero i j us ys parts e enough = absurd (omega arith)
  forwards (suc fuel) i j us [] parts e enough =
      drain-none iterate fuel (here s i j) (here s i j) (iterate-null s i j e)
  forwards (suc fuel) i j us (y ∷ ys) parts e enough =
      let bound = valid.bounds in
      let inside : (z : ℕ) → has z (y ∷ ys) ≡ true → has z nodes ≡ true =
        λ z p. rw parts (ground (arith, has-append z us (y ∷ ys))) in
      let tall : (z : ℕ) → has z (y ∷ ys) ≡ true → 1 ≤ s.height z =
        λ z p. (valid.heights z (inside z p)).0 in
      let next =
        Run-first ys
          (Run-behind us (rw parts at (valid.runs 0 (omega arith))) (tall y (ground arith)))
          (λ z p. tall z (ground arith)) in
      drain-some iterate fuel (here s i j) (here s (first_or null ys) j) (s.key y, s.value y)
        (entries s.key s.value ys)
        (iterate-at s i j y (first_or null ys) e (is_real y (inside y (ground arith))) next)
        (forwards fuel (first_or null ys) j (us ++ (y ∷ [])) ys
          (parts ∙ sym (append_assoc us (y ∷ []) ys)) refl (omega arith))

  backwards :
      (fuel i j : ℕ) (xs ys : List ℕ)
      → nodes ≡ xs ++ ys
      → j ≡ last_or null xs
      → length xs < fuel
      → drain riterate fuel (here s i j) ≡ some (reverse (entries s.key s.value xs))
  backwards zero i j xs ys parts e enough = absurd (omega arith)
  backwards (suc fuel) i j xs ys parts e enough = elim (unsnoc xs) [
    | inl empty ↦
        drain-none riterate fuel (here s i j) (here s i j)
          (riterate-null s i j (e ∙ ap (last_or null) empty))
        ∙ ap (λ zs. some (reverse (entries s.key s.value zs))) (sym empty)
    | inr (pre, x, ends) ↦
        let parts' = parts ∙ ap (λ zs. zs ++ ys) ends ∙ append_assoc pre (x ∷ []) ys in
        let valid' = rw parts' at valid in
        let at_x = e ∙ ap (last_or null) ends ∙ last_or-between null x pre [] in
        let inside : has x nodes ≡ true = rw parts' (ground (arith, has-append x pre (x ∷ ys))) in
        let prev =
          ap (λ b. if b == s.head then null else b) (old_links s x pre ys valid').1
          ∙ before_or_null s x pre ys valid' pre
              (ground (arith, valid'.distinct, has-append s.head pre (x ∷ ys))) in
        drain-some riterate fuel (here s i j) (here s i (last_or null pre)) (s.key x, s.value x)
          (reverse (entries s.key s.value pre))
          (riterate-at s i j x (last_or null pre) at_x (is_real x inside) prev)
          (backwards fuel i (last_or null pre) pre (x ∷ ys) parts' refl
            (omega (arith, length-append pre (x ∷ []), ap length ends)))
        ∙ ap some (sym (reverse-append (entries s.key s.value pre) ((s.key x, s.value x) ∷ [])))
        ∙ ap (λ es. some (reverse es)) (sym (entries-append s.key s.value pre (x ∷ [])))
        ∙ ap (λ zs. some (reverse (entries s.key s.value zs))) (sym ends)
  ]

-- On a well-formed skip list that keeps the entries es, the loop that calls slist_iterate until it
-- returns -1, from slist_begin_iterate on, ends after as many calls as there are entries and one,
-- and is given es; the loop over slist_riterate ends as well, and is given es in reverse.
pub drain-Keeps :
    (s : Skiplist) (es : List (Key × ℕ)) (fuel : ℕ)
    → Keeps s es
    → length es < fuel
    → (drain iterate fuel (begin_iterate s) ≡ some es)
      × (drain riterate fuel (begin_riterate s) ≡ some (reverse es))
drain-Keeps s es fuel (nodes, valid, stored) enough =
    let size = entries-length s.key s.value nodes in
    rw (sym stored) (
      forwards s nodes valid fuel ((s.levels 0).next s.head) s.riterator [] nodes refl
          (head_next s nodes valid) (omega (arith, ap length stored)),
      backwards s nodes valid fuel s.iterator s.tail nodes [] (sym (append-nil nodes)) valid.tail
          (omega (arith, ap length stored)),
    )
