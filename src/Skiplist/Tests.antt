-- ===== src/Skiplist/Tests.antt =====
-- Runs of the skip list on concrete keys.
use simple_kit.Base.{
  ℕ, ◌+◌, ◌*◌, ◌%◌, ◌≡◌, refl, Bool, Option, none, is_none, true, false, some, if◌then◌else◌, List,
  [], ◌∷◌, arith,
}
use mathlib.Core.List.{reverse}
use simple_kit.Hash.Keys.{Key, key_compare}
use simple_kit.Skiplist.{
  Skiplist, new, insert, choose_height, choose_loop, descend, advance, link, widen, each, find,
  rank, free,
}
use simple_kit.Skiplist.Run.{has}
use simple_kit.Skiplist.Spec.{lookup, position, put, remove, Keeps}
use simple_kit.Skiplist.Refine.{search-Keeps}
use simple_kit.Skiplist.Insert.{Inserted, insert-Keeps}
use simple_kit.Skiplist.Erase.{
  erase, pop_back, back, begin_iterate, iterate, begin_riterate, riterate,
}
use simple_kit.Skiplist.Erase.Refine.{erase-Keeps, back-Keeps}
use simple_kit.Skiplist.Iterate.{drain, drain-Keeps}
use simple_kit.Skiplist.Free.{new-Keeps, free_lem}

-- A generator whose numbers are large for two steps out of four.
abbrev rand_r : ℕ → ℕ × ℕ
rand_r seed = (seed % 4 * 20000, seed + 1)

abbrev empty : Skiplist
empty = new 10 2 4

-- The skip list that an insertion leaves.
abbrev after : Skiplist → Option (Bool × Skiplist) → Skiplist
after s r = elim r [ none ↦ s | some r ↦ r.1 ]

after-Keeps :
    (s : Skiplist) (es : List (Key × ℕ)) (key : Key) (value : ℕ) (r : Option (Bool × Skiplist))
    → Inserted s es key value r
    → Keeps (after s r) (if is_none (lookup key es) then put key value es else es)
unfolding Inserted
after-Keeps s es key value none bad = absurd bad
after-Keeps s es key value (some (done, t)) good = good.1

abbrev one : Skiplist
one = after empty (insert rand_r 20 empty (5 ∷ []) 55)

abbrev two : Skiplist
two = after one (insert rand_r 30 one (3 ∷ 7 ∷ []) 37)

abbrev three : Skiplist
three = after two (insert rand_r 40 two (4 ∷ []) 44)

abbrev stored : List (Key × ℕ)
stored = (3 ∷ 7 ∷ [], 37) ∷ (4 ∷ [], 44) ∷ (5 ∷ [], 55) ∷ []

one-Keeps : Keeps one ((5 ∷ [], 55) ∷ [])
unfolding lookup put new insert choose_height choose_loop descend advance key_compare
one-Keeps = after-Keeps empty [] (5 ∷ []) 55 _ (
    insert-Keeps rand_r 20 empty (5 ∷ []) 55 (omega arith) [] (new-Keeps 10 2 4 (omega arith))
      (omega arith) (omega arith) refl (omega arith))

two-Keeps : Keeps two ((3 ∷ 7 ∷ [], 37) ∷ (5 ∷ [], 55) ∷ [])
unfolding lookup put new insert choose_height choose_loop descend advance key_compare
two-Keeps = after-Keeps one _ (3 ∷ 7 ∷ []) 37 _ (
    insert-Keeps rand_r 30 one (3 ∷ 7 ∷ []) 37 (omega arith) _ one-Keeps (omega arith) (omega arith)
      refl (omega arith))

three-Keeps : Keeps three stored
unfolding lookup put new insert choose_height choose_loop descend advance key_compare
three-Keeps = after-Keeps two _ (4 ∷ []) 44 _ (
    insert-Keeps rand_r 40 two (4 ∷ []) 44 (omega arith) _ two-Keeps (omega arith) (omega arith)
      refl (omega arith))

-- The heights of the nodes, and where the levels lead.
runs :
    (three.cur_height ≡ 3)
    × (three.height 20 ≡ 3)
    × (three.height 30 ≡ 1)
    × (three.height 40 ≡ 3)
    × ((three.levels 1).span 10 ≡ 2)
unfolding new insert choose_height choose_loop descend advance key_compare link widen each
runs = (refl, refl, refl, refl, refl)

-- A key that is there already is refused, and one that is not there is put in.
insert-Keeps_example :
    Inserted two
      ((3 ∷ 7 ∷ [], 37) ∷ (5 ∷ [], 55) ∷ [])
      (4 ∷ [])
      44
      (insert rand_r 40 two (4 ∷ []) 44)
unfolding new insert choose_height choose_loop descend advance key_compare
insert-Keeps_example =
    insert-Keeps rand_r 40 two (4 ∷ []) 44 (omega arith) ((3 ∷ 7 ∷ [], 37) ∷ (5 ∷ [], 55) ∷ [])
      two-Keeps (omega arith) (omega arith) refl (omega arith)

-- With room for one level alone, a second one is behind the array.
behind : insert rand_r 20 (new 10 3 1) (5 ∷ []) 55 ≡ none
unfolding new insert choose_height choose_loop descend advance
behind = refl

search-Keeps_example : (find three (5 ∷ []) ≡ some 55) × (rank three (5 ∷ []) ≡ some 3)
unfolding lookup position key_compare
search-Keeps_example = search-Keeps three (5 ∷ []) stored three-Keeps

erase-Keeps_example :
    ((erase three (4 ∷ [])).0 ≡ true)
    × Keeps (erase three (4 ∷ [])).1 ((3 ∷ 7 ∷ [], 37) ∷ (5 ∷ [], 55) ∷ [])
unfolding lookup remove key_compare
erase-Keeps_example = erase-Keeps three (4 ∷ []) stored three-Keeps

back-Keeps_example :
    (back three ≡ some (5 ∷ [], 55))
    × ((pop_back three).0 ≡ true)
    × Keeps (pop_back three).1 ((3 ∷ 7 ∷ [], 37) ∷ (4 ∷ [], 44) ∷ [])
back-Keeps_example = back-Keeps three stored three-Keeps

drain-Keeps_example :
    (drain iterate 4 (begin_iterate three) ≡ some stored)
    × (drain riterate 4 (begin_riterate three) ≡ some (reverse stored))
drain-Keeps_example = drain-Keeps three stored 4 three-Keeps (omega arith)

free_lem_example :
    free three 30 ≡ (if has 30 (three.head ∷ three-Keeps.0) then false else three.live 30)
free_lem_example = free_lem three three-Keeps.0 three-Keeps.1 30
