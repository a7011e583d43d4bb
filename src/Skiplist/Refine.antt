-- ===== src/Skiplist/Refine.antt =====
-- simple_skiplist/slist.c: the operations are those of a list of entries ordered by their keys.
use simple_kit.Base.{ℕ, ◌+◌, ◌≡◌, refl, sym, ap, ◌∙◌, none, some, List, ◌∷◌, ◌++◌, length, arith}
use simple_kit.Hash.Keys.{Key}
use simple_kit.Skiplist.{Skiplist, found, passed, seek, find_node, find, rank}
use simple_kit.Skiplist.Search.{AllBelow, AllAbove}
use simple_kit.Skiplist.Stand.{at_head}
use simple_kit.Skiplist.Invariant.{IsValid, absent, present, place}
use simple_kit.Skiplist.Find.{seek-absent, seek-present}
use simple_kit.Skiplist.Spec.{
  lookup, position, Keeps, lookup-below, position-below, above_lem, here_lem,
}

module _ (s : Skiplist) (key : Key) where
  -- What a walk over all levels means for the two searches.
  walk-passed :
      (a r : ℕ)
      → seek s key s.cur_height s.head 0 ≡ passed a r
      → (find_node s key ≡ none) × (find s key ≡ none) × (rank s key ≡ none)
  unfolding find_node find rank
  walk-passed a r e = (rw (e, find_node) refl, rw (e, find, find_node) refl, rw (e, rank) refl)

  walk-found :
      (a r : ℕ)
      → seek s key s.cur_height s.head 0 ≡ found a r
      → (find_node s key ≡ some a) × (find s key ≡ some (s.value a)) × (rank s key ≡ some r)
  unfolding find_node find rank
  walk-found a r e = (rw (e, find_node) refl, rw (e, find, find_node) refl, rw (e, rank) refl)

  pub search-absent :
      (pre post : List ℕ)
      → IsValid s (pre ++ post)
      → AllBelow s.key key pre
      → AllAbove s.key key post
      → (find_node s key ≡ none) × (find s key ≡ none) × (rank s key ≡ none)
  search-absent pre post valid below above =
      let bound = valid.bounds in
      let (a, r, e) =
        seek-absent s key pre post below s.cur_height s.head 0 pre valid above (at_head refl refl)
          bound.1 (omega arith) in
      walk-passed a r e

  pub search-present :
      (pre : List ℕ) (x : ℕ) (post : List ℕ)
      → IsValid s (pre ++ (x ∷ post))
      → AllBelow s.key key pre
      → s.key x ≡ key
      → AllAbove s.key key post
      → (find_node s key ≡ some x)
        × (find s key ≡ some (s.value x))
        × (rank s key ≡ some (length pre + 1))
  search-present pre x post valid below here above =
      let bound = valid.bounds in
      walk-found x (length pre + 1) (
        seek-present s key pre post below x s.cur_height s.head 0 pre valid here above
          (at_head refl refl) bound.1 (omega arith) bound.0)

  -- On a well-formed skip list that keeps the entries es, in the order of their keys, slist_find
  -- returns the value of the key in es and slist_rank its place in es, counted from 1; both return
  -- -1 if es has no entry of the key.
  pub search-Keeps :
      (es : List (Key × ℕ))
      → Keeps s es
      → (find s key ≡ lookup key es) × (rank s key ≡ position key es)
  search-Keeps es (nodes, valid, same) = rw (sym same) (elim (place s.key key nodes valid.sorted) [
    | absent pre post parts below above ↦
        let (nobody, no_value, no_rank) = search-absent pre post (rw parts at valid) below above in
        let (a, b, c, d) = above_lem s.key s.value key post above in
        rw parts (
          no_value ∙ sym (lookup-below s.key s.value key pre post below ∙ a),
          no_rank ∙ sym (position-below s.key s.value key pre post below ∙ rw b refl),
        )
    | present pre x post parts below here above ↦
        let (node, value, place) = search-present pre x post (rw parts at valid) below here above in
        let (a, b, c) = here_lem s.key s.value key x post here in
        rw parts (
          value ∙ sym (lookup-below s.key s.value key pre (x ∷ post) below ∙ a),
          place
              ∙ sym (
                  position-below s.key s.value key pre (x ∷ post) below
                  ∙ rw b (ap some (omega arith))),
        )
  ])
