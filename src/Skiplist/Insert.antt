-- ===== src/Skiplist/Insert.antt =====
-- simple_skiplist/slist.c, `slist_insert`: an entry comes in at its place, unless its key is there.
mod Trail
mod Runs
mod Grow
use simple_kit.Base.{
  ℕ, zero, suc, ◌+◌, ◌-◌, ◌^◌, ◌≤◌, ◌<◌, ◌≡◌, ◌≢◌, ◌⊎◌, inl, inr, refl, sym, ap, ◌∙◌, Bool, true,
  false, not, ◌&&◌, ◌||◌, ◌==◌, Option, none, some, is_none, if◌then◌else◌, ltb, leb, List, [], ◌∷◌,
  ◌++◌, length, arith, length-append, Bool-cases, ltb→lt, not_ltb→le, ==_iff, Ordering,
}
use simple_kit.Hash.Keys.{Key, key_compare}
use simple_kit.Hash.Keys.Order.{same, key_compare_refl}
use simple_kit.Skiplist.{Level, Skiplist, null, assign, insert, choose_height}
use simple_kit.Skiplist.Run.{has, AllDistinct, Run, low, high, spot, has-append, Run-spot}
use simple_kit.Skiplist.Search.{AllBelow, AllAbove, NoneBelow, AllAbove-NoneBelow}
use simple_kit.Skiplist.Erase.Cut.{at_spot}
use simple_kit.Skiplist.Find.{behind-larger}
use simple_kit.Skiplist.Invariant.{IsValid, Place, absent, present, place}
use simple_kit.Skiplist.Spec.{
  lookup, put, entries, Keeps, lookup-below, put-below, above_lem, here_lem, entries-between,
  entries-length,
}
use simple_kit.Skiplist.Insert.Grow.{
  insert-stops, insert-goes, after-spot, grown, grown-IsValid, after, out,
}

-- What an insertion gives: a new entry, or nothing but a refusal.
unfoldable pub Inserted : Skiplist → List (Key × ℕ) → Key → ℕ → Option (Bool × Skiplist) → Type 0
Inserted s es key value none = ⊥
Inserted s es key value (some (done, t)) =
    (done ≡ is_none (lookup key es))
    × Keeps t (if is_none (lookup key es) then put key value es else es)
    × ((done ≡ true) ⊎ (t ≡ s))
    × (t.cur_height < t.max_height)

module _ (rand_r : ℕ → ℕ × ℕ) (addr : ℕ) (s : Skiplist) (key : Key) (value : ℕ)
    (under : s.cur_height < s.max_height) where
  insert-absent :
      (pre post : List ℕ)
      → IsValid s (pre ++ post)
      → AllBelow s.key key pre
      → AllAbove s.key key post
      → (choose_height rand_r s).0 < s.max_height
      → addr ≢ null
      → s.live addr ≡ false
      → length (pre ++ post) + 2 < 2 ^ 64
      → Inserted s (entries s.key s.value (pre ++ post)) key value (insert rand_r addr s key value)
  unfolding Inserted
  insert-absent pre post valid below above fits real fresh room =
      let none = AllAbove-NoneBelow s.key key post above in
      let bound = valid.bounds in
      let new = out rand_r s key value pre post valid below none addr above real fresh room in
      let (no_value, no_rank, puts, rest) = above_lem s.key s.value key post above in
      let missing : lookup key (entries s.key s.value (pre ++ post)) ≡ Option.none =
        lookup-below s.key s.value key pre post below ∙ no_value in
      let larger = behind-larger s.key key (Run-spot pre (valid.runs 0 (omega arith))) above in
      let behind = after-spot rand_r s key value pre post valid below none addr in
      let goes =
        insert-goes rand_r s key value pre post valid below none addr under fits (elim larger [
          | inl e ↦ inl (behind ∙ e)
          | inr less ↦ inr (ap (λ a. same key (s.key a)) behind ∙ rw (less, same) refl)
        ]) in
      let stored : entries (assign s.key addr key) (assign s.value addr value)
            (pre ++ (addr ∷ post))
          ≡ put key value (entries s.key s.value (pre ++ post)) =
        entries-between s.key s.value addr key value pre post
          (ground (arith, new, has-append addr pre post))
          (ground (arith, new, has-append addr pre post))
        ∙ sym (
            put-below s.key s.value key value pre post below
            ∙ ap (λ es. entries s.key s.value pre ++ es) (puts value)) in
      rw (goes, missing)
        (
          refl,
          (
            pre ++ (addr ∷ post),
            grown-IsValid rand_r s key value pre post valid below none addr above real fresh room,
            stored,
          ),
          inl refl,
          ground arith,
        )

  insert-present :
      (pre : List ℕ) (x : ℕ) (post : List ℕ)
      → IsValid s (pre ++ (x ∷ post))
      → AllBelow s.key key pre
      → s.key x ≡ key
      → AllAbove s.key key post
      → Inserted s
          (entries s.key s.value (pre ++ (x ∷ post)))
          key
          value
          (insert rand_r addr s key value)
  unfolding Inserted
  insert-present pre x post valid below here above =
      let none : NoneBelow s.key key (x ∷ post) = (
        λ e. (let f = rw here at e in let g = key_compare_refl key in cc),
        AllAbove-NoneBelow s.key key post above,
      ) in
      let bound = valid.bounds in
      let tall = valid.heights x (ground (arith, has-append x pre (x ∷ post))) in
      let next =
        (at_spot (s.levels 0) s.height 0 x _ _ post (Run-spot pre (valid.runs 0 (omega arith)))
          (omega arith)).0 in
      let behind = after-spot rand_r s key value pre (x ∷ post) valid below none addr ∙ next in
      let stops =
        insert-stops rand_r s key value pre (x ∷ post) valid below none addr under
          (rw behind (ground (arith, valid.distinct, has-append null pre (x ∷ post))))
          (ap (λ a. same key (s.key a)) behind ∙ rw (here, same, key_compare_refl key) refl) in
      let (value', rank, rest) = here_lem s.key s.value key x post here in
      let found = lookup-below s.key s.value key pre (x ∷ post) below ∙ value' in
      rw (stops, found) (refl, (pre ++ (x ∷ post), valid, refl), inr refl, under)

  -- On a well-formed skip list that keeps the entries es, in the order of their keys, with fewer
  -- than 2^64 - 2 entries, and for a fresh address other than NULL, if the current height and the
  -- height that rand_r makes _slist_choose_height give are below max_height: slist_insert stays
  -- within its arrays and returns 0 just if es has no entry of the key, and then leaves a
  -- well-formed skip list of es with the new entry at its place in the order; otherwise it changes
  -- nothing; and the current height is below max_height again.
  pub insert-Keeps :
      (es : List (Key × ℕ))
      → Keeps s es
      → (choose_height rand_r s).0 < s.max_height
      → addr ≢ null
      → s.live addr ≡ false
      → length es + 2 < 2 ^ 64
      → Inserted s es key value (insert rand_r addr s key value)
  insert-Keeps es (nodes, valid, stored) fits real fresh room =
      rw (sym stored) (elim (place s.key key nodes valid.sorted) [
        | absent pre post parts below above ↦ rw parts (
            insert-absent pre post (rw parts at valid) below above fits real fresh (
              omega (
                arith,
                room,
                entries-length s.key s.value nodes,
                ap length stored,
                ap length parts,
              )))
        | present pre x post parts below here above ↦
            rw parts (insert-present pre x post (rw parts at valid) below here above)
      ])
