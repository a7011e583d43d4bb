-- ===== src/Skiplist/Invariant.antt =====
-- simple_skiplist/slist.c: a well-formed skip list, and the place of a key in it.
use simple_kit.Base.{
  ℕ, zero, suc, ◌+◌, ◌-◌, ◌^◌, ◌<◌, ◌≤◌, ◌≡◌, ◌⊎◌, inl, inr, refl, sym, ap, ◌∙◌, true, false, ◌==◌,
  if◌then◌else◌, ltb, List, [], ◌∷◌, ◌++◌, length, arith, length-append, Bool-cases, ltb→lt,
  Ordering,
}
use simple_kit.Hash.Keys.{Key, key_compare}
use simple_kit.Hash.Keys.Order.{key_compare-eq, key_compare_trans, Ordering-cases}
use simple_kit.Skiplist.{Skiplist, Trail, null, descend}
use simple_kit.Skiplist.Run.{has, AllDistinct, Run, spot, has-append}
use simple_kit.Skiplist.Around.{spot-gap}
use simple_kit.Skiplist.Search.{AllBelow, AllAbove, NoneBelow, advance-spot}
use simple_kit.Skiplist.Stand.{Stand, at_head, at_node, Stand-spot, Stand-Run, Stand-step}

abbrev pub IsSorted : (ℕ → Key) → List ℕ → Type 0
IsSorted keys [] = Unit {0}
IsSorted keys (x ∷ xs) = AllAbove keys (keys x) xs × IsSorted keys xs

abbrev pub last_or : ℕ → List ℕ → ℕ
last_or a [] = a
last_or a (x ∷ xs) = last_or x xs

-- `nodes` are all nodes but the head, in the order of their keys. Every level runs through those
-- that are high enough.
pub record IsValid (s : Skiplist) (nodes : List ℕ) : Type 0 where
  pub distinct : AllDistinct (null ∷ s.head ∷ nodes)
  pub sorted : IsSorted s.key nodes
  pub heights : (x : ℕ) → has x nodes ≡ true → (1 ≤ s.height x) × (s.height x ≤ s.cur_height)
  pub bounds : (1 ≤ s.cur_height) × (s.cur_height ≤ s.max_height)
  pub runs : (l : ℕ) → l < s.max_height → Run (s.levels l) s.height l s.head 0 nodes
  pub tail : s.tail ≡ last_or null nodes
  pub counted : s.num_nodes ≡ length nodes
  pub small : length nodes + 1 < 2 ^ 64
  pub live : (x : ℕ) → has x (s.head ∷ nodes) ≡ true → s.live x ≡ true
  pub forward : (s.iterator ≡ null) ⊎ (has s.iterator nodes ≡ true)
  pub backward : (s.riterator ≡ null) ⊎ (has s.riterator nodes ≡ true)

-- The nodes around a key.
pub data Place (keys : ℕ → Key) (key : Key) (nodes : List ℕ) : Type 0 where
  absent :
      (pre post : List ℕ)
      → nodes ≡ pre ++ post
      → AllBelow keys key pre
      → AllAbove keys key post
      → Place keys key nodes
  present :
      (pre : List ℕ) (x : ℕ) (post : List ℕ)
      → nodes ≡ pre ++ (x ∷ post)
      → AllBelow keys key pre
      → keys x ≡ key
      → AllAbove keys key post
      → Place keys key nodes

AllAbove-trans :
    (keys : ℕ → Key) (low high : Key) (xs : List ℕ)
    → key_compare low high ≡ Ordering.lt
    → AllAbove keys high xs
    → AllAbove keys low xs
AllAbove-trans keys low high [] less all = tt
AllAbove-trans keys low high (x ∷ xs) less (above, all) =
    (key_compare_trans low high (keys x) less above, AllAbove-trans keys low high xs less all)

pub place :
    (keys : ℕ → Key) (key : Key) (nodes : List ℕ) → IsSorted keys nodes → Place keys key nodes
place keys key [] sorted = absent [] [] refl tt tt
place keys key (x ∷ nodes) (above, sorted) = elim (Ordering-cases (key_compare key (keys x))) [
  | inl less ↦
      absent [] (x ∷ nodes) refl tt (less, AllAbove-trans keys key (keys x) nodes less above)
  | inr (inl same) ↦
      let e = key_compare-eq key (keys x) same in present [] x nodes refl tt (sym e) (rw e above)
  | inr (inr more) ↦ elim (place keys key nodes sorted) [
    | absent pre post parts below all ↦
        absent (x ∷ pre) post (ap (λ ys. x ∷ ys) parts) (more, below) all
    | present pre y post parts below here all ↦
        present (x ∷ pre) y post (ap (λ ys. x ∷ ys) parts) (more, below) here all
  ]
]

AllBelow-behind :
    (keys : ℕ → Key) (key : Key) (us vs : List ℕ)
    → AllBelow keys key (us ++ vs)
    → AllBelow keys key vs
AllBelow-behind keys key [] vs below = below
AllBelow-behind keys key (u ∷ us) vs below = AllBelow-behind keys key us vs below.1

pub Stand-AllBelow :
    (keys : ℕ → Key) (key : Key) {height : ℕ → ℕ} {head h b : ℕ} {pre vs : List ℕ}
    → Stand height head h pre b vs
    → AllBelow keys key pre
    → AllBelow keys key vs
Stand-AllBelow keys key (at_head e f) below = rw f at below
Stand-AllBelow keys key (at_node us f tall) below =
    (AllBelow-behind keys key us _ (rw f at below)).1

pub Stand-null :
    {height : ℕ → ℕ} {head h b : ℕ} {pre vs : List ℕ}
    → Stand height head h pre b vs
    → has null pre ≡ false
    → has null vs ≡ false
Stand-null (at_head e f) out = rw f at out
Stand-null {b} {vs} (at_node us f tall) out =
    ground (arith, has-append null us (b ∷ vs), rw f at out)

module _ (s : Skiplist) (key : Key) (pre post : List ℕ) (valid : IsValid s (pre ++ post))
    (below : AllBelow s.key key pre) (none : NoneBelow s.key key post) where
  abbrev at : ℕ → ℕ × ℕ
  at l = spot s.height l s.head 0 pre

  sizes : length pre + length post ≡ s.num_nodes
  sizes = let c = valid.counted in omega (arith, length-append pre post)

  no_null : has null pre ≡ false
  no_null = let d = valid.distinct in ground (arith, has-append null pre post)

  -- The trail of a walk over all levels: the spots, and their ranks.
  pub descend-spot :
      (h b r : ℕ) (vs : List ℕ) (trail : Trail)
      → Stand s.height s.head h pre b vs
      → h ≤ s.max_height
      → r + length vs ≡ length pre
      → (l : ℕ)
      → let t = descend s key h b r trail in
        (l < h → (t.node l ≡ (at l).0) × (t.rank l ≡ length pre - (at l).1))
        × (h ≤ l → (t.node l ≡ trail.node l) × (t.rank l ≡ trail.rank l))
  unfolding descend
  descend-spot zero b r vs trail stand enough total l =
      (λ p. absurd (omega arith), λ p. (refl, refl))
  descend-spot (suc k) b r vs trail stand enough total l =
      let v = valid.small in
      let size = length-append pre post in
      let here = Stand-spot k stand (omega arith) in
      let step =
        advance-spot s.key key (s.levels k) s.height k (s.num_nodes + 1) b 0 r vs post
          (Stand-Run k post stand (omega arith) (valid.runs k (omega arith)))
          (Stand-AllBelow s.key key stand below) none (Stand-null stand no_null)
          (omega (arith, sizes)) (omega arith) in
      let (ws, next, gap) = Stand-step k stand refl in
      let rank : r + 0 + length vs - (spot s.height k b 0 vs).1 + length ws ≡ length pre =
        omega (arith, spot-gap s.height k b 0 vs) in
      let last : r + 0 + length vs - (spot s.height k b 0 vs).1 ≡ length pre - (at k).1 =
        omega (arith, ap (λ p. p.1) here) in
      let (lower, upper) =
        descend-spot k (spot s.height k b 0 vs).0 (r + 0 + length vs - (spot s.height k b 0 vs).1)
          ws
          (record {
            node = λ j. if k == j then (spot s.height k b 0 vs).0 else trail.node j;
            rank = λ j.
                if k == j then r + 0 + length vs - (spot s.height k b 0 vs).1 else trail.rank j;
          })
          next (omega arith) rank l in
      rw (step, descend)
        (
          λ p. elim (Bool-cases (ltb l k)) [
            | inl deeper ↦ lower (ltb→lt _ _ deeper)
            | inr same ↦
                let e : k ≡ l = ground arith in
                let top = upper (omega arith) in
                let hit : k == l ≡ true = ground arith in
                (
                  top.0 ∙ rw hit (ap (λ q. q.0) (sym here) ∙ ap (λ j. (at j).0) e),
                  top.1 ∙ rw hit (last ∙ ap (λ j. length pre - (at j).1) e),
                )
          ],
          λ p.
              let top = upper (omega arith) in
              let past : k == l ≡ false = ground arith in
              (top.0 ∙ rw past refl, top.1 ∙ rw past refl),
        )
