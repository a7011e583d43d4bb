-- ===== src/Skiplist/Around.antt =====
-- simple_skiplist/slist.c: the nodes around the place of a change.
use simple_kit.Base.{
  ℕ, suc, ◌+◌, ◌≤◌, ◌≡◌, ◌≢◌, inl, inr, sym, true, false, ◌==◌, ltb, List, [], ◌∷◌, ◌++◌, length,
  arith, Bool-cases, ==_iff, ltb→lt, not_ltb→le,
}
use simple_kit.Skiplist.{null}
use simple_kit.Skiplist.Run.{
  has, AllDistinct, spot, spot-nil, spot-low, spot-high, has-spot, has-apart, has-parts,
}

pub AllDistinct-parts :
    (xs ys : List ℕ)
    → AllDistinct (xs ++ ys)
    → AllDistinct xs × AllDistinct ys × ((y : ℕ) → has y xs ≡ true → has y ys ≡ false)
AllDistinct-parts [] ys apart = (tt, apart, λ y p. ground (arith, p))
AllDistinct-parts (x ∷ xs) ys (out, apart) =
    let (front, back, cross) = AllDistinct-parts xs ys apart in
    let (out_front, out_back) = has-parts x xs ys out in
    (
      (out_front, front),
      back,
      λ y p. elim (Bool-cases (y == x)) [
        | inl here ↦ rw (sym ((==_iff y x).0 here)) at out_back
        | inr past ↦ cross y (ground arith)
      ],
    )

pub spot-gap : (height : ℕ → ℕ) (l a d : ℕ) (xs : List ℕ) → (spot height l a d xs).1 ≤ d + length xs
spot-gap height l a d [] = rw (spot-nil height l a d) (omega arith)
spot-gap height l a d (x ∷ xs) = elim (Bool-cases (ltb l (height x))) [
  | inl higher ↦
      rw (spot-high height l a d x xs (ltb→lt _ _ higher)) (omega (arith, spot-gap height l x 0 xs))
  | inr lower ↦
      rw (spot-low height l a d x xs (not_ltb→le _ _ lower))
        (omega (arith, spot-gap height l a (suc d) xs))
]

-- Around the spot of nodes that are apart from each other, from null and from `x`.
pub record Around (x a : ℕ) (pre post : List ℕ) (b : ℕ) : Type 0 where
  pub front : AllDistinct (a ∷ pre)
  pub behind : AllDistinct (null ∷ x ∷ b ∷ post)
  pub real : (y : ℕ) → has y (a ∷ pre) ≡ true → y ≢ null
  pub old : (y : ℕ) → has y (a ∷ pre) ≡ true → y ≢ x
  pub out : (y : ℕ) → has y (a ∷ pre) ≡ true → has y post ≡ false
  pub absent : has x pre ≡ false

pub spot-Around :
    (height : ℕ → ℕ) (l x a d : ℕ) (pre post : List ℕ)
    → AllDistinct (null ∷ x ∷ a ∷ (pre ++ post))
    → Around x a pre post (spot height l a d pre).0
spot-Around height l x a d pre post (no_null, (no_x, apart)) =
    let (front, back, cross) = AllDistinct-parts (a ∷ pre) post apart in
    let b = (spot height l a d pre).0 in
    let in_front = has-spot height l a d pre in
    let nulls = has-parts null (x ∷ a ∷ pre) post no_null in
    let xs = has-parts x (a ∷ pre) post no_x in
    record {
      front = front;
      behind = (
        ground (arith, nulls, has-apart b null (a ∷ pre) in_front (ground (arith, nulls))),
        (ground (arith, xs, has-apart b x (a ∷ pre) in_front xs.0), (cross b in_front, back)),
      );
      real = λ y p. has-apart y null (a ∷ pre) p (ground (arith, nulls));
      old = λ y p. has-apart y x (a ∷ pre) p xs.0;
      out = cross;
      absent = ground (arith, xs);
    }
