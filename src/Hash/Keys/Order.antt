-- ===== src/Hash/Keys/Order.antt =====
-- The comparison of keys is a total order whose equality is equality of keys.
use simple_kit.Base.{
  ◌≡◌, ◌↔◌, refl, sym, ◌∙◌, Bool, true, false, [], ◌∷◌, arith, compare, Ordering, Bool-cases, ltb,
  length, ◌<◌, ◌^◌, ◌⊎◌, inl, inr, some,
}
use simple_kit.Hash.Keys.{Key, key_compare, int_key_compare}

-- The order described without the code: byte by byte, a prefix first.
pub lex : Key → Key → Ordering
lex [] [] = Ordering.eq
lex [] (y ∷ b) = Ordering.lt
lex (x ∷ a) [] = Ordering.gt
lex (x ∷ a) (y ∷ b) = elim (compare x y) [ Ordering.eq ↦ lex a b | r ↦ r ]

-- The sign of `_slist_key_compare`.
key_compare-lex : (a b : Key) → key_compare a b ≡ lex a b
unfolding key_compare lex
key_compare-lex [] [] = refl
key_compare-lex [] (y ∷ b) = ground arith
key_compare-lex (x ∷ a) [] = ground arith
key_compare-lex (x ∷ a) (y ∷ b) = ground (arith, key_compare-lex a b)

-- If one of the two keys is below 2^31 bytes, then the int that keeps the smaller length in
-- _shash_key_compare holds it, and the sign of the result, a memcmp over that length completed by
-- the lengths, is the lexicographic order of the two keys, a prefix first.
pub int_key_compare-lex :
    (a b : Key) → (length a < 2 ^ 31) ⊎ (length b < 2 ^ 31) → int_key_compare a b ≡ some (lex a b)
unfolding int_key_compare
int_key_compare-lex a b short =
    let lemma = key_compare-lex a b in
    elim (Bool-cases (ltb (length a) (length b))) [
      | inl less ↦ ground arith
      | inr more ↦ ground arith
    ]

lex_refl : (a : Key) → lex a a ≡ Ordering.eq
unfolding lex
lex_refl [] = refl
lex_refl (x ∷ a) = ground (arith, lex_refl a)

lex-eq : (a b : Key) → lex a b ≡ Ordering.eq → a ≡ b
unfolding lex
lex-eq [] [] h = refl
lex-eq [] (y ∷ b) h = cc
lex-eq (x ∷ a) [] h = cc
lex-eq (x ∷ a) (y ∷ b) h = ground (arith, lex-eq a b)

lex_flip : (a b : Key) → (lex a b ≡ Ordering.gt) ↔ (lex b a ≡ Ordering.lt)
unfolding lex
lex_flip [] [] = ground arith
lex_flip [] (y ∷ b) = ground arith
lex_flip (x ∷ a) [] = ground arith
lex_flip (x ∷ a) (y ∷ b) = ground (arith, lex_flip a b)

lex_trans : (a b c : Key) → lex a b ≡ Ordering.lt → lex b c ≡ Ordering.lt → lex a c ≡ Ordering.lt
unfolding lex
lex_trans [] [] c h k = cc
lex_trans [] (y ∷ b) [] h k = cc
lex_trans [] (y ∷ b) (z ∷ c) h k = refl
lex_trans (x ∷ a) [] c h k = cc
lex_trans (x ∷ a) (y ∷ b) [] h k = cc
lex_trans (x ∷ a) (y ∷ b) (z ∷ c) h k = ground (arith, lex_trans a b c)

-- The laws that the users of the order rely on.
pub key_compare_refl : (a : Key) → key_compare a a ≡ Ordering.eq
key_compare_refl a = key_compare-lex a a ∙ lex_refl a

pub key_compare-eq : (a b : Key) → key_compare a b ≡ Ordering.eq → a ≡ b
key_compare-eq a b h = lex-eq a b (sym (key_compare-lex a b) ∙ h)

pub key_compare_flip :
    (a b : Key) → (key_compare a b ≡ Ordering.gt) ↔ (key_compare b a ≡ Ordering.lt)
key_compare_flip a b = rw (key_compare-lex a b, key_compare-lex b a) (lex_flip a b)

-- A key below a second that is below a third is below the third.
pub key_compare_trans :
    (a b c : Key)
    → key_compare a b ≡ Ordering.lt
    → key_compare b c ≡ Ordering.lt
    → key_compare a c ≡ Ordering.lt
key_compare_trans a b c =
    rw (key_compare-lex a b, key_compare-lex b c, key_compare-lex a c) (lex_trans a b c)

pub Ordering-cases : (o : Ordering) → (o ≡ Ordering.lt) ⊎ ((o ≡ Ordering.eq) ⊎ (o ≡ Ordering.gt))
Ordering-cases Ordering.lt = inl refl
Ordering-cases Ordering.eq = inr (inl refl)
Ordering-cases Ordering.gt = inr (inr refl)

-- Equality of keys as a test.
abbrev pub same : Key → Key → Bool
same a b = elim (key_compare a b) [ Ordering.eq ↦ true | _ ↦ false ]

pub same_iff : (a b : Key) → (same a b ≡ true) ↔ (a ≡ b)
same_iff a b =
    (λ h. key_compare-eq a b (ground arith), λ e. rw e (ground (arith, key_compare_refl b)))
