-- ===== src/Hash/Moves.antt =====
-- Moving the chain of one bucket into another array.
use simple_kit.Base.{
  ℕ, ◌+◌, ◌≡◌, ◌≢◌, refl, sym, ◌∙◌, true, Option, none, [], ◌∷◌, arith, length, Bool-cases, inl,
  inr, or_else,
}
use simple_kit.Hash.Keys.{Key}
use simple_kit.Hash.Keys.Order.{same, same_iff}
use simple_kit.Hash.Chains.{Chain}
use simple_kit.Hash.Chains.Laws.{lookup, IsSorted, Owned, lookup-Below}
use simple_kit.Hash.Table.{Buckets, move_chain}
use simple_kit.Hash.Arrays.{IsArray, look, place_in, place-IsArray, look-place, total-place, total}

module _ {ℓ} {V : Type ℓ} where
  -- What the loop over one old bucket leaves: the nodes of the chain over those of the array.
  pub record Moved (owner : ℕ → Option Key) (bits : ℕ) (c : Chain V) (bs r : Buckets V)
      : Type ℓ where
    pub array : IsArray owner bits r
    pub reads : (q : Key) → look bits r q ≡ or_else (lookup q c) (look bits bs q)
    pub count : total r ≡ total bs + length c

  pub move_chain-Moved :
      (owner : ℕ → Option Key) (bits : ℕ) (c : Chain V) (bs : Buckets V)
      → IsSorted c
      → Owned owner c
      → IsArray owner bits bs
      → ((q : Key) → lookup q c ≢ none → look bits bs q ≡ none)
      → Moved owner bits c bs (move_chain bits c bs)
  unfolding move_chain lookup
  move_chain-Moved owner bits [] bs s o a absent = record {
    array = a;
    reads = λ q. refl;
    count = omega arith;
  }
  move_chain-Moved owner bits (n ∷ c) bs s o a absent =
      let here : look bits bs n.key ≡ none =
        absent n.key (rw ((same_iff n.key n.key).1 refl) (λ e. cc)) in
      let next = place_in bits bs n in
      let put = look-place owner bits bs a n in
      let once = λ (q : Key) (e : same q n.key ≡ true).
        rw (sym ((same_iff q n.key).0 e)) at (lookup-Below n.key c s.0) in
      let rest =
        move_chain-Moved owner bits c next s.1 o.1 (place-IsArray owner bits bs a n o.0 here)
          (λ q there. put q ∙ (elim (Bool-cases (same q n.key)) [
            | inl e ↦ absurd (there (once q e))
            | inr e ↦ rw e (absent q (rw e there))
          ])) in
      record {
        array = rest.array;
        reads = λ q. rest.reads q ∙ (elim (Bool-cases (same q n.key)) [
          | inl e ↦ rw (once q e, put q, e)
          | inr e ↦ rw (put q, e)
        ]);
        count = omega (arith, rest.count, total-place owner bits bs a n);
      }
