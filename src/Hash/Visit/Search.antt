-- ===== src/Hash/Visit/Search.antt =====
-- The search for the next bucket that is not empty.
use mathlib.Core.List.{append_assoc}
use simple_kit.Base.{
  ℕ, zero, suc, ◌+◌, ◌-◌, ◌≡◌, ◌<◌, refl, ap, sym, ◌∙◌, Option, none, some, [], ◌∷◌, ◌++◌, arith,
  get_or, length,
}
use simple_kit.Hash.Chains.{Node, Chain}
use simple_kit.Hash.Table.{Buckets}
use simple_kit.Hash.Iteration.{scan}
use simple_kit.Hash.Visit.{nodes_from, concat}

module _ {ℓ} {V : Type ℓ} where
  -- What a search over `rounds` buckets from `b` on says about their nodes.
  abbrev pub Searched : Buckets V → ℕ → ℕ → Option (ℕ × Node V) → Type ℓ
  Searched bs rounds b none = nodes_from bs rounds b ≡ []
  Searched bs rounds b (some (at, n)) =
      (c : Chain V) × (get_or bs at [] ≡ n ∷ c)
      × (nodes_from bs rounds b ≡ n ∷ (c ++ nodes_from bs (b + rounds - (at + 1)) (at + 1)))
      × (at < b + rounds)
      × (0 < rounds)

  -- An empty bucket in front changes nothing.
  past_empty :
      (bs : Buckets V) (rounds b : ℕ) (o : Option (ℕ × Node V))
      → get_or bs b [] ≡ []
      → Searched bs rounds (b + 1) o
      → Searched bs (suc rounds) b o
  unfolding nodes_from
  past_empty bs rounds b none e h = rw e h
  past_empty bs rounds b (some (at, n)) e (c, here, all, inside, some_round) =
      let same : b + suc rounds - (at + 1) ≡ b + 1 + rounds - (at + 1) = omega arith in
      (c, here, rw (e, same) all, omega arith, omega arith)

  at_bucket :
      (bs : Buckets V) (rounds b : ℕ) (d : Chain V) (o : Option (ℕ × Node V))
      → get_or bs b [] ≡ d
      → Searched bs rounds (b + 1) o
      → Searched bs (suc rounds) b (elim d [ [] ↦ o | n ∷ c ↦ some (b, n) ])
  unfolding nodes_from
  at_bucket bs rounds b [] o e h = past_empty bs rounds b o e h
  at_bucket bs rounds b (n ∷ c) o e h =
      let same : b + suc rounds - (b + 1) ≡ rounds = omega arith in
      (c, e, rw (e, same) refl, omega arith, omega arith)

  pub scan-Searched : (bs : Buckets V) (rounds b : ℕ) → Searched bs rounds b (scan bs rounds b)
  unfolding scan nodes_from
  scan-Searched bs zero b = refl
  scan-Searched bs (suc rounds) b =
      at_bucket bs rounds b (get_or bs b []) (scan bs rounds (b + 1)) refl
        (scan-Searched bs rounds (b + 1))

  pub nodes_from-split :
      (bs : Buckets V) (r q b : ℕ)
      → nodes_from bs (r + q) b ≡ nodes_from bs r b ++ nodes_from bs q (b + r)
  unfolding nodes_from
  nodes_from-split bs zero q b =
      let none_more : zero + q ≡ q = omega arith in
      let here : b + zero ≡ b = omega arith in rw (none_more, here) refl
  nodes_from-split bs (suc r) q b =
      let here = get_or bs b [] in
      let moved : b + 1 + r ≡ b + suc r = omega arith in
      let more : suc r + q ≡ suc (r + q) = omega arith in
      rw more (rw moved at (ap (λ t. here ++ t) (nodes_from-split bs r q (b + 1))))
      ∙ sym (append_assoc here (nodes_from bs r (b + 1)) (nodes_from bs q (b + suc r)))

  -- Searching an array that is not there.
  pub nodes_from-nil : (rounds b : ℕ) → nodes_from {V = V} [] rounds b ≡ []
  unfolding nodes_from
  nodes_from-nil zero b = refl
  nodes_from-nil (suc rounds) b = rw (nodes_from-nil rounds (b + 1)) refl

  nodes_from-suc :
      (c : Chain V) (bs : Buckets V) (rounds b : ℕ)
      → nodes_from (c ∷ bs) rounds (suc b) ≡ nodes_from bs rounds b
  unfolding nodes_from
  nodes_from-suc c bs zero b = refl
  nodes_from-suc c bs (suc rounds) b =
      let next : suc b + 1 ≡ suc (b + 1) = omega arith in
      rw next (ap (λ r. get_or bs b [] ++ r) (nodes_from-suc c bs rounds (b + 1)))

  pub nodes_from-concat : (bs : Buckets V) → nodes_from bs (length bs) 0 ≡ concat bs
  unfolding nodes_from concat
  nodes_from-concat [] = refl
  nodes_from-concat (c ∷ bs) = rw (nodes_from-suc c bs (length bs) 0, nodes_from-concat bs) refl
