-- ===== src/Skiplist/Insert/Runs.antt =====
-- simple_skiplist/slist.c, `slist_insert`: every level runs through the new node.
use simple_kit.Base.{
  ℕ, suc, ◌+◌, ◌^◌, ◌≤◌, ◌<◌, ◌≡◌, ◌≢◌, inl, inr, refl, ap, ◌∙◌, true, false, ◌==◌, if◌then◌else◌,
  ltb, leb, List, ◌∷◌, ◌++◌, length, arith, Bool-cases, ltb→lt, not_ltb→le,
}
use simple_kit.Base.Words.{add64, sub64}
use simple_kit.Hash.Keys.{Key}
use simple_kit.Skiplist.{Level, Skiplist, Trail, null, assign, zeroed, link, widen, each, raise}
use simple_kit.Skiplist.Run.{has, AllDistinct, Run, spot, has-append}
use simple_kit.Skiplist.Search.{AllBelow, NoneBelow}
use simple_kit.Skiplist.Invariant.{IsValid}
use simple_kit.Skiplist.Levels.{AllLow-from, each-in, each-past, Run-AllLow, AllLow-Run, zeroed-Run}
use simple_kit.Skiplist.Link.{link-Run, widen-Run}
use simple_kit.Skiplist.Insert.Trail.{trail, raise-at, gap-at}

module _ (s : Skiplist) (key : Key) (pre post : List ℕ) (valid : IsValid s (pre ++ post))
    (below : AllBelow s.key key pre) (none : NoneBelow s.key key post) (addr height : ℕ) where
  abbrev pub raised : Trail
  raised = raise s height (trail s key pre post valid below none)

  abbrev pub clean : ℕ → Level
  clean l = zeroed (s.levels l) addr

  abbrev pub linked : ℕ → Level
  linked =
      each
        (λ l level.
          link level (raised.node l) (add64 (sub64 (raised.rank 0) (raised.rank l)) 1) addr)
        height clean

  abbrev pub widened : ℕ → Level
  widened =
      each (λ l level. if leb height l then widen level (raised.node l) else level) s.cur_height
        linked

  abbrev pub final : ℕ → Level
  final = if leb s.cur_height height then linked else widened

  abbrev spot_of : ℕ → ℕ × ℕ
  spot_of l = spot s.height l s.head 0 pre

  pub linked-at :
      (l : ℕ) → l < height → linked l ≡ link (clean l) (spot_of l).0 (suc (spot_of l).1) addr
  linked-at l p =
      each-in _ height clean l p
      ∙ ap (λ a. link (clean l) a (add64 (sub64 (raised.rank 0) (raised.rank l)) 1) addr)
          (raise-at s key pre post valid below none height l (inr p)).0
      ∙ ap (λ g. link (clean l) (spot_of l).0 g addr)
          (gap-at s key pre post valid below none height l (inr p))

  linked-past : (l : ℕ) → height ≤ l → linked l ≡ clean l
  linked-past l p = each-past _ height clean l p

  pub final-at : (l : ℕ) → l < height → final l ≡ linked l
  final-at l p =
      let off : leb height l ≡ false = ground arith in
      elim (Bool-cases (leb s.cur_height height)) [
        | inl tall ↦ rw tall refl
        | inr short ↦ rw short (
            each-in _ s.cur_height linked l (ground arith)
            ∙ ap (λ test. if test then widen (linked l) (raised.node l) else linked l) off)
      ]

  final-wide : (l : ℕ) → height ≤ l → l < s.cur_height → final l ≡ widen (clean l) (spot_of l).0
  final-wide l p q =
      let short : leb s.cur_height height ≡ false = ground arith in
      let high : leb height l ≡ true = ground arith in
      rw short (
        each-in _ s.cur_height linked l q
        ∙ rw high (
            ap (λ z. widen z (raised.node l)) (linked-past l p)
            ∙ ap (λ a. widen (clean l) a)
                (raise-at s key pre post valid below none height l (inl q)).0))

  final-past : (l : ℕ) → height ≤ l → s.cur_height ≤ l → final l ≡ clean l
  final-past l p q = elim (Bool-cases (leb s.cur_height height)) [
    | inl tall ↦ rw tall (linked-past l p)
    | inr short ↦ rw short (each-past _ s.cur_height linked l q ∙ linked-past l p)
  ]

  module _ (real : addr ≢ null) (new : has addr (s.head ∷ (pre ++ post)) ≡ false)
      (room : length (pre ++ post) + 2 < 2 ^ 64) where
    apart : AllDistinct (null ∷ addr ∷ s.head ∷ (pre ++ post))
    apart = let d = valid.distinct in (ground arith, (new, d.1))

    clean-Run : (l : ℕ) → l < s.max_height → Run (clean l) s.height l s.head 0 (pre ++ post)
    clean-Run l p = zeroed-Run addr (valid.runs l p) new

    same_above :
        (l : ℕ)
        → s.cur_height ≤ l
        → height ≤ l
        → l < s.max_height
        → Run (clean l) (assign s.height addr height) l s.head 0 (pre ++ (addr ∷ post))
    same_above l p q r =
        AllLow-Run (clean l) _ l s.head 0 (pre ++ (addr ∷ post))
          (Run-AllLow (pre ++ post) (clean-Run l r) (
            AllLow-from s.height l (pre ++ post) (λ x m. let h = valid.heights x m in omega arith)))
          (AllLow-from _ l (pre ++ (addr ∷ post)) (λ x m. elim (Bool-cases (addr == x)) [
            | inl here ↦ rw here q
            | inr past ↦
                let h =
                  valid.heights x
                    (ground (arith, has-append x pre post, has-append x pre (addr ∷ post))) in
                rw past (omega arith)
          ]))

    pub final-Run :
        (l : ℕ)
        → l < s.max_height
        → Run (final l) (assign s.height addr height) l s.head 0 (pre ++ (addr ∷ post))
    final-Run l r = elim (Bool-cases (ltb l height)) [
      | inl on ↦
          let p = ltb→lt _ _ on in
          rw (final-at l p ∙ linked-at l p) (
            link-Run (clean l) s.height l addr height s.head 0 pre post (clean-Run l r) p apart
              (omega arith))
      | inr off ↦
          let p = not_ltb→le _ _ off in
          elim (Bool-cases (ltb l s.cur_height)) [
            | inl inside ↦ rw (final-wide l p (ltb→lt _ _ inside)) (
                widen-Run (clean l) s.height l addr height s.head 0 pre post (clean-Run l r) p apart
                  (omega arith))
            | inr outside ↦
                let q = not_ltb→le _ _ outside in rw (final-past l p q) (same_above l q p r)
          ]
    ]
