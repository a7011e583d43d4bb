-- ===== src/Rpc/Client/Rotation.antt =====
-- The indices that the rounds of `_sio_rpc_choose_upstream` look at.
use native.Mathlib.Nat.{mod-add-mod, mod-eq_of_lt, add-mod_right, mod-lt}
use simple_kit.Base.{
  ℕ, ◌+◌, ◌-◌, ◌%◌, ◌^◌, ◌≤◌, ◌<◌, ◌≡◌, sym, ap, ◌∙◌, arith, leb, leb→le, Bool-cases, inl, inr,
}
use simple_kit.Rpc.Parse.{add32}

-- A round that meets index `j`, as long as the counter does not wrap on the way.
pub rotation-meets : (r n j : ℕ) → j < n → r + n ≤ 2 ^ 32 → (i : ℕ) × (i < n) × (add32 r i % n ≡ j)
rotation-meets r n j inside small =
    let less : r % n < n = mod-lt r (omega arith) in
    elim (Bool-cases (leb (r % n) j)) [
      | inl ahead ↦
          let here : r % n ≤ j = leb→le _ _ ahead in
          let sum : r % n + (j - r % n) ≡ j = omega arith in
          let flat : add32 r (j - r % n) ≡ r + (j - r % n) = omega arith in
          (
            j - r % n,
            omega arith,
            ap (λ x. x % n) flat
                ∙ sym (mod-add-mod r n (j - r % n))
                ∙ ap (λ x. x % n) sum
                ∙ mod-eq_of_lt inside,
          )
      | inr behind ↦
          let sum : r % n + (j + n - r % n) ≡ j + n = omega arith in
          let flat : add32 r (j + n - r % n) ≡ r + (j + n - r % n) = ground arith in
          (
            j + n - r % n,
            ground arith,
            ap (λ x. x % n) flat
                ∙ sym (mod-add-mod r n (j + n - r % n))
                ∙ ap (λ x. x % n) sum
                ∙ add-mod_right j n
                ∙ mod-eq_of_lt inside,
          )
    ]
