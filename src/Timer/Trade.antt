-- ===== src/Timer/Trade.antt =====
-- One round of either loop of simple_io/sio_timer.c: the timer trades places with another node.
-- The heap is looked at with the timer written to its place, as the loops do when they end.
use simple_kit.Base.{
  ℕ, ◌≤◌, ◌≡◌, ◌≢◌, refl, ap, sym, ◌∙◌, ◌==◌, arith, Bool-cases, inl, inr, if◌then◌else◌,
}
use simple_kit.Timer.{Manager, plug, trade}
use simple_kit.Timer.Order.{Linked, key, member, Same}

-- The timer has its new place.
pub trade_own : (m : Manager) (t j : ℕ) → (trade m t j).index t ≡ j
trade_own m t j = ground arith

module _ (m : Manager) (t j : ℕ) (linked : Linked (plug m t)) (low : 1 ≤ m.index t)
    (high : m.index t ≤ m.heap_length) (from : 1 ≤ j) (to : j ≤ m.heap_length)
    (apart : j ≢ m.index t) where
  here : m.index (m.heap_nodes j) ≡ j
  here = ground (arith, linked j)

  other-ne : m.heap_nodes j ≢ t
  other-ne e = apart (sym here ∙ ap m.index e)

  trade-nodes :
      (i : ℕ)
      → (plug (trade m t j) t).heap_nodes i
        ≡ (if j == i then t else if m.index t == i then m.heap_nodes j else m.heap_nodes i)
  trade-nodes i = ground (arith, other-ne)

  trade-index :
      (a : ℕ)
      → (plug (trade m t j) t).index a
        ≡ (if t == a then j else if m.heap_nodes j == a then m.index t else m.index a)
  trade-index a = refl

  pub trade-key :
      (i : ℕ)
      → key (plug (trade m t j) t) i ≡ (
          if j == i
          then m.expire t
          else if m.index t == i
          then key (plug m t) j
          else key (plug m t) i)
  trade-key i = ground (arith, trade-nodes i)

  pub trade-Linked : Linked (plug (trade m t j) t)
  trade-Linked i p q = elim (Bool-cases (j == i)) [
    | inl there ↦ rw (trade-nodes i, there) (ground arith)
    | inr elsewhere ↦ elim (Bool-cases (m.index t == i)) [
      | inl was ↦ rw (trade-nodes i, elsewhere, was) (ground (arith, other-ne))
      | inr other ↦
          let kept : m.index (m.heap_nodes i) ≡ i = ground (arith, linked i) in
          let own : m.heap_nodes i ≢ t = λ e. absurd (ground (arith, ap m.index e)) in
          let fresh : m.heap_nodes j ≢ m.heap_nodes i =
            λ e. absurd (ground (arith, ap m.index e, here)) in
          rw (trade-nodes i, elsewhere, other) (ground arith)
    ]
  ]

  trade-members : (a : ℕ) → member (plug (trade m t j) t) a ≡ member (plug m t) a
  trade-members a = ground (arith, trade-nodes (m.index a), trade-index a, here, other-ne)

  pub trade-Same : Same (plug m t) (plug (trade m t j) t)
  trade-Same = record { length = refl; size = refl; expire = refl; members = trade-members }
