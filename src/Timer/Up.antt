-- ===== src/Timer/Up.antt =====
-- `_sio_timer_upheap` restores a heap in which one timer may expire before its parent.
use simple_kit.Base.{
  ℕ, zero, suc, ◌/◌, ◌≤◌, ◌<◌, ◌≡◌, ◌≢◌, refl, sym, ◌==◌, ==_iff, ltb, arith, Bool-cases, inl, inr,
}
use simple_kit.Timer.{Manager, plug, trade, upheap_loop, upheap}
use simple_kit.Timer.Order.{Linked, key, IsSized, IsValid, Bridged, Same, Same-refl, Same-trans}
use simple_kit.Timer.Trade.{trade-key, trade-Linked, trade-Same, trade_own}

-- Only the edge above `k` may be out of order.
pub record UpInv (m : Manager) (k : ℕ) : Type 0 where
  pub sized : IsSized m
  pub linked : Linked m
  pub low : 1 ≤ k
  pub high : k ≤ m.heap_length
  pub edges : (c : ℕ) → 2 ≤ c → c ≤ m.heap_length → c ≢ k → key m (c / 2) ≤ key m c
  pub bridged : Bridged m k

trade-UpInv :
    (m : Manager) (t k : ℕ)
    → m.index t ≡ k
    → UpInv (plug m t) k
    → 2 ≤ k
    → m.expire t < m.expire (m.heap_nodes (k / 2))
    → UpInv (plug (trade m t (k / 2)) t) (k / 2)
trade-UpInv m t k e v pos below =
    let at =
      trade-key m t (k / 2) v.linked (omega arith) (omega arith) (omega arith) (omega arith)
        (omega arith) in
    let above : key (plug m t) (k / 2) ≡ m.expire (m.heap_nodes (k / 2)) = ground arith in
    record {
      sized = record { room = v.sized.room; small = v.sized.small };
      linked =
          trade-Linked m t (k / 2) v.linked (omega arith) (omega arith) (omega arith) (omega arith)
            (omega arith);
      low = omega arith;
      high = omega arith;
      edges = λ c p q r. ground (arith, at c, at (c / 2), v.edges c, v.bridged c);
      bridged = λ c p q r s. ground (arith, at c, at (k / 2 / 2), v.edges c, v.edges (k / 2));
    }

settled-IsValid :
    (m : Manager) (k : ℕ) → UpInv m k → ((2 ≤ k) → key m (k / 2) ≤ key m k) → IsValid m
settled-IsValid m k v h = record {
  sized = v.sized;
  linked = v.linked;
  heap = λ c p q. elim (Bool-cases (c == k)) [
    | inl e ↦ rw ((==_iff c k).0 e) (h (ground arith))
    | inr ne ↦ v.edges c p q (ground arith)
  ];
}

upheap_loop-IsValid :
    (fuel : ℕ) (m : Manager) (t k : ℕ)
    → m.index t ≡ k
    → k ≤ fuel
    → UpInv (plug m t) k
    → IsValid (plug (upheap_loop fuel m t) t) × Same (plug m t) (plug (upheap_loop fuel m t) t)
unfolding upheap_loop
upheap_loop-IsValid zero m t k e f v = absurd (omega (arith, v.low))
upheap_loop-IsValid (suc fuel) m t k e f v = elim (Bool-cases (m.index t / 2 == 0)) [
  | inl root ↦
      rw root (settled-IsValid (plug m t) k v (λ h. absurd (ground arith)), Same-refl (plug m t))
  | inr deep ↦ elim (Bool-cases (ltb (m.expire t) (m.expire (m.heap_nodes (m.index t / 2))))) [
    | inr stop ↦
        rw (deep, stop) (settled-IsValid (plug m t) k v (λ h. ground arith), Same-refl (plug m t))
    | inl rise ↦
        let j = m.index t / 2 in
        let next =
          trade-UpInv m t (m.index t) refl (rw (sym e) at v) (ground arith) (ground arith) in
        let (valid, same) =
          upheap_loop-IsValid fuel (trade m t j) t j (trade_own m t j) (ground arith) next in
        let moved =
          trade-Same m t j v.linked (omega arith) (omega arith) (omega arith) (omega arith)
            (omega arith) in
        rw (deep, rise) (valid, Same-trans moved same)
  ]
]

-- One timer too early for its place rises until the heap is in order.
pub upheap-IsValid :
    (m : Manager) (t k : ℕ)
    → m.index t ≡ k
    → UpInv (plug m t) k
    → IsValid (upheap m t) × Same (plug m t) (upheap m t)
unfolding upheap
upheap-IsValid m t k e v = upheap_loop-IsValid (m.index t) m t k e (omega arith) v
