-- ===== src/Timer/Down.antt =====
-- `_sio_timer_downheap` restores a heap in which one timer may expire after its children.
use simple_kit.Base.{
  ℕ, zero, suc, ◌+◌, ◌*◌, ◌/◌, ◌^◌, ◌≤◌, ◌<◌, ◌≡◌, ◌≢◌, ap, ◌==◌, arith, Bool-cases, inl, inr,
}
use simple_kit.Base.Words.{add64, mul64}
use simple_kit.Timer.{Manager, plug, trade, min_index, downheap_loop, downheap}
use simple_kit.Timer.Order.{Linked, key, IsSized, IsValid, Bridged, Same, Same-refl, Same-trans}
use simple_kit.Timer.Trade.{trade-key, trade-Linked, trade-Same, trade_own}

-- Only the edges below `k` may be out of order.
pub record DownInv (m : Manager) (k : ℕ) : Type 0 where
  pub sized : IsSized m
  pub linked : Linked m
  pub low : 1 ≤ k
  pub high : k ≤ m.heap_length
  pub edges : (c : ℕ) → 2 ≤ c → c ≤ m.heap_length → c / 2 ≢ k → key m (c / 2) ≤ key m c
  pub bridged : Bridged m k

-- What a round chooses: the timer's own place if no child is earlier, else the earliest child.
record Chosen (m : Manager) (t k j : ℕ) : Type 0 where
  stay : j ≡ k → (c : ℕ) → c ≤ m.heap_length → c / 2 ≡ k → m.expire t ≤ m.expire (m.heap_nodes c)
  inside : j ≢ k → j ≤ m.heap_length
  child : j ≢ k → j / 2 ≡ k
  deeper : j ≢ k → k < j
  below : j ≢ k → m.expire (m.heap_nodes j) ≤ m.expire t
  least :
      j ≢ k
      → (c : ℕ) → c ≤ m.heap_length
      → c / 2 ≡ k
      → m.expire (m.heap_nodes j) ≤ m.expire (m.heap_nodes c)

min_index-Chosen :
    (m : Manager) (t k : ℕ)
    → m.index t ≡ k
    → 1 ≤ k
    → k ≤ m.heap_length
    → m.heap_length < 2 ^ 61
    → Chosen m t k (min_index m t)
unfolding min_index
min_index-Chosen m t k e low high small =
    let left : mul64 (m.index t) 2 ≡ 2 * k = omega arith in
    let right : add64 (2 * k) 1 ≡ 2 * k + 1 = omega arith in
    rw (left, right, e)
      (record {
        stay = λ same c p q. ground (
          arith,
          ap (λ i. m.expire (m.heap_nodes i)) {x = c} {y = 2 * k},
          ap (λ i. m.expire (m.heap_nodes i)) {x = c} {y = 2 * k + 1},
        );
        inside = λ away. ground arith;
        child = λ away. ground arith;
        deeper = λ away. ground arith;
        below = λ away. ground arith;
        least = λ away c p q. ground (
          arith,
          ap (λ i. m.expire (m.heap_nodes i)) {x = c} {y = 2 * k},
          ap (λ i. m.expire (m.heap_nodes i)) {x = c} {y = 2 * k + 1},
        );
      })

trade-DownInv :
    (m : Manager) (t k j : ℕ)
    → m.index t ≡ k
    → DownInv (plug m t) k
    → Chosen m t k j
    → j ≢ k
    → DownInv (plug (trade m t j) t) j
trade-DownInv m t k j e v s away =
    let inside = s.inside away in
    let child = s.child away in
    let deeper = s.deeper away in
    let below = s.below away in
    let at =
      trade-key m t j v.linked (omega arith) (omega arith) (omega arith) (omega arith)
        (omega arith) in
    record {
      sized = record { room = v.sized.room; small = v.sized.small };
      linked =
          trade-Linked m t j v.linked (omega arith) (omega arith) (omega arith) (omega arith)
            (omega arith);
      low = omega arith;
      high = omega arith;
      edges = λ c p q r. ground (arith, at c, at (c / 2), v.edges c, v.bridged j, s.least away c);
      bridged = λ c p q r u. ground (arith, at c, at (j / 2), v.edges c);
    }

settled-IsValid :
    (m : Manager) (t k j : ℕ)
    → m.index t ≡ k
    → DownInv (plug m t) k
    → Chosen m t k j
    → j ≡ k
    → IsValid (plug m t)
settled-IsValid m t k j e v s same = record {
  sized = v.sized;
  linked = v.linked;
  heap = λ c p q. elim (Bool-cases (c / 2 == k)) [
    | inl is ↦ ground (arith, s.stay same c)
    | inr other ↦ v.edges c p q (ground arith)
  ];
}

downheap_loop-IsValid :
    (fuel : ℕ) (m : Manager) (t k : ℕ)
    → m.index t ≡ k
    → m.heap_length < k + fuel
    → DownInv (plug m t) k
    → IsValid (plug (downheap_loop fuel m t) t) × Same (plug m t) (plug (downheap_loop fuel m t) t)
unfolding downheap_loop
downheap_loop-IsValid zero m t k e f v = absurd (omega (arith, v.high))
downheap_loop-IsValid (suc fuel) m t k e f v =
    let j = min_index m t in
    let s = min_index-Chosen m t k e v.low v.high (omega (arith, v.sized.room, v.sized.small)) in
    elim (Bool-cases (j == m.index t)) [
      | inl stop ↦ rw stop (settled-IsValid m t k j e v s (ground arith), Same-refl (plug m t))
      | inr sink ↦
          let away : j ≢ k = ground arith in
          let next = trade-DownInv m t k j e v s away in
          let inside = s.inside away in
          let deeper = s.deeper away in
          let (valid, same) =
            downheap_loop-IsValid fuel (trade m t j) t j (trade_own m t j) (omega arith) next in
          let moved =
            trade-Same m t j v.linked (omega arith) (omega arith) (omega arith) (omega arith)
              (omega arith) in
          rw sink (valid, Same-trans moved same)
    ]

-- One timer too late for its place sinks until the heap is in order.
pub downheap-IsValid :
    (m : Manager) (t k : ℕ)
    → m.index t ≡ k
    → DownInv (plug m t) k
    → IsValid (downheap m t) × Same (plug m t) (downheap m t)
unfolding downheap
downheap-IsValid m t k e v = downheap_loop-IsValid m.heap_length m t k e (omega (arith, v.low)) v
