-- ===== src/Timer/Adjust.antt =====
-- `_sio_timer_adjust_heap`, and the step that moves the last timer into a place that got free.
use simple_kit.Base.{
  ℕ, ◌+◌, ◌-◌, ◌/◌, ◌≤◌, ◌<◌, ◌≡◌, ◌≢◌, ap, ◌∙◌, false, ◌==◌, ◌&&◌, ltb, arith, Bool-cases, inl,
  inr, if◌then◌else◌, not,
}
use simple_kit.Base.Words.{sub64}
use simple_kit.Timer.{Manager, update, plug, adjust_heap, refill}
use simple_kit.Timer.Order.{Linked, IsValid, member, Holed, Same}
use simple_kit.Timer.Up.{upheap-IsValid}
use simple_kit.Timer.Down.{downheap-IsValid}

-- Whatever the time of the one timer that may be out of place, the heap is in order afterwards.
pub adjust_heap-IsValid :
    (m : Manager) (t k : ℕ)
    → m.index t ≡ k
    → Holed (plug m t) k
    → IsValid (adjust_heap m t) × Same (plug m t) (adjust_heap m t)
unfolding adjust_heap
adjust_heap-IsValid m t k e v =
    elim (Bool-cases
      (not (m.index t / 2 == 0) && ltb (m.expire t) (m.expire (m.heap_nodes (m.index t / 2))))) [
        | inl rise ↦ rw rise (
            upheap-IsValid m t k e (record {
              sized = v.sized;
              linked = v.linked;
              low = v.low;
              high = v.high;
              edges = λ c p q r. ground (arith, v.edges c, v.bridged c);
              bridged = v.bridged;
            }))
        | inr sink ↦ rw sink (
            downheap-IsValid m t k e (record {
              sized = v.sized;
              linked = v.linked;
              low = v.low;
              high = v.high;
              edges = λ c p q r. ground (arith, v.edges c);
              bridged = v.bridged;
            }))
      ]

-- What taking a timer out leaves.
pub record Removed (m : Manager) (t : ℕ) (r : Manager) : Type 0 where
  pub valid : IsValid r
  pub members : (a : ℕ) → member r a ≡ (if t == a then false else member m a)
  pub length : r.heap_length + 1 ≡ m.heap_length
  pub expire : r.expire ≡ m.expire

module _ (m : Manager) (at : ℕ) (v : IsValid m) (low : 1 ≤ at) (high : at < m.heap_length) where
  abbrev last : ℕ
  last = m.heap_nodes m.heap_length

  abbrev shorter : Manager
  shorter = record m {
    heap_length = sub64 m.heap_length 1;
    heap_nodes = update m.heap_nodes at last;
    index = update m.index last at;
  }

  one_less : sub64 m.heap_length 1 ≡ m.heap_length - 1
  one_less = let room = v.sized.room in let small = v.sized.small in omega arith

  last_at : m.index last ≡ m.heap_length
  last_at = v.linked m.heap_length (omega arith) (omega arith)

  last_now : shorter.index last ≡ at
  last_now = ground arith

  nodes_now :
      (i : ℕ) → (plug shorter last).heap_nodes i ≡ (if at == i then last else m.heap_nodes i)
  nodes_now i = ground (arith, last_now)

  shorter-Linked : Linked (plug shorter last)
  shorter-Linked i p q =
      let here = v.linked i p (omega (arith, one_less)) in
      elim (Bool-cases (at == i)) [
        | inl same ↦ rw (nodes_now i, same) (ground arith)
        | inr other ↦
            let ne : last ≢ m.heap_nodes i =
              λ e. absurd (omega (arith, ap m.index e, last_at, one_less)) in
            rw (nodes_now i, other) (ground arith)
      ]

  shorter-Holed : Holed (plug shorter last) at
  shorter-Holed = record {
    sized = record { room = omega (arith, one_less, v.sized.room); small = v.sized.small };
    linked = shorter-Linked;
    low = low;
    high = omega (arith, one_less);
    edges = λ c p q r s. ground (arith, nodes_now c, nodes_now (c / 2), v.heap c, one_less);
    bridged =
        λ c p q r s. ground (arith, nodes_now c, nodes_now (at / 2), v.heap c, v.heap at, one_less);
  }

  shorter-members :
      (a : ℕ) → member (plug shorter last) a ≡ (if m.heap_nodes at == a then false else member m a)
  shorter-members a =
      ground (arith, nodes_now ((plug shorter last).index a), v.linked at, last_at, one_less)

  pub refill-Removed : Removed m (m.heap_nodes at) (refill m at)
  refill-Removed =
      let (valid, same) = adjust_heap-IsValid shorter last at last_now shorter-Holed in
      record {
        valid = valid;
        members = λ a. same.members a ∙ shorter-members a;
        length = omega (arith, same.length, one_less);
        expire = same.expire;
      }
