-- ===== src/Timer/Order.antt =====
-- What a heap of timers keeps: each timer knows its place, and no timer expires before its parent.
use simple_kit.Base.{ℕ, ◌/◌, ◌^◌, ◌≤◌, ◌<◌, ◌≡◌, ◌≢◌, refl, ◌∙◌, Bool, ◌==◌, ◌&&◌, leb}
use simple_kit.Timer.{Manager}

-- The timer at every place of the heap has that place as its index.
abbrev pub Linked : Manager → Type 0
Linked m = (i : ℕ) → 1 ≤ i → i ≤ m.heap_length → m.index (m.heap_nodes i) ≡ i

abbrev pub key : Manager → ℕ → ℕ
key m i = m.expire (m.heap_nodes i)

-- The array fits the memory, so that places and their doubles fit 64 bits.
pub record IsSized (m : Manager) : Type 0 where
  pub room : m.heap_length ≤ m.heap_size
  pub small : m.heap_size < 2 ^ 61

pub record IsValid (m : Manager) : Type 0 where
  pub sized : IsSized m
  pub linked : Linked m
  pub heap : (c : ℕ) → 2 ≤ c → c ≤ m.heap_length → key m (c / 2) ≤ key m c

-- The timer at an address stands in the heap.
abbrev pub member : Manager → ℕ → Bool
member m a = leb 1 (m.index a) && leb (m.index a) m.heap_length && m.heap_nodes (m.index a) == a

-- The children of a place expire no earlier than its parent.
abbrev pub Bridged : Manager → ℕ → Type 0
Bridged m k = (c : ℕ) → 2 ≤ c → c ≤ m.heap_length → c / 2 ≡ k → 2 ≤ k → key m (k / 2) ≤ key m c

-- A place whose timer may be out of order with its parent and with its children.
pub record Holed (m : Manager) (k : ℕ) : Type 0 where
  pub sized : IsSized m
  pub linked : Linked m
  pub low : 1 ≤ k
  pub high : k ≤ m.heap_length
  pub edges : (c : ℕ) → 2 ≤ c → c ≤ m.heap_length → c ≢ k → c / 2 ≢ k → key m (c / 2) ≤ key m c
  pub bridged : Bridged m k

-- What the loops keep, besides the order: sizes, times and the set of timers.
pub record Same (m r : Manager) : Type 0 where
  pub length : r.heap_length ≡ m.heap_length
  pub size : r.heap_size ≡ m.heap_size
  pub expire : r.expire ≡ m.expire
  pub members : (a : ℕ) → member r a ≡ member m a

pub Same-refl : (m : Manager) → Same m m
Same-refl m = record { length = refl; size = refl; expire = refl; members = λ a. refl }

pub Same-trans : {m n r : Manager} → Same m n → Same n r → Same m r
Same-trans h k = record {
  length = k.length ∙ h.length;
  size = k.size ∙ h.size;
  expire = k.expire ∙ h.expire;
  members = λ a. k.members a ∙ h.members a;
}
