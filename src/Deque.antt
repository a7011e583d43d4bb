-- ===== src/Deque.antt =====
-- simple_deque/sdeque.c and sdeque.h: the doubly linked list that serves as a deque.
-- Nodes stand at addresses; the fields of all nodes are maps from addresses, and `live` tells which
-- addresses `calloc` gave out and `free` did not take back. `null` is address 0. A `void *` value
-- is a number.
pub mod Seg
pub mod Ends
pub mod Refine
pub mod Tests
use simple_kit.Base.{
  ℕ, zero, suc, ◌+◌, ◌-◌, ◌==◌, Bool, true, false, Option, none, some, if◌then◌else◌,
}

abbrev pub null : ℕ
null = 0

pub record Deque : Type 0 where
  pub num_nodes : ℕ
  pub head : ℕ
  pub tail : ℕ
  pub value : ℕ → ℕ
  pub next : ℕ → ℕ
  pub prev : ℕ → ℕ
  pub live : ℕ → Bool

-- `p->f = v`.
abbrev pub assign {ℓ} : {A : Type ℓ} → (ℕ → A) → ℕ → A → ℕ → A
assign f p v q = if p == q then v else f q

-- `calloc`: the node at a fresh address, zeroed, then with its value.
abbrev pub make_node : Deque → ℕ → ℕ → Deque
make_node d node value = record d {
  value = assign d.value node value;
  next = assign d.next node null;
  prev = assign d.prev node null;
  live = assign d.live node true;
}

-- `sdeque_new`, beside nodes of other lists.
unfoldable pub new : Deque → Deque
new d = record d { num_nodes = 0; head = null; tail = null }

-- `addr` is what `calloc` returns.
unfoldable pub push_front : ℕ → Deque → ℕ → Deque
push_front addr t value =
    let d = make_node t addr value in
    let linked = record d { next = assign d.next addr d.head } in
    let hung =
      if d.head == null
      then record linked { tail = addr }
      else record linked { prev = assign linked.prev d.head addr } in
    record hung { head = addr; num_nodes = hung.num_nodes + 1 }

unfoldable pub push_back : ℕ → Deque → ℕ → Deque
push_back addr t value =
    let d = make_node t addr value in
    let linked = record d { prev = assign d.prev addr d.tail } in
    let hung =
      if d.tail == null
      then record linked { head = addr }
      else record linked { next = assign linked.next d.tail addr } in
    record hung { tail = addr; num_nodes = hung.num_nodes + 1 }

-- The return is `true` for 0 and `false` for -1.
unfoldable pub pop_front : Deque → Bool × Deque
pop_front t =
    let node = t.head in
    let d = record t { head = t.next node } in
    let cut =
      if d.head == null
      then record d { tail = null }
      else record d { prev = assign d.prev d.head null } in
    if t.head == null
    then (false, t)
    else (true, record cut { live = assign cut.live node false; num_nodes = cut.num_nodes - 1 })

unfoldable pub pop_back : Deque → Bool × Deque
pop_back t =
    let node = t.tail in
    let d = record t { tail = t.prev node } in
    let cut =
      if d.tail == null
      then record d { head = null }
      else record d { next = assign d.next d.tail null } in
    if t.tail == null
    then (false, t)
    else (true, record cut { live = assign cut.live node false; num_nodes = cut.num_nodes - 1 })

-- The value that `*value` is set to, `none` for the return of -1.
unfoldable pub front : Deque → Option ℕ
front d = if d.head == null then none else some (d.value d.head)

unfoldable pub back : Deque → Option ℕ
back d = if d.tail == null then none else some (d.value d.tail)

unfoldable pub size : Deque → ℕ
size d = d.num_nodes

-- `while (node)` of `sdeque_free`, on fuel: what is live afterwards.
unfoldable pub free_loop : ℕ → Deque → ℕ → ℕ → Bool
free_loop zero d node = d.live
free_loop (suc fuel) d node =
    let rest = free_loop fuel (record d { live = assign d.live node false }) (d.next node) in
    if node == null then d.live else rest

-- The loop runs once for each node.
unfoldable pub free : Deque → ℕ → Bool
unfolding free_loop
free d = free_loop (d.num_nodes + 1) d d.head
