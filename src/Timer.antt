-- ===== src/Timer.antt =====
-- simple_io/sio_timer.c and sio_timer.h: the binary heap of timers, and the intrusive index that
-- every timer keeps of its place in the heap array.
-- A timer is an object that its user owns, so the model keeps the fields of all timers by address;
-- `heap_nodes` holds addresses at the places 1 to `heap_length`. The loops are on fuel.
pub mod Order
pub mod Trade
pub mod Up
pub mod Down
pub mod Adjust
pub mod Calls
pub mod Tests
use simple_kit.Base.{
  ℕ, zero, suc, ◌+◌, ◌-◌, ◌/◌, ◌==◌, Bool, Option, none, some, ◌&&◌, ltb, leb, if◌then◌else◌, not,
}
use simple_kit.Base.Words.{add64, sub64, mul64}

pub record Manager : Type 0 where
  pub heap_size : ℕ
  pub heap_length : ℕ
  pub heap_nodes : ℕ → ℕ
  pub index : ℕ → ℕ
  pub expire : ℕ → ℕ

-- `f[i] = v`, and `p->f = v`.
abbrev pub update : (ℕ → ℕ) → ℕ → ℕ → ℕ → ℕ
update f i v j = if i == j then v else f j

-- `calloc` zeroes the manager; timers and their fields are the user's.
unfoldable pub new : (ℕ → ℕ) → (ℕ → ℕ) → Manager
new index expire = record {
  heap_size = 0;
  heap_length = 0;
  heap_nodes = λ i. 0;
  index = index;
  expire = expire;
}

-- `heap_nodes[timer->index] = timer`, the last line of both loops.
abbrev pub plug : Manager → ℕ → Manager
plug m t = record m { heap_nodes = update m.heap_nodes (m.index t) t }

-- The node at `from` moves to the place of the timer, and the timer to `from`.
abbrev pub trade : Manager → ℕ → ℕ → Manager
trade m t from =
    let other = m.heap_nodes from in
    let index = update m.index other (m.index t) in
    record m { heap_nodes = update m.heap_nodes (index t) other; index = update index t from }

unfoldable pub upheap_loop : ℕ → Manager → ℕ → Manager
upheap_loop zero m t = m
upheap_loop (suc fuel) m t =
    let parent = m.index t / 2 in
    let rest = upheap_loop fuel (trade m t parent) t in
    if parent == 0 then m else if ltb (m.expire t) (m.expire (m.heap_nodes parent)) then rest else m

unfoldable pub upheap : Manager → ℕ → Manager
unfolding upheap_loop
upheap m t = plug (upheap_loop (m.index t) m t) t

-- `min_index` behind the two tests of a round of `_sio_timer_downheap`.
unfoldable pub min_index : Manager → ℕ → ℕ
min_index m t =
    let left = mul64 (m.index t) 2 in
    let right = add64 (mul64 (m.index t) 2) 1 in
    let smaller = leb left m.heap_length && ltb (m.expire (m.heap_nodes left)) (m.expire t) in
    let index = if smaller then left else m.index t in
    let min_expire = if smaller then m.expire (m.heap_nodes left) else m.expire t in
    if leb right m.heap_length && ltb (m.expire (m.heap_nodes right)) min_expire
    then right
    else index

unfoldable pub downheap_loop : ℕ → Manager → ℕ → Manager
unfolding min_index
downheap_loop zero m t = m
downheap_loop (suc fuel) m t =
    let rest = downheap_loop fuel (trade m t (min_index m t)) t in
    if min_index m t == m.index t then m else rest

unfoldable pub downheap : Manager → ℕ → Manager
unfolding downheap_loop
downheap m t = plug (downheap_loop m.heap_length m t) t

unfoldable pub adjust_heap : Manager → ℕ → Manager
unfolding upheap downheap
adjust_heap m t =
    let parent = m.index t / 2 in
    if not (parent == 0) && ltb (m.expire t) (m.expire (m.heap_nodes parent))
    then upheap m t
    else downheap m t

-- `realloc` keeps the entries of the array.
unfoldable pub insert : Manager → ℕ → Manager
unfolding adjust_heap
insert m t =
    let size = if leb m.heap_size m.heap_length then add64 m.heap_size 1 else m.heap_size in
    let length = add64 m.heap_length 1 in
    adjust_heap
      (record m { heap_size = size; heap_length = length; index = update m.index t length }) t

-- `heap_nodes[at] = heap_nodes[heap_length--]`, the index of the moved node, and the adjustment.
abbrev pub refill : Manager → ℕ → Manager
refill m at =
    let last = m.heap_nodes m.heap_length in
    adjust_heap
      (record m {
        heap_length = sub64 m.heap_length 1;
        heap_nodes = update m.heap_nodes at last;
        index = update m.index last at;
      })
      last

unfoldable pub remove : Manager → ℕ → Manager
unfolding adjust_heap
remove m t =
    if m.index t == m.heap_length
    then record m { heap_length = sub64 m.heap_length 1 }
    else refill m (m.index t)

unfoldable pub modify : Manager → ℕ → Manager
unfolding adjust_heap
modify m t = adjust_heap m t

-- `none` is the return of NULL.
unfoldable pub pop : Manager → Option ℕ × Manager
unfolding adjust_heap
pop m = if m.heap_length == 0 then (none, m) else (
  some (m.heap_nodes 1),
  if m.heap_length == 1 then record m { heap_length = 0 } else refill m 1,
)

unfoldable pub top : Manager → Option ℕ
top m = if m.heap_length == 0 then none else some (m.heap_nodes 1)

unfoldable pub size : Manager → ℕ
size m = m.heap_length
