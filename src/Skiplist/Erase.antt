-- ===== src/Skiplist/Erase.antt =====
-- simple_skiplist/slist.c: `_slist_erase_node` and what calls it, the two ends, and the iterators.
pub mod Cut
mod Levels
pub mod Valid
pub mod Refine
use simple_kit.Base.{
  ℕ, zero, suc, ◌+◌, ◌-◌, ◌==◌, Bool, true, false, Option, none, some, if◌then◌else◌,
}
use simple_kit.Base.Words.{add64, sub64}
use simple_kit.Hash.Keys.{Key}
use simple_kit.Skiplist.{Level, Skiplist, null, assign, set_level, advance, find_node}

-- One level without `node`; `cur` is the last node before it there.
unfoldable pub cut : Level → ℕ → ℕ → Level
cut level cur node =
    let before = level.prev node in
    let after = level.next node in
    if level.next cur == node
    then record {
      next = assign level.next before after;
      prev = if after == null then level.prev else assign level.prev after before;
      span = assign level.span before (add64 (level.span before) (sub64 (level.span node) 1));
    }
    else record level { span = assign level.span cur (sub64 (level.span cur) 1) }

-- The loop of `_slist_erase_node` over the levels below `h`.
unfoldable pub erase_loop : Skiplist → ℕ → ℕ → ℕ → (ℕ → Level) → ℕ → Level
unfolding advance cut
erase_loop s node zero cur levels = levels
erase_loop s node (suc l) cur levels =
    let c = (advance (s.num_nodes + 1) s.key (levels l) (s.key node) cur 0).0 in
    erase_loop s node l c (set_level levels l (cut (levels l) c node))

-- `cur_height` without the empty levels above the first.
unfoldable pub lower : (ℕ → Level) → ℕ → ℕ → ℕ
lower levels head zero = zero
lower levels head (suc zero) = suc zero
lower levels head (suc (suc l)) =
    let rest = lower levels head (suc l) in
    if (levels (suc l)).next head == null then rest else suc (suc l)

unfoldable pub erase_node : Skiplist → ℕ → Skiplist
unfolding erase_loop lower
erase_node s node =
    let levels = erase_loop s node s.cur_height s.head s.levels in
    let before = (levels 0).prev node in
    let after = (levels 0).next node in
    record s {
      levels = levels;
      tail = if node == s.tail then (if s.head == before then null else before) else s.tail;
      cur_height = lower levels s.head s.cur_height;
      iterator = if node == s.iterator then after else s.iterator;
      riterator =
          if node == s.riterator then (if before == s.head then null else before) else s.riterator;
      live = assign s.live node false;
      num_nodes = s.num_nodes - 1;
    }

-- `false` is the return of -1.
unfoldable pub erase : Skiplist → Key → Bool × Skiplist
unfolding erase_node find_node
erase s key = elim (find_node s key) [ none ↦ (false, s) | some node ↦ (true, erase_node s node) ]

unfoldable pub pop_front : Skiplist → Bool × Skiplist
unfolding erase_node
pop_front s =
    let node = (s.levels 0).next s.head in
    if node == null then (false, s) else (true, erase_node s node)

unfoldable pub pop_back : Skiplist → Bool × Skiplist
unfolding erase_node
pop_back s = if s.tail == null then (false, s) else (true, erase_node s s.tail)

-- The key and the value at a node; `none` at NULL.
abbrev pub entry : Skiplist → ℕ → Option (Key × ℕ)
entry s node = if node == null then none else some (s.key node, s.value node)

unfoldable pub front : Skiplist → Option (Key × ℕ)
front s = entry s ((s.levels 0).next s.head)

unfoldable pub back : Skiplist → Option (Key × ℕ)
back s = entry s s.tail

abbrev pub begin_iterate : Skiplist → Skiplist
begin_iterate s = record s { iterator = (s.levels 0).next s.head }

unfoldable pub iterate : Skiplist → Option (Key × ℕ) × Skiplist
iterate s =
    if s.iterator == null
    then (none, s)
    else (entry s s.iterator, record s { iterator = (s.levels 0).next s.iterator })

abbrev pub end_iterate : Skiplist → Skiplist
end_iterate s = record s { iterator = null }

abbrev pub begin_riterate : Skiplist → Skiplist
begin_riterate s = record s { riterator = s.tail }

unfoldable pub riterate : Skiplist → Option (Key × ℕ) × Skiplist
riterate s =
    let before = (s.levels 0).prev s.riterator in
    if s.riterator == null
    then (none, s)
    else (entry s s.riterator, record s { riterator = if before == s.head then null else before })

abbrev pub end_riterate : Skiplist → Skiplist
end_riterate s = record s { riterator = null }
