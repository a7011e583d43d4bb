-- ===== src/Skiplist.antt =====
-- simple_skiplist/slist.c and slist.h: the sorted list with several levels of pointers.
-- Nodes stand at addresses, and `null` is address 0. `levels l` holds `levels[l]` of every node:
-- its next, its prev and its span. `_slist_key_compare` is the
-- `key_compare` of Hash/Keys. `level_node` and `level_rank`, which only
-- an insertion uses, are a value of its own; `slist_new` allocates `level_rank` for one level less
-- than `max_height`, and an insertion that writes behind it is `none`.
pub mod Run
pub mod Around
pub mod Search
pub mod Stand
pub mod Invariant
pub mod Find
pub mod Spec
pub mod Refine
pub mod Order
pub mod Levels
pub mod Ends
pub mod Iterate
pub mod Free
mod Tests
pub mod Insert
pub mod Link
pub mod Erase
use simple_kit.Base.{
  ℕ, zero, suc, ◌+◌, ◌-◌, ◌%◌, ◌==◌, Bool, true, false, ◌&&◌, not, Option, none, some, [], Ordering,
  if◌then◌else◌, ltb, leb,
}
use simple_kit.Base.Words.{add64, sub64}
use simple_kit.Hash.Keys.{Key, key_compare}
use simple_kit.Hash.Keys.Order.{same}

abbrev pub null : ℕ
null = 0

pub record Level : Type 0 where
  pub next : ℕ → ℕ
  pub prev : ℕ → ℕ
  pub span : ℕ → ℕ

pub record Skiplist : Type 0 where
  pub max_height : ℕ
  pub cur_height : ℕ
  pub num_nodes : ℕ
  pub seed : ℕ
  pub iterator : ℕ
  pub riterator : ℕ
  pub head : ℕ
  pub tail : ℕ
  pub key : ℕ → Key
  pub value : ℕ → ℕ
  pub height : ℕ → ℕ
  pub levels : ℕ → Level
  pub live : ℕ → Bool

-- `p->f = v`.
abbrev pub assign {ℓ} : {A : Type ℓ} → (ℕ → A) → ℕ → A → ℕ → A
assign f p v q = if p == q then v else f q

abbrev pub set_level : (ℕ → Level) → ℕ → Level → ℕ → Level
set_level levels l level k = if l == k then level else levels k

-- `_slist_new_node`: `calloc` gives zeroed levels.
abbrev pub zeroed : Level → ℕ → Level
zeroed level node = record {
  next = assign level.next node null;
  prev = assign level.prev node null;
  span = assign level.span node 0;
}

abbrev pub new_node : Skiplist → ℕ → Key → ℕ → ℕ → Skiplist
new_node s node key height value = record s {
  key = assign s.key node key;
  value = assign s.value node value;
  height = assign s.height node height;
  levels = λ l. zeroed (s.levels l) node;
  live = assign s.live node true;
}

-- `slist_new`, with the head at `addr` and `time` as the seed.
unfoldable pub new : ℕ → ℕ → ℕ → Skiplist
new addr time height = record {
  max_height = height + 1;
  cur_height = 1;
  num_nodes = 0;
  seed = time;
  iterator = null;
  riterator = null;
  head = addr;
  tail = null;
  key = λ p. [];
  value = λ p. 0;
  height = assign (λ p. 0) addr (height + 1);
  levels = λ l. record { next = λ p. null; prev = λ p. null; span = λ p. 0 };
  live = assign (λ p. false) addr true;
}

-- The `while` loop of `slist_insert` and `_slist_erase_node` on one level: the node, its rank.
unfoldable pub advance : ℕ → (ℕ → Key) → Level → Key → ℕ → ℕ → ℕ × ℕ
advance zero keys level key node rank = (node, rank)
advance (suc fuel) keys level key node rank =
    let next = level.next node in
    let rest = advance fuel keys level key next (add64 rank (level.span node)) in
    if next == null
    then (node, rank)
    else (elim (key_compare key (keys next)) [ Ordering.gt ↦ rest | _ ↦ (node, rank) ])

-- Where a walk of `_slist_find_node` and `slist_rank` ends: at the key, or before a larger one.
pub data Walk : Type 0 where
  found passed : ℕ → ℕ → Walk

-- Their `while` loop on one level.
unfoldable pub seek_level : ℕ → (ℕ → Key) → Level → Key → ℕ → ℕ → Walk
seek_level zero keys level key node rank = passed node rank
seek_level (suc fuel) keys level key node rank =
    let next = level.next node in
    let further = add64 rank (level.span node) in
    let rest = seek_level fuel keys level key next further in
    if next == null then passed node rank else (elim (key_compare key (keys next)) [
      | Ordering.lt ↦ passed node rank
      | Ordering.eq ↦ found next further
      | Ordering.gt ↦ rest
    ])

-- Their loop over the levels below `h`.
unfoldable pub seek : Skiplist → Key → ℕ → ℕ → ℕ → Walk
unfolding seek_level
seek s key zero node rank = passed node rank
seek s key (suc l) node rank =
    elim (seek_level (s.num_nodes + 1) s.key (s.levels l) key node rank) [
      | found a r ↦ found a r
      | passed a r ↦ seek s key l a r
    ]

unfoldable pub find_node : Skiplist → Key → Option ℕ
unfolding seek
find_node s key = elim (seek s key s.cur_height s.head 0) [ found a r ↦ some a | passed a r ↦ none ]

-- `none` is the return of -1, here and below.
unfoldable pub rank : Skiplist → Key → Option ℕ
unfolding seek
rank s key = elim (seek s key s.cur_height s.head 0) [ found a r ↦ some r | passed a r ↦ none ]

unfoldable pub find : Skiplist → Key → Option ℕ
unfolding find_node
find s key = elim (find_node s key) [ none ↦ none | some a ↦ some (s.value a) ]

abbrev pub size : Skiplist → ℕ
size s = s.num_nodes

-- The loop of `slist_free`: which addresses are still allocated.
unfoldable pub free_loop : ℕ → Level → ℕ → (ℕ → Bool) → ℕ → Bool
free_loop zero level node live = live
free_loop (suc fuel) level node live =
    let next = level.next node in
    let rest = free_loop fuel level next (assign live node false) in
    if node == null then live else rest

unfoldable pub free : Skiplist → ℕ → Bool
unfolding free_loop
free s = free_loop (s.num_nodes + 2) (s.levels 0) s.head s.live

-- `level_node` and `level_rank`.
pub record Trail : Type 0 where
  pub node : ℕ → ℕ
  pub rank : ℕ → ℕ

-- The loop of `slist_insert` over the levels below `h`.
unfoldable pub descend : Skiplist → Key → ℕ → ℕ → ℕ → Trail → Trail
unfolding advance
descend s key zero node rank trail = trail
descend s key (suc l) node rank trail =
    let (a, r) = advance (s.num_nodes + 1) s.key (s.levels l) key node rank in
    descend s key l a r (record {
      node = λ k. if l == k then a else trail.node k;
      rank = λ k. if l == k then r else trail.rank k;
    })

-- The levels from `cur_height` up to `height` begin at the head.
abbrev pub raise : Skiplist → ℕ → Trail → Trail
raise s height trail = record {
  node = λ l. if leb s.cur_height l && ltb l height then s.head else trail.node l;
  rank = λ l. if leb s.cur_height l && ltb l height then 0 else trail.rank l;
}

-- The new node behind `a` on one level; `gap` is `level_rank[0] - level_rank[l] + 1`.
unfoldable pub link : Level → ℕ → ℕ → ℕ → Level
link level a gap new =
    let next = level.next a in
    record {
      next = assign (assign level.next new next) a new;
      prev =
          if next == null
          then assign level.prev new a
          else assign (assign level.prev new a) next new;
      span = assign (assign level.span new (add64 (sub64 (level.span a) gap) 1)) a gap;
    }

unfoldable pub widen : Level → ℕ → Level
widen level a = record level { span = assign level.span a (add64 (level.span a) 1) }

-- One round for each level below `h`, from the highest down.
unfoldable pub each : (ℕ → Level → Level) → ℕ → (ℕ → Level) → ℕ → Level
each f zero levels = levels
each f (suc l) levels = each f l (set_level levels l (f l (levels l)))

module _ (rand_r : ℕ → ℕ × ℕ) where
  -- `rand_r` gives a number and the next seed.
  abbrev pub random : ℕ → Bool × ℕ
  random seed = let (n, later) = rand_r seed in (ltb 32767 (n % 65536), later)

  -- The loop of `_slist_choose_height`, with as many rounds as there are levels.
  unfoldable pub choose_loop : ℕ → ℕ → ℕ → ℕ → ℕ × ℕ
  choose_loop zero max_height height seed = (height, seed)
  choose_loop (suc n) max_height height seed =
      let (up, later) = random seed in
      let rest = choose_loop n max_height (height + 1) later in
      if ltb height max_height then if up then rest else (height, later) else (height, seed)

  unfoldable pub choose_height : Skiplist → ℕ × ℕ
  unfolding choose_loop
  choose_height s = choose_loop s.max_height s.max_height 1 s.seed

  -- `addr` is what `calloc` returns; `false` is the return of -1. The search writes `level_rank` up
  -- to `cur_height`, what follows it up to the height that is chosen.
  unfoldable pub insert : ℕ → Skiplist → Key → ℕ → Option (Bool × Skiplist)
  unfolding descend choose_height link widen each
  insert addr s key value =
      let trail =
        descend s key s.cur_height s.head 0 (record { node = λ l. null; rank = λ l. 0 }) in
      let after = (s.levels 0).next (trail.node 0) in
      let (height, seed) = choose_height s in
      let raised = raise s height trail in
      let t = new_node (record s { seed = seed }) addr key height value in
      let linked =
        each
          (λ l level.
            link level (raised.node l) (add64 (sub64 (raised.rank 0) (raised.rank l)) 1) addr)
          height t.levels in
      let widened =
        each (λ l level. if leb height l then widen level (raised.node l) else level) s.cur_height
          linked in
      if not (ltb s.cur_height s.max_height)
      then none
      else if not (after == null) && same key (s.key after)
      then some (false, s)
      else if not (ltb height s.max_height)
      then none
      else some (
        true,
        record t {
          levels = if leb s.cur_height height then linked else widened;
          cur_height = if leb s.cur_height height then height else s.cur_height;
          tail = if (linked 0).next addr == null then addr else s.tail;
          num_nodes = s.num_nodes + 1;
        },
      )
