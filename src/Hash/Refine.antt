-- ===== src/Hash/Refine.antt =====
-- The public calls of the hash table against a finite map from keys to nodes: `view`.
use simple_kit.Base.{
  ℕ, ◌+◌, ◌-◌, ◌^◌, ◌<◌, ◌≡◌, ◌⊎◌, refl, ap, ◌∙◌, Bool, true, false, Option, none, some, arith,
  ◌==◌, ==_iff, if◌then◌else◌, Bool-cases, inl, inr, Option-cases,
}
use simple_kit.Hash.Keys.{Key}
use simple_kit.Hash.Keys.Order.{same}
use simple_kit.Hash.Chains.{Node, chain_insert, chain_place, chain_unlink}
use simple_kit.Hash.Chains.Laws.{
  chain_find-lookup, chain_insert-place, place-IsSorted, place-Owned, lookup-place, length-place,
  Owned-fresh,
}
use simple_kit.Hash.Chains.Unlink.{lookup-unlink, unlink-IsSorted, unlink-Owned, length-unlink}
use simple_kit.Hash.Table.{
  Table, Buckets, check_rehash, locate, chain_at, set_chain, new, init_num_buckets,
}
use simple_kit.Hash.Iteration.{iterate}
use simple_kit.Hash.Reposition.{reposition, iterate-reposition, reposition-IsValid}
use simple_kit.Hash.Calls.{insert, find_node, find, erase, is_iterator}
use simple_kit.Hash.Arrays.{IsArray, total-nil, total-replicate, empty-IsArray, look-empty}
use simple_kit.Hash.Invariant.{IsValid, view}
use simple_kit.Hash.Rehash.{Kept, check_rehash-Kept}
use simple_kit.Hash.Write.{chain_at-view, chain_at-le, write-Written}

-- The allocator's view after it gave out `addr` for a node with `key`.
abbrev pub allocate : (ℕ → Option Key) → ℕ → Key → ℕ → Option Key
allocate owner addr key a = if a == addr then some key else owner a

module _ {ℓ} {V : Type ℓ} where
  -- For every record of allocated addresses, shash_new gives a valid table of size 0 in which no
  -- key reads a node.
  pub view-new :
      (owner : ℕ → Option Key)
      → let s : Table V = new in IsValid owner s × ((q : Key) → view s q ≡ none) × (s.num_node ≡ 0)
  unfolding new
  view-new owner = (
    record {
      small = omega arith;
      array = empty-IsArray owner init_num_buckets;
      counted = omega (arith, total-nil V, total-replicate V (2 ^ init_num_buckets));
      rehash = λ to e. cc;
    },
    λ q. look-empty init_num_buckets q,
    refl,
  )

  find_node-view :
      (owner : ℕ → Option Key) (s : Table V) (k : Key) → IsValid owner s → find_node s k ≡ view s k
  unfolding find_node
  find_node-view owner s k v =
      let (sorted, owned, reads) = chain_at-view owner s k v in
      chain_find-lookup k (chain_at s (locate s k)) sorted ∙ reads

  -- On a valid table shash_find returns the value of the node that the table holds under the key,
  -- and -1 if there is none; the table stays valid and keeps every key's node, the size and the
  -- iterator, also if the call moved a bucket.
  pub find_lem :
      (owner : ℕ → Option Key) (s : Table V) (k : Key)
      → IsValid owner s
      → ((find s k).0
          ≡ (elim (view s k) as (λ _. Option V) [ none ↦ none | some n ↦ some n.value ]))
        × Kept owner s (find s k).1
  unfolding find
  find_lem owner s k v =
      let t = check_rehash s in
      let kept = check_rehash-Kept owner s v in
      let seen = find_node-view owner t k kept.valid ∙ kept.reads k in
      elim (Option-cases (view s k)) [
        | inl e ↦ rw (e, seen ∙ e, find) (refl, kept)
        | inr (n, e) ↦ rw (e, seen ∙ e, find) (refl, kept)
      ]

  -- What `shash_insert` does with a key that is there, and with one that is not.
  pub record Inserted (owner : ℕ → Option Key) (s : Table V) (n : Node V) (r : Bool × Table V)
      : Type ℓ where
    pub done : r.0 ≡ true
    pub valid : IsValid (allocate owner n.addr n.key) r.1
    pub reads : (q : Key) → view r.1 q ≡ (if same q n.key then some n else view s q)
    pub nodes : r.1.num_node ≡ s.num_node + 1

  abbrev pub Refused : (ℕ → Option Key) → Table V → Bool × Table V → Type ℓ
  Refused owner s r = (r.0 ≡ false) × Kept owner s r.1

  Owned-IsArray :
      (owner : ℕ → Option Key) (addr : ℕ) (key : Key) (bits : ℕ) (bs : Buckets V)
      → owner addr ≡ none
      → IsArray owner bits bs
      → IsArray (allocate owner addr key) bits bs
  Owned-IsArray owner addr key bits bs h a = record {
    width = a.width;
    sorted = a.sorted;
    owned = λ i. Owned-fresh owner addr key _ h (a.owned i);
    placed = a.placed;
  }

  -- An allocation elsewhere keeps the invariant.
  allocate-IsValid :
      (owner : ℕ → Option Key) (addr : ℕ) (key : Key) (s : Table V)
      → owner addr ≡ none
      → IsValid owner s
      → IsValid (allocate owner addr key) s
  allocate-IsValid owner addr key s h v = record {
    small = v.small;
    array = Owned-IsArray owner addr key s.num_buckets_0 s.buckets_0 h v.array;
    counted = v.counted;
    rehash = λ to e.
        let m = v.rehash to e in
        record {
          small = m.small;
          grows = m.grows;
          array = Owned-IsArray owner addr key s.num_buckets_1 to h m.array;
          progress = m.progress;
          emptied = m.emptied;
          waiting = m.waiting;
        };
  }

  -- On a valid table, with an address that is not in use, shash_insert returns -1 exactly when the
  -- table holds the key, and then keeps validity, every key's node, the size and the iterator;
  -- else it returns 0, the table stays valid, reads the new node at the key and every other key as
  -- before, and counts one more.
  pub insert_lem :
      (owner : ℕ → Option Key) (s : Table V) (addr : ℕ) (k : Key) (x : V)
      → IsValid owner s
      → owner addr ≡ none
      → (((n : Node V) × (view s k ≡ some n)) × Refused owner s (insert addr s k x))
        ⊎ ((view s k ≡ none)
            × Inserted owner s (record { addr = addr; key = k; value = x }) (insert addr s k x))
  unfolding insert
  insert_lem owner s addr k x v fresh =
      let t = check_rehash s in
      let kept = check_rehash-Kept owner s v in
      let new_owner = allocate owner addr k in
      let valid = allocate-IsValid owner addr k t fresh kept.valid in
      let node : Node V = record { addr = addr; key = k; value = x } in
      let p = locate t k in
      let c = chain_at t p in
      let (sorted, owned, reads) = chain_at-view new_owner t k valid in
      let seen = reads ∙ kept.reads k in
      let tried = chain_insert-place node c sorted in
      elim (Option-cases (view s k)) [
        | inr (n, e) ↦
            let no : chain_insert node c ≡ none = tried ∙ rw (seen ∙ e) in
            inl ((n, e), rw (no, insert) (refl, kept))
        | inl e ↦
            let go : chain_insert node c ≡ some (chain_place node c) = tried ∙ rw (seen ∙ e) in
            let w =
              write-Written new_owner t k (chain_place node c) (some node) valid
                (place-IsSorted node c (seen ∙ e) sorted)
                (place-Owned new_owner node c (rw ((==_iff addr addr).1 refl)) owned)
                (λ q. lookup-place q node c) in
            inr (
              e,
              rw (go, insert)
                  (record {
                    done = refl;
                    valid = w.valid (t.num_node + 1) (omega (arith, length-place node c));
                    reads =
                        λ q. w.reads q ∙ ap (λ y. if same q k then some node else y) (kept.reads q);
                    nodes = ap (λ m. m + 1) kept.nodes;
                  }),
            )
      ]

  pub insert-Inserted :
      (owner : ℕ → Option Key) (s : Table V) (addr : ℕ) (k : Key) (x : V)
      → IsValid owner s
      → owner addr ≡ none
      → view s k ≡ none
      → Inserted owner s (record { addr = addr; key = k; value = x }) (insert addr s k x)
  insert-Inserted owner s addr k x v fresh e = elim (insert_lem owner s addr k x v fresh) [
    | inl ((n, held), _) ↦ cc
    | inr (_, r) ↦ r
  ]

  -- The table after the step of the iterator that `shash_erase` may make.
  abbrev stepped : Table V → Node V → Table V
  stepped t n = if is_iterator t n then (iterate t).1 else t

  -- What `shash_erase` does with a key that is there.
  pub record Erased (owner : ℕ → Option Key) (s : Table V) (k : Key) (r : Bool × Table V)
      : Type ℓ where
    pub done : r.0 ≡ true
    pub valid : IsValid owner r.1
    pub reads : (q : Key) → view r.1 q ≡ (if same q k then none else view s q)
    pub nodes : r.1.num_node + 1 ≡ s.num_node

  -- The unlinking, in a table that holds the node.
  unlink-Erased :
      (owner : ℕ → Option Key) (s u : Table V) (k : Key) (n : Node V)
      → IsValid owner u
      → ((q : Key) → view u q ≡ view s q)
      → u.num_node ≡ s.num_node
      → view s k ≡ some n
      → Erased owner s k (
        true,
        record (set_chain u (locate u k) (chain_unlink n.addr (chain_at u (locate u k)))) {
          num_node = u.num_node - 1;
        },
      )
  unlink-Erased owner s u k n v same_view same_nodes found =
      let c = chain_at u (locate u k) in
      let (sorted, owned, reads) = chain_at-view owner u k v in
      let here = reads ∙ same_view k ∙ found in
      let shorter = length-unlink owner k c owned here in
      let w =
        write-Written owner u k (chain_unlink n.addr c) none v (unlink-IsSorted n.addr c sorted)
          (unlink-Owned owner n.addr c owned) (λ q. lookup-unlink owner q k c owned sorted here) in
      let held : 0 < u.num_node = omega (arith, shorter, chain_at-le owner u k v) in
      record {
        done = refl;
        valid = w.valid (u.num_node - 1) (omega (arith, shorter, held));
        reads = λ q. w.reads q ∙ ap (λ y. if same q k then none else y) (same_view q);
        nodes = omega (arith, same_nodes, held);
      }

  -- On a valid table shash_erase returns -1 exactly when the table holds no such key, and then
  -- keeps validity, every key's node, the size and the iterator; else it returns 0, the table
  -- stays valid, the key is gone, every other key reads as before and the size is one less, also
  -- when the iterator stood on the node.
  pub erase_lem :
      (owner : ℕ → Option Key) (s : Table V) (k : Key)
      → IsValid owner s
      → ((view s k ≡ none) × Refused owner s (erase s k))
        ⊎ (((n : Node V) × (view s k ≡ some n)) × Erased owner s k (erase s k))
  unfolding erase
  erase_lem owner s k v =
      let t = check_rehash s in
      let kept = check_rehash-Kept owner s v in
      let seen = find_node-view owner t k kept.valid ∙ kept.reads k in
      elim (Option-cases (view s k)) [
        | inl e ↦ inl (e, rw (seen ∙ e, erase) (refl, kept))
        | inr (n, e) ↦ inr (
          (n, e),
          rw (seen ∙ e, erase)
              (elim (Bool-cases (is_iterator t n)) [
                | inr idle ↦
                    rw idle (unlink-Erased owner s t k n kept.valid kept.reads kept.nodes e)
                | inl busy ↦
                    rw (busy, iterate-reposition t)
                      (unlink-Erased owner s (reposition t (iterate t).1) k n
                        (reposition-IsValid owner t (iterate t).1 kept.valid) kept.reads kept.nodes
                        e)
              ]),
        )
      ]
