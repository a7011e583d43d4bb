-- ===== src/Hash/Reposition.antt =====
-- The iterator's steps change the iterator alone.
use simple_kit.Base.{
  ℕ, ◌+◌, ◌-◌, ◌^◌, ◌≡◌, refl, Bool, true, false, Option, none, some, [], ap, ◌==◌, if◌then◌else◌,
  get_or, is_none,
}
use simple_kit.Hash.Keys.{Key}
use simple_kit.Hash.Chains.{Node, chain_next}
use simple_kit.Hash.Table.{Table, Buckets, second}
use simple_kit.Hash.Iteration.{scan, point_at, enter_second, next_bucket, iterate, begin_iterate}
use simple_kit.Hash.Invariant.{IsValid}

module _ {ℓ} {V : Type ℓ} where
  -- `s` with the iterator of `u`.
  abbrev pub reposition : Table V → Table V → Table V
  reposition s u = record s {
    iterator_index = u.iterator_index;
    iterator_bucket = u.iterator_bucket;
    iterator = u.iterator;
  }

  -- `u` differs from `s` in the iterator alone.
  abbrev Stays : Table V → Table V → Type ℓ
  Stays s u = u ≡ reposition s u

  Stays-elim {κ} :
      {X : Type κ} (s : Table V) (o : Option X) (a : Table V) (f : X → Table V)
      → Stays s a
      → ((x : X) → Stays s (f x))
      → Stays s (elim o [ none ↦ a | some x ↦ f x ])
  Stays-elim s none a f h k = h
  Stays-elim s (some x) a f h k = k x

  Stays-if :
      (s : Table V) (b : Bool) (x y : Table V)
      → Stays s x
      → Stays s y
      → Stays s (if b then x else y)
  Stays-if s true x y h k = h
  Stays-if s false x y h k = k

  point_at-Stays :
      (s u : Table V) (i : ℕ) (found : ℕ × Node V) → Stays s u → Stays s (point_at u i found)
  unfolding point_at
  point_at-Stays s u i found h = ap (λ t. point_at t i found) h

  enter_second-Stays : (s u : Table V) (n : ℕ) → Stays s u → Stays s (enter_second n u)
  unfolding enter_second
  enter_second-Stays s u n h = Stays-elim s u.buckets_1 u _ h λ to.
      Stays-elim s (scan to (n - u.iterator_bucket) u.iterator_bucket) u _ h
        λ found. point_at-Stays s u 1 found h

  next_bucket-Stays : (s : Table V) → Stays s (next_bucket s)
  unfolding next_bucket
  next_bucket-Stays s =
      let t = record s { iterator = none; iterator_bucket = s.iterator_bucket + 1 } in
      let n = if s.iterator_index == 0 then 2 ^ s.num_buckets_0 else 2 ^ s.num_buckets_1 in
      Stays-if s (s.iterator_index == 0) _ _
        (Stays-elim s (scan s.buckets_0 (n - t.iterator_bucket) t.iterator_bucket) _ _
          (enter_second-Stays s (record t { iterator_bucket = 0 }) n refl)
          (λ found. point_at-Stays s t 0 found refl))
        (enter_second-Stays s t n refl)

  pub iterate-reposition : (s : Table V) → (iterate s).1 ≡ reposition s (iterate s).1
  unfolding iterate
  iterate-reposition s = go s.iterator
    where
      here : Buckets V
      here = if s.iterator_index == 0 then s.buckets_0 else second s

      go :
          (o : Option (Node V))
          → let r : Option (Node V) × Table V = elim o [
            | none ↦ (none, s)
            | some n ↦ (
              some n,
              elim (chain_next n.addr (get_or here s.iterator_bucket [])) [
                | some m ↦ record s { iterator = some m }
                | none ↦ next_bucket s
              ],
            )
          ] in
            Stays s r.1
      go none = refl
      go (some n) =
          Stays-elim s (chain_next n.addr (get_or here s.iterator_bucket [])) _ _
            (next_bucket-Stays s) (λ m. refl)

  pub begin_iterate-reposition : (s : Table V) → begin_iterate s ≡ reposition s (begin_iterate s)
  unfolding begin_iterate
  begin_iterate-reposition s =
      Stays-elim s (scan s.buckets_0 (2 ^ s.num_buckets_0) 0) _ _
        (Stays-elim s (scan (second s) (if is_none s.buckets_1 then 0 else 2 ^ s.num_buckets_1) 0) _
          _ refl (λ found. point_at-Stays s s 1 found refl))
        (λ found. point_at-Stays s s 0 found refl)

  pub reposition-IsValid :
      (owner : ℕ → Option Key) (s u : Table V) → IsValid owner s → IsValid owner (reposition s u)
  reposition-IsValid owner s u v = record {
    small = v.small;
    array = v.array;
    counted = v.counted;
    rehash = λ to e.
        let m = v.rehash to e in
        record {
          small = m.small;
          grows = m.grows;
          array = m.array;
          progress = m.progress;
          emptied = m.emptied;
          waiting = m.waiting;
        };
  }
