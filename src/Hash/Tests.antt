-- ===== src/Hash/Tests.antt =====
-- Runs of the hash table, and its theorems at the tables that these runs make.
use mathlib.Core.Path.{subst}
use simple_kit.Base.{ℕ, ◌*◌, ◌≡◌, ◌⊎◌, inl, refl, Option, none, some, [], ◌∷◌, arith, Ordering}
use simple_kit.Hash.Keys.{Key, memcmp, key_compare, int_key_compare, hash_loop, hash_key}
use simple_kit.Hash.Keys.Order.{lex, int_key_compare-lex, key_compare_trans}
use simple_kit.Hash.Chains.{Node, chain_find, chain_insert, chain_place, chain_unlink, chain_next}
use simple_kit.Hash.Chains.Laws.{lookup}
use simple_kit.Hash.Table.{
  Table, second, new, start_rehash, move_chain, step_rehash, check_rehash, locate, chain_at,
  set_chain,
}
use simple_kit.Hash.Iteration.{
  scan, point_at, begin_iterate, enter_second, next_bucket, iterate, end_iterate,
}
use simple_kit.Hash.Calls.{insert, find_node, find, erase, is_iterator, size}
use simple_kit.Hash.Arrays.{total-nil, total-replicate, empty-IsArray}
use simple_kit.Hash.Invariant.{IsValid, view}
use simple_kit.Hash.Rehash.{Kept, check_rehash-Kept}
use simple_kit.Hash.Visit.{concat, nodes_from, visit}
use simple_kit.Hash.Visit.Complete.{visit-begin_iterate, visit-misses}
use simple_kit.Hash.Refine.{
  allocate, Inserted, Refused, Erased, find_lem, insert_lem, insert-Inserted, erase_lem,
}

program : Unit {0}
unfolding memcmp key_compare hash_loop hash_key chain_find chain_insert chain_place chain_unlink
    chain_next lookup new start_rehash move_chain step_rehash check_rehash locate chain_at set_chain
    scan point_at begin_iterate enter_second next_bucket iterate end_iterate insert find_node find
    erase is_iterator size
program = tt

-- Two buckets, so that the third call starts a rehash.
abbrev small : Table ℕ
small = record {
  num_node = 0;
  num_buckets_0 = 1;
  num_buckets_1 = 0;
  buckets_0 = [] ∷ [] ∷ [];
  buckets_1 = none;
  rehash_bucket = 0;
  iterator_index = 0;
  iterator_bucket = 0;
  iterator = none;
}

abbrev unused : ℕ → Option Key
unused a = none

abbrev node : ℕ → ℕ → Node ℕ
node addr byte = record { addr = addr; key = byte ∷ []; value = 10 * addr }

-- The tables after one, two and three inserts. The third starts a rehash, and bucket 0 moves: the
-- key 4 goes to the lower half of the new array, the keys 2 and 6 to the upper half.
abbrev one : Table ℕ
one = record small { num_node = 1; buckets_0 = [] ∷ (node 1 1 ∷ []) ∷ [] }

abbrev two : Table ℕ
two = record small { num_node = 2; buckets_0 = (node 2 2 ∷ []) ∷ (node 1 1 ∷ []) ∷ [] }

abbrev three : Table ℕ
three = record two {
  num_node = 3;
  num_buckets_1 = 2;
  buckets_0 = [] ∷ (node 1 1 ∷ []) ∷ [];
  buckets_1 = some ((node 3 4 ∷ []) ∷ [] ∷ (node 2 2 ∷ []) ∷ [] ∷ []);
  rehash_bucket = 1;
}

abbrev upper : Table ℕ
upper = record three { buckets_1 = some ([] ∷ [] ∷ (node 2 2 ∷ node 3 6 ∷ []) ∷ [] ∷ []) }

one_is : (insert 1 small (1 ∷ []) 10).1 ≡ one
unfolding program
one_is = refl

two_is : (insert 2 one (2 ∷ []) 20).1 ≡ two
unfolding program
two_is = refl

three_is : (insert 3 two (4 ∷ []) 30).1 ≡ three
unfolding program
three_is = refl

upper_is : (insert 3 two (6 ∷ []) 30).1 ≡ upper
unfolding program
upper_is = refl

three_finds : ((find three (2 ∷ [])).0 ≡ some 20) × ((find three (9 ∷ [])).0 ≡ none)
unfolding program
three_finds = (refl, refl)

small-IsValid : IsValid unused small
small-IsValid = record {
  small = omega arith;
  array = empty-IsArray unused 1;
  counted = omega (arith, total-nil ℕ, total-replicate ℕ 2);
  rehash = λ to e. cc;
}

abbrev owner_one : ℕ → Option Key
owner_one = allocate unused 1 (1 ∷ [])

abbrev owner_two : ℕ → Option Key
owner_two = allocate owner_one 2 (2 ∷ [])

absent :
    (view small (1 ∷ []) ≡ none)
    × (view one (2 ∷ []) ≡ none)
    × (view two (4 ∷ []) ≡ none)
    × (view two (6 ∷ []) ≡ none)
unfolding program
absent = (refl, refl, refl, refl)

one-IsValid : IsValid owner_one one
one-IsValid =
    subst (IsValid owner_one) one_is
      (insert-Inserted unused small 1 (1 ∷ []) 10 small-IsValid refl absent.0).valid

two-IsValid : IsValid owner_two two
two-IsValid =
    subst (IsValid owner_two) two_is
      (insert-Inserted owner_one one 2 (2 ∷ []) 20 one-IsValid refl absent.1).valid

insert_lem_example :
    (((n : Node ℕ) × (view two (4 ∷ []) ≡ some n))
      × Refused owner_two two (insert 3 two (4 ∷ []) 30))
    ⊎ ((view two (4 ∷ []) ≡ none)
        × Inserted owner_two two
            (record { addr = 3; key = 4 ∷ []; value = 30 })
            (insert 3 two (4 ∷ []) 30))
insert_lem_example = insert_lem owner_two two 3 (4 ∷ []) 30 two-IsValid refl

find_lem_example :
    ((find two (2 ∷ [])).0
      ≡ (elim (view two (2 ∷ [])) as (λ _. Option ℕ) [ none ↦ none | some n ↦ some n.value ]))
    × Kept owner_two two (find two (2 ∷ [])).1
find_lem_example = find_lem owner_two two (2 ∷ []) two-IsValid

erase_lem_example :
    ((view two (2 ∷ []) ≡ none) × Refused owner_two two (erase two (2 ∷ [])))
    ⊎ (((n : Node ℕ) × (view two (2 ∷ []) ≡ some n))
        × Erased owner_two two (2 ∷ []) (erase two (2 ∷ [])))
erase_lem_example = erase_lem owner_two two (2 ∷ []) two-IsValid

check_rehash-Kept_example : Kept owner_two two (check_rehash two)
check_rehash-Kept_example = check_rehash-Kept owner_two two two-IsValid

int_key_compare-lex_example :
    int_key_compare (1 ∷ 2 ∷ []) (1 ∷ 3 ∷ []) ≡ some (lex (1 ∷ 2 ∷ []) (1 ∷ 3 ∷ []))
int_key_compare-lex_example = int_key_compare-lex (1 ∷ 2 ∷ []) (1 ∷ 3 ∷ []) (inl (omega arith))

key_compare_trans_example : key_compare (1 ∷ []) (2 ∷ []) ≡ Ordering.lt
unfolding memcmp key_compare
key_compare_trans_example = key_compare_trans (1 ∷ []) (1 ∷ 5 ∷ []) (2 ∷ []) refl refl

-- A full iteration over a table that holds two nodes.
visit-begin_iterate_example : visit 2 (begin_iterate two) ≡ concat two.buckets_0
unfolding program
visit-begin_iterate_example = visit-begin_iterate owner_two 2 two two-IsValid refl (omega arith)

abbrev owner_three : ℕ → Option Key
owner_three = allocate owner_two 3 (4 ∷ [])

abbrev owner_upper : ℕ → Option Key
owner_upper = allocate owner_two 3 (6 ∷ [])

three-IsValid : IsValid owner_three three
three-IsValid =
    subst (IsValid owner_three) three_is
      (insert-Inserted owner_two two 3 (4 ∷ []) 30 two-IsValid refl absent.2).valid

upper-IsValid : IsValid owner_upper upper
upper-IsValid =
    subst (IsValid owner_upper) upper_is
      (insert-Inserted owner_two two 3 (6 ∷ []) 30 two-IsValid refl absent.3).valid

visit-misses_example : visit 3 (begin_iterate upper) ≡ concat upper.buckets_0
unfolding program nodes_from concat
visit-misses_example =
    visit-misses owner_upper 3 upper (second upper) upper-IsValid refl (λ e. cc e) refl
      (omega arith)

-- Two of the three nodes are not seen.
upper_seen : visit 3 (begin_iterate upper) ≡ node 1 1 ∷ []
unfolding program visit nodes_from concat
upper_seen = refl
