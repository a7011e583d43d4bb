-- ===== src/Timer/Tests.antt =====
-- Runs of the heap of timers, and its theorems at the heaps that these runs make.
use simple_kit.Base.{ℕ, ◌*◌, ◌-◌, ◌≡◌, ◌⊎◌, refl, none, some, arith}
use simple_kit.Timer.{
  Manager, new, update, upheap_loop, upheap, min_index, downheap_loop, downheap, adjust_heap,
  insert, remove, modify, pop, top,
}
use simple_kit.Timer.Order.{IsValid}
use simple_kit.Timer.Adjust.{Removed}
use simple_kit.Timer.Calls.{
  Inserted, insert-Inserted, remove-Removed, Moved, modify-Moved, Popped, pop_lem, new-IsValid,
}

program : Unit {0}
unfolding new upheap_loop upheap min_index downheap_loop downheap adjust_heap insert remove modify
    pop top
program = tt

-- Three timers, put in with falling times: the timer at address `a` expires at `100 - 10 * a`.
abbrev times : ℕ → ℕ
times a = 100 - 10 * a

abbrev zeros : ℕ → ℕ
zeros a = 0

abbrev empty : Manager
empty = new zeros times

abbrev one : Manager
one = insert empty 1

abbrev two : Manager
two = insert one 2

abbrev three : Manager
three = insert two 3

top-two : top two ≡ some 2
unfolding program
top-two = refl

top-pop : top (pop three).1 ≡ some 2
unfolding program
top-pop = refl

one-IsValid : IsValid one
unfolding program
one-IsValid = (insert-Inserted empty 1 (new-IsValid zeros times).0 (omega arith) refl).valid

two-IsValid : IsValid two
unfolding program
two-IsValid = (insert-Inserted one 2 one-IsValid (omega arith) refl).valid

three-IsValid : IsValid three
unfolding program
three-IsValid = (insert-Inserted two 3 two-IsValid (omega arith) refl).valid

insert-Inserted_example : Inserted two 3 (insert two 3)
unfolding program
insert-Inserted_example = insert-Inserted two 3 two-IsValid (omega arith) refl

remove-Removed_example : Removed three 2 (remove three 2)
unfolding program
remove-Removed_example = remove-Removed three 2 three-IsValid refl

modify-Moved_example :
    Moved three 3 95 (modify (record three { expire = update three.expire 3 95 }) 3)
unfolding program
modify-Moved_example = modify-Moved three 3 95 three-IsValid refl

pop_lem_example :
    ((three.heap_length ≡ 0) × (pop three ≡ (none, three)) × (top three ≡ none))
    ⊎ ((t : ℕ) × Popped three t (pop three))
pop_lem_example = pop_lem three three-IsValid
