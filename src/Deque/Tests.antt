-- ===== src/Deque/Tests.antt =====
-- Runs of the deque, and its theorems at the deques that these runs make.
use simple_kit.Base.{◌≡◌, refl, true, false, List, [], ◌∷◌, some}
use simple_kit.Deque.{
  Deque, new, push_front, push_back, pop_front, pop_back, front, back, free_loop, free,
}
use simple_kit.Deque.Seg.{Holds}
use simple_kit.Deque.Ends.{push_front-Holds, push_back-Holds}
use simple_kit.Deque.Refine.{
  Op, add_front, add_back, take_front, take_back, see_front, see_back, nothing, status, seen, step,
  run, list_run, AllFresh, Stores, run-Stores, new-Holds,
}

program : Unit {0}
unfolding new push_front push_back pop_front pop_back front back free_loop free step run
program = tt

-- No node is live.
abbrev blank : Deque
blank = record {
  num_nodes = 9;
  head = 9;
  tail = 9;
  value = λ a. 0;
  next = λ a. 0;
  prev = λ a. 0;
  live = λ a. false;
}

abbrev calls : List Op
calls =
    take_back
    ∷ add_back 4 40
    ∷ add_front 5 50
    ∷ add_back 6 60
    ∷ see_back
    ∷ take_back
    ∷ take_front
    ∷ see_front
    ∷ []

calls_fresh : AllFresh calls (new blank)
unfolding program
calls_fresh =
    (tt, (((λ e. cc), refl), (((λ e. cc), refl), (((λ e. cc), refl), (tt, (tt, (tt, (tt, tt))))))))

calls_return :
    (run calls (new blank)).0
    ≡ status false
      ∷ nothing
      ∷ nothing
      ∷ nothing
      ∷ seen (some 60)
      ∷ status true
      ∷ status true
      ∷ seen (some 40)
      ∷ []
unfolding program
calls_return = refl

run-Stores_example :
    ((run calls (new blank)).0 ≡ (list_run calls []).0)
    × Stores (run calls (new blank)).1 (list_run calls []).1
run-Stores_example =
    run-Stores calls (new blank) [] (record { cells = []; holds = new-Holds blank; same = refl })
      calls_fresh

-- Two nodes, 5 before 4.
abbrev one : Deque
one = push_back 4 (new blank) 40

abbrev two : Deque
two = push_front 5 one 50

one-Holds : Holds one ((4, 40) ∷ [])
unfolding program
one-Holds = push_back-Holds 4 40 (λ e. cc) refl (new-Holds blank)

two-Holds : Holds two ((5, 50) ∷ (4, 40) ∷ [])
unfolding program
two-Holds = push_front-Holds 5 50 (λ e. cc) refl one-Holds
