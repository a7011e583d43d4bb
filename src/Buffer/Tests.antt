-- ===== src/Buffer/Tests.antt =====
-- The buffer's theorems at concrete buffers.
use simple_kit.Base.{◌≤◌, ◌<◌, ◌≡◌, ◌⊎◌, List, [], ◌∷◌, ◌++◌, arith}
use simple_kit.Base.Memory.{Memory, read}
use simple_kit.Buffer.{
  Buffer, new, reserve, seek, erase, live_length, space, init_capacity, shrink_capacity,
}
use simple_kit.Buffer.Laws.{
  IsValid, contents, Reserved, reserve-Reserved, contents-seek, erase-shrinks,
}
use simple_kit.Buffer.Refine.{
  Op, append_bytes, receive, consume, run, queue_run, run_refines, contents-new,
}

abbrev junk : Memory
junk i = 7

-- A small buffer, near its end.
abbrev small : Buffer
small = record { buffer = junk; capacity = 8; start = 3; end = 6 }

small-IsValid : IsValid small
small-IsValid = omega arith

contents-new_example : IsValid (new junk) × (contents (new junk) ≡ [])
contents-new_example = contents-new junk

reserve-Reserved_example : Reserved small 20 (reserve junk small 20)
reserve-Reserved_example = reserve-Reserved junk small 20 small-IsValid (omega arith)

contents-seek_example :
    IsValid (seek small 2)
    × (contents (seek small 2) ≡ contents small ++ read junk (space small).0 2)
contents-seek_example = contents-seek small 2 small-IsValid (unfold space in omega arith)

erase-shrinks_example :
    (erase junk small 1).capacity < shrink_capacity
    ⊎ init_capacity ≤ live_length (erase junk small 1)
erase-shrinks_example = erase-shrinks junk small 1

-- Bytes come in by both ways, and some go out.
abbrev calls : List (Memory × Op)
calls = (junk, append_bytes (1 ∷ 2 ∷ [])) ∷ (junk, receive 4 (3 ∷ [])) ∷ (junk, consume 2) ∷ []

run_refines_example :
    IsValid (run calls (new junk)) × (contents (run calls (new junk)) ≡ queue_run calls [])
run_refines_example =
    run_refines calls (new junk) [] (contents-new junk).0 (contents-new junk).1
      (omega arith, ((omega arith, omega arith), (omega arith, tt)))
