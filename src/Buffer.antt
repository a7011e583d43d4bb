-- ===== src/Buffer.antt =====
-- simple_io/sio_buffer.c and sio_buffer.h: the growing byte buffer under every stream.
-- `uint64_t` arithmetic wraps as in C. A fresh allocation holds unspecified bytes, so each
-- operation that may allocate takes the contents of the new block as its first argument.
pub mod Laws
pub mod Refine
pub mod Tests
use simple_kit.Base.{ℕ, ◌+◌, ◌-◌, ◌≤◌, ◌<◌, List, ltb, leb, ◌&&◌, if◌then◌else◌, length}
use simple_kit.Base.Memory.{Memory, read, write, copy}
use simple_kit.Base.Words.{u64_mod, add64, sub64, mul64}

abbrev pub init_capacity : ℕ
init_capacity = 16384

abbrev pub shrink_capacity : ℕ
shrink_capacity = 1048576

pub record Buffer : Type 0 where
  pub buffer : Memory
  pub capacity : ℕ
  pub start : ℕ
  pub end : ℕ

unfoldable pub new : Memory → Buffer
new fresh = record { buffer = fresh; capacity = init_capacity; start = 0; end = 0 }

-- The live bytes moved to the front of `block`, which has `capacity` bytes.
abbrev pub move_to : Buffer → Memory → ℕ → Buffer
move_to b block capacity =
    let live = sub64 b.end b.start in
    record {
      buffer = copy block 0 b.buffer b.start live;
      capacity = capacity;
      start = 0;
      end = live;
    }

unfoldable pub reserve : Memory → Buffer → ℕ → Buffer
reserve fresh b size =
    let wanted = add64 (sub64 b.end b.start) size in
    let doubled = mul64 b.capacity 2 in
    if leb size (sub64 b.capacity b.end)
    then b
    else if leb size (add64 (sub64 b.capacity b.end) b.start)
    then move_to b b.buffer b.capacity
    else move_to b fresh (if ltb wanted doubled then doubled else wanted)

pub seek : Buffer → ℕ → Buffer
seek b size = record b { end = add64 b.end size }

unfoldable pub append : Memory → Buffer → List ℕ → Buffer
append fresh b bytes =
    let r = reserve fresh b (length bytes) in
    record r { buffer = write r.buffer r.end bytes; end = add64 r.end (length bytes) }

unfoldable pub erase : Memory → Buffer → ℕ → Buffer
erase fresh b size =
    let e = record b { start = add64 b.start size } in
    if leb shrink_capacity e.capacity && ltb (sub64 e.end e.start) init_capacity
    then move_to e fresh init_capacity
    else e

unfoldable pub live_length : Buffer → ℕ
live_length b = sub64 b.end b.start

-- `sio_buffer_space`: where the free bytes begin in the block, and how many there are.
pub space : Buffer → ℕ × ℕ
space b = (b.end, sub64 b.capacity b.end)

-- `sio_buffer_data`: where the live bytes begin in the block, and how many there are.
unfoldable pub live : Buffer → ℕ × ℕ
live b = (b.start, sub64 b.end b.start)
