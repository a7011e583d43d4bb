-- ===== src/Lib.antt =====
-- A model of simple_kit, a kit of C containers and network services, and its correctness.
--
-- Parts and files. Base holds what all share: tests on numbers, lists under native indices, byte
-- memory (Base/Memory) and wrapping 64-bit arithmetic (Base/Words).
--
-- Hash is simple_hash/shash.c. Hash/Keys is `_shash_hash_key`, `_shash_key_compare` and the
-- `_slist_key_compare` of the skip list, the same for keys below 2^31 bytes, which is what the
-- tables have, Hash/Chains the list under a bucket head, Hash/Table the state and
-- `_shash_check_rehash`, Hash/Iteration the iterator, Hash/Calls `shash_insert`, `shash_find`,
-- `shash_erase`, `shash_size`. A table is valid (Hash/Invariant) when every chain is sorted and
-- stands in the bucket of its keys, the size counts the nodes, and the buckets that a rehash has
-- passed are empty; `view` is the node under a key. The bucket counts are exponents up to 63.
-- `iterate` is total: a client's loop has fuel, and as many rounds as the table has nodes are
-- enough.
--
-- Deque is simple_deque/sdeque.c: nodes at addresses with `next` and `prev`. Deque/Seg says which
-- nodes the pointers run through between two ends; the loop of `sdeque_free` has one more than the
-- number of nodes that the state keeps as fuel.
--
-- Skiplist is simple_skiplist/slist.c. Skiplist/Run says which nodes the pointers of one level run
-- through and what its spans count, Skiplist/Invariant when all levels fit, Skiplist/Spec what the
-- list promises, on entries ordered by their keys. The walks of one level have one round more than
-- the list has nodes, `rand_r` is a parameter, and the loop that draws a height has as many rounds
-- as there are levels. An insertion that writes behind `level_rank`, which has one slot less than
-- `max_height`, gives no result.
--
-- Config is simple_config/sconfig.c: the parser of one line, in Config.antt, and the loader and
-- `sconfig_read_str`, in Config/Load, over a list of entries in the order of the skip list. The
-- loader's fuel is the length of the file and one: each round takes a byte or ends the loop.
--
-- Head is simple_head/shead.c: a 24-byte header, `encode` and `decode` over a byte memory on a
-- machine of either byte order; Head/Wire describes the wire format without the code. The reversal
-- loop has its length as fuel, twice what it needs.
--
-- Buffer is simple_io/sio_buffer.c; every stream has two of them, and the RPC layer parses headers
-- out of one. Offsets wrap at 64 bits; Buffer/Refine compares any run of calls with a byte queue.
--
-- Timer is simple_io/sio_timer.c: the heap of the event loop's timers, an array of timers that
-- know their index. The loops that move a timer have fuel from the heap's length, which is more
-- than the heap is deep.
--
-- Loop is simple_io/sio_epoll.c, with Timer for its timers: the calls of sio.h, and in Loop/Round
-- `_sio_timer_run`, `_sio_calc_timeout` and `sio_run`. A callback is any list of calls into the
-- loop, chosen from the whole state and all callbacks before. The rounds of `_sio_timer_run` have
-- the code's own bound.
--
-- Stream is simple_io/sio_stream.c, with two buffers and the registration in the event loop. What
-- system calls answer is an argument; a call of `sio_watch_write` with NULL is noted.
-- Stream/Session puts the user's calls and the loop's events in any order, with a log of all
-- bytes.
--
-- Rpc is simple_io/sio_rpc.c. Rpc/Parse is the loop that cuts the input of a connection into
-- messages, with Head for a message's header and Buffer for the input, for any handler that leaves
-- the input alone; its fuel is one more than the input has bytes. Rpc/Server is the connections
-- and methods of a server and the answer to a request, Rpc/Client the connections of a client, the
-- choice of one for a call and `_sio_rpc_call`; all streams are those of Stream.
--
-- Not modelled: functions that only return memory to the allocator, failure of an allocation (the
-- code does not test for it), the requests of an RPC client with their timers and answers, the
-- event loop over select, the pipe that wakes the other one, datagrams, the log, the test
-- programs, and system calls.
pub mod Base
pub mod Head
pub mod Buffer
pub mod Hash
pub mod Timer
pub mod Deque
pub mod Skiplist
pub mod Loop
pub mod Stream
pub mod Rpc
pub mod Config
