-- ===== src/Hash.antt =====
-- simple_hash/shash.c and shash.h: the chained hash table that doubles its bucket array a bucket
-- at a time. `Keys` and `Chains` are the keys and the list under one bucket head, `Table` the state
-- and the incremental rehash, `Iteration` and `Calls` the public functions; the others prove.
pub mod Keys
pub mod Chains
pub mod Table
pub mod Iteration
pub mod Calls
pub mod Arrays
pub mod Moves
pub mod Invariant
pub mod MoveBucket
pub mod Rehash
pub mod Write
pub mod Reposition
pub mod Refine
pub mod Visit
pub mod Tests
