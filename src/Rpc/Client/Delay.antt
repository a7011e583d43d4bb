-- ===== src/Rpc/Client/Delay.antt =====
-- The life of an upstream: its connection, its waiting requests and the delay between attempts.
use simple_kit.Base.{ℕ, ◌+◌, ◌^◌, ◌≤◌, ◌≡◌, Bool, ◌<◌, Option, none, some, List, []}
use simple_kit.Base.Memory.{Memory}
use simple_kit.Head.{ByteOrder}
use simple_kit.Stream.{Stream, WriteResult}
use simple_kit.Rpc.Server.{lookup}
use simple_kit.Rpc.Client.{Upstream, connect, reset, timer, new_upstream, call, settle}

-- What happens to an upstream: it is made; with no connection, an attempt is made at any time, as
-- by a choice; with one, that is given up, sends or reads, and has requests called (while its ids
-- stay below 2^64), answered and timed out; and the timer runs.
pub data Lives : Upstream → Type 0 where
  made :
      (ip : List ℕ) (port now : ℕ) (opened : Option Stream)
      → Lives (new_upstream ip port now opened)
  attempted :
      (u : Upstream) (now : ℕ) (opened : Option Stream)
      → Lives u
      → u.stream ≡ none
      → Lives (connect now opened u).1
  given_up : (u : Upstream) (now : ℕ) → Lives u → Lives (reset now u).1
  timed :
      (u : Upstream) (max_pending now : ℕ) (opened : Option Stream)
      → Lives u
      → Lives (timer max_pending now opened u).1
  streamed :
      (u : Upstream) (before after : Stream)
      → Lives u
      → u.stream ≡ some before
      → Lives (record u { stream = some after })
  called :
      (u : Upstream) (order : ByteOrder) (junk : Memory) (first second : Memory × WriteResult)
      (now request type : ℕ) (body : List ℕ) (ok : Bool) (orphans : List ℕ) (r : Upstream)
      → Lives u
      → u.req_id + 1 < 2 ^ 64
      → call order junk first second now request type body u ≡ some (ok, orphans, r)
      → Lives r
  settled : (u : Upstream) (id : ℕ) → Lives u → Lives (settle id u)

-- The delay is 1, 2, 4, ... or 256 seconds, without a connection nothing waits for an answer,
-- and what waits has an id below the next one.
pub record Calm (u : Upstream) : Type 0 where
  pub delay : (k : ℕ) × (k ≤ 8) × (u.conn_delay ≡ 2 ^ k)
  pub idle : u.stream ≡ none → (u.req_status ≡ []) × (u.req_id ≡ 0)
  pub free_ids : (id : ℕ) → u.req_id ≤ id → lookup u.req_status id ≡ none
