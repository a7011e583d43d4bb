-- ===== src/Rpc/Client.antt =====
-- simple_io/sio_rpc.c: the client's connections ("upstreams") and their choice. The clock, and
-- what `sio_stream_connect` returns, are arguments of each operation. An upstream is named by its
-- address. `req_status`, a table in the C code, is a list of the ids that wait for an answer with
-- the addresses of their requests.
pub mod Rotation
pub mod Choice
pub mod Delay
use simple_kit.Base.{
  ℕ, zero, suc, ◌+◌, ◌-◌, ◌*◌, ◌%◌, ◌^◌, Bool, true, false, ◌&&◌, ◌||◌, Option, none, some, List,
  [], ◌∷◌, ltb, leb, ◌==◌, if◌then◌else◌, length, get_or, is_some, is_none, map,
}
use simple_kit.Buffer.{live_length}
use simple_kit.Base.Memory.{Memory}
use simple_kit.Base.Words.{add64}
use simple_kit.Head.{Head, ByteOrder}
use simple_kit.Stream.{Stream, WriteResult, send, pending}
use simple_kit.Rpc.Server.{head_bytes, lookup, remove}
use simple_kit.Rpc.Parse.{add32}

pub record Upstream : Type 0 where
  pub ip : List ℕ
  pub port : ℕ
  pub stream : Option Stream
  pub req_id : ℕ
  pub req_status : List (ℕ × ℕ)
  pub last_conn_time : ℕ
  pub conn_delay : ℕ

pub record Client : Type 0 where
  pub rr_stream : ℕ
  pub upstreams : List ℕ
  pub at : ℕ → Upstream

abbrev pub longer_delay : ℕ → ℕ
longer_delay delay = if leb 256 delay then 256 else delay * 2

abbrev pub elapsed : ℕ → ℕ → ℕ
elapsed now last = if ltb last now then now - last else 0

-- `true` is the return of 0.
unfoldable pub connect : ℕ → Option Stream → Upstream → Bool × Upstream
connect now opened u = (
  is_some opened,
  record u {
    stream = opened;
    last_conn_time = now;
    conn_delay = if is_none opened then longer_delay u.conn_delay else u.conn_delay;
  },
)

-- The requests that are told to have no upstream any more, and the upstream.
unfoldable pub reset : ℕ → Upstream → List ℕ × Upstream
reset now u = (
  map (λ entry. entry.1) u.req_status,
  record u {
    stream = none;
    req_id = 0;
    req_status = [];
    conn_delay = if ltb (elapsed now u.last_conn_time) 5 then longer_delay u.conn_delay else 1;
  },
)

-- What `_sio_rpc_call` does behind its two writes: whether one of them read through NULL, whether
-- both succeeded, the id and the address of the request.
abbrev pub note_call : Bool → Bool → ℕ → ℕ → ℕ → Upstream → Option (Bool × List ℕ × Upstream)
note_call true sent now id request u = none
note_call false false now id request u =
    let (orphans, given_up) = reset now u in some (false, orphans, given_up)
note_call false true now id request u =
    if is_some (lookup u.req_status id)
    then none
    else some (true, [], record u { req_status = (id, request) ∷ u.req_status })

-- `_sio_rpc_call` of the request at `request`: whether it is sent, the requests that a reset tells,
-- and the upstream. `none` is a crash: the assert that the id is free fails, or there is no stream.
-- `shead_encode` does not read the `magic` that it is given.
unfoldable pub call :
    ByteOrder
    → Memory
    → Memory × WriteResult
    → Memory × WriteResult
    → ℕ
    → ℕ
    → ℕ
    → List ℕ
    → Upstream
    → Option (Bool × List ℕ × Upstream)
unfolding reset
call order junk (fresh, answer) (fresh', answer') now request type body u = elim u.stream [
  | none ↦ none
  | some stream ↦
      let head : Head = record {
        id = u.req_id;
        type = type;
        magic = 0;
        reserved = 0;
        body_len = length body;
      } in
      let one = send fresh answer stream (head_bytes order junk head) in
      let two = send fresh' answer' one.stream body in
      note_call (one.faults || two.faults) (one.ok && two.ok) now u.req_id request
        (record u { req_id = add64 u.req_id 1; stream = some two.stream })
]

-- The `shash_erase` of `_sio_rpc_call_timer` and of the handler of an answer.
unfoldable pub settle : ℕ → Upstream → Upstream
settle id u = record u { req_status = remove u.req_status id }

abbrev pub is_full : ℕ → Option Stream → Bool
is_full max_pending none = false
is_full max_pending (some s) = leb max_pending (pending s) || leb max_pending (live_length s.inbuf)

-- The check of each second; `false` is that it did not connect.
unfoldable pub timer : ℕ → ℕ → Option Stream → Upstream → List ℕ × Upstream
unfolding reset connect
timer max_pending now opened u =
    let (orphans, r) = if is_full max_pending u.stream then reset now u else ([], u) in
    (
      orphans,
      if is_none r.stream && leb r.conn_delay (elapsed now r.last_conn_time)
          then (connect now opened r).1
          else r,
    )

-- `sio_rpc_add_upstream`, for an upstream that is not there yet.
abbrev pub blank : List ℕ → ℕ → ℕ → Upstream
blank ip port now = record {
  ip = ip;
  port = port;
  stream = none;
  req_id = 0;
  req_status = [];
  last_conn_time = now;
  conn_delay = 1;
}

unfoldable pub new_upstream : List ℕ → ℕ → ℕ → Option Stream → Upstream
unfolding connect
new_upstream ip port now opened = (connect now opened (blank ip port now)).1

-- The address that the loop of `_sio_rpc_choose_upstream` looks at in round `i`.
abbrev pub visited : Client → ℕ → ℕ
visited c i = get_or c.upstreams (add32 c.rr_stream i % length c.upstreams) 0

-- The loop, with `n` rounds to go: `min_pending` and `upstream`.
unfoldable pub choose_loop : Client → ℕ → ℕ → ℕ → Option ℕ → ℕ × Option ℕ
choose_loop c zero i min_pending best = (min_pending, best)
choose_loop c (suc n) i min_pending best =
    let u = c.at (visited c i) in
    let found = choose_loop c n (i + 1) (length u.req_status) (some (visited c i)) in
    let passed = choose_loop c n (i + 1) min_pending best in
    if is_some u.stream && leb (length u.req_status) min_pending then found else passed

abbrev pub set_at : Client → ℕ → Upstream → Client
set_at c addr u = record c { at = λ a. if a == addr then u else c.at a }

-- `_sio_rpc_choose_upstream`: the address, `none` for NULL, and the client.
unfoldable pub choose_upstream : ℕ → Option Stream → Client → Option ℕ × Client
unfolding choose_loop connect
choose_upstream now opened client =
    let c = record client { rr_stream = add32 client.rr_stream 1 } in
    elim (choose_loop c (length c.upstreams) 0 (2 ^ 64 - 1) none).1 [
      | some addr ↦ (some addr, c)
      | none ↦
          if length c.upstreams == 0
          then (none, c)
          else (let addr = get_or c.upstreams (c.rr_stream % length c.upstreams) 0 in
              let (ok, u) = connect now opened (c.at addr) in
              (if ok then some addr else none, set_at c addr u))
    ]
