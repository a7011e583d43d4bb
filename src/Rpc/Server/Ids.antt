-- ===== src/Rpc/Server/Ids.antt =====
-- simple_io/sio_rpc.c: the ids of a server's connections. A response holds the id of the connection
-- that its request came from, and may be finished when that connection is gone.
use simple_kit.Base.{
  ℕ, ◌+◌, ◌<◌, ◌^◌, ◌≡◌, refl, ap, ◌∙◌, false, ◌&&◌, ◌||◌, not, none, Option-cases, List, [], ◌∷◌,
  ◌==◌, leb, arith, Bool-cases, inl, inr,
}
use simple_kit.Base.Memory.{Memory}
use simple_kit.Head.{ByteOrder}
use simple_kit.Stream.{Stream, WriteResult, pending}
use simple_kit.Buffer.{live_length}
use simple_kit.Rpc.Server.{
  Server, Response, lookup, put, remove, accept, free, check, add_method, reply, finish,
}

-- What happens to a server: its connections come, change and go, methods come, and responses are
-- finished, in any order and with any answers of the system.
pub data Step (s : Server) : Server → Type 0 where
  accepts : (stream : Stream) → s.conn_id + 1 < 2 ^ 64 → Step s (accept stream s)
  frees : (id : ℕ) → Step s (free id s)
  checks : (max_pending id : ℕ) (stream : Stream) → Step s (check max_pending id stream s).1
  changes : (id : ℕ) (stream : Stream) → Step s (record s { dstreams = put s.dstreams id stream })
  adds : (type method : ℕ) → Step s (add_method type method s)
  finishes :
      (order : ByteOrder) (junk : Memory) (first second : Memory × WriteResult) (resp : Response)
      (body : List ℕ)
      → Step s (finish order junk first second resp body s).1

pub data Steps (s : Server) : Server → Type 0 where
  stay : Steps s s
  then_do : {t r : Server} → Steps s t → Step t r → Steps s r

-- The id has been given out, and its connection is gone.
pub record IsClosed (id : ℕ) (s : Server) : Type 0 where
  pub given : id < s.conn_id
  pub gone : lookup s.dstreams id ≡ none

pub lookup-remove {ℓ} :
    {A : Type ℓ} (table : List (ℕ × A)) (key id : ℕ)
    → lookup table id ≡ none
    → lookup (remove table key) id ≡ none
lookup-remove [] key id out = refl
lookup-remove ((k, v) ∷ table) key id out = elim (Bool-cases (k == id)) [
  | inl here ↦ absurd (let e = rw here at out in cc)
  | inr other ↦
      let rest = rw other at out in
      elim (Bool-cases (k == key)) [
        | inl taken ↦ rw taken rest
        | inr kept ↦ rw (kept, other) (lookup-remove table key id rest)
      ]
]

lookup-put {ℓ} :
    {A : Type ℓ} (table : List (ℕ × A)) (key id : ℕ) (value : A)
    → lookup table id ≡ none
    → lookup (put table key value) id ≡ none
lookup-put [] key id value out = refl
lookup-put ((k, v) ∷ table) key id value out = elim (Bool-cases (k == id)) [
  | inl here ↦ absurd (let e = rw here at out in cc)
  | inr other ↦
      let rest = rw other at out in
      elim (Bool-cases (k == key)) [
        | inl set ↦ rw (set, other) rest
        | inr kept ↦ rw (kept, other) (lookup-put table key id value rest)
      ]
]

free-IsClosed : (id key : ℕ) (s : Server) → IsClosed id s → IsClosed id (free key s)
unfolding free
free-IsClosed id key s closed = record {
  given = closed.given;
  gone = lookup-remove s.dstreams key id closed.gone;
}

Step-IsClosed : {s t : Server} (id : ℕ) → Step s t → IsClosed id s → IsClosed id t
unfolding accept check add_method finish
Step-IsClosed {s} id (accepts stream room) closed =
    let given = closed.given in
    let other : s.conn_id == id ≡ false = ground arith in
    record { given = omega arith; gone = rw other closed.gone }
Step-IsClosed {s} id (frees key) closed = free-IsClosed id key s closed
Step-IsClosed {s} id (checks max_pending key stream) closed =
    elim (Bool-cases
      (leb max_pending (pending stream) || leb max_pending (live_length stream.inbuf))) [
        | inl full ↦ rw full (free-IsClosed id key s closed)
        | inr fine ↦ rw fine closed
      ]
Step-IsClosed {s} id (changes key stream) closed = record {
  given = closed.given;
  gone = lookup-put s.dstreams key id stream closed.gone;
}
Step-IsClosed {s} id (adds type method) closed = elim (Option-cases (lookup s.methods type)) [
  | inl e ↦ rw (e, add_method) (record { given = closed.given; gone = closed.gone })
  | inr (held, e) ↦ rw (e, add_method) closed
]
Step-IsClosed {s} id (finishes order junk first second resp body) closed =
    elim (Option-cases (lookup s.dstreams resp.conn_id)) [
      | inl e ↦ rw (e, finish) closed
      | inr (stream, e) ↦
          let (one, two) = reply order junk first second stream resp.req_head body in
          elim (Bool-cases (not one.ok && not two.ok)) [
            | inl broken ↦ rw (e, finish, broken) (free-IsClosed id resp.conn_id s closed)
            | inr sent ↦
                rw (e, finish, sent)
                  (record {
                    given = closed.given;
                    gone = lookup-put s.dstreams resp.conn_id id two.stream closed.gone;
                  })
          ]
    ]

pub Steps-IsClosed : {s t : Server} (id : ℕ) → Steps s t → IsClosed id s → IsClosed id t
Steps-IsClosed id stay closed = closed
Steps-IsClosed id (then_do steps step) closed =
    Step-IsClosed id step (Steps-IsClosed id steps closed)

-- Ids that have been given out stay so.
Step-conn_id : {s t : Server} (n : ℕ) → Step s t → n < s.conn_id → n < t.conn_id
unfolding accept check add_method finish free
Step-conn_id {s} n (accepts stream room) p = omega arith
Step-conn_id {s} n (frees key) p = p
Step-conn_id {s} n (checks max_pending key stream) p =
    elim (Bool-cases
      (leb max_pending (pending stream) || leb max_pending (live_length stream.inbuf))) [
        | inl full ↦ rw full p
        | inr fine ↦ rw fine p
      ]
Step-conn_id {s} n (changes key stream) p = p
Step-conn_id {s} n (adds type method) p = elim (Option-cases (lookup s.methods type)) [
  | inl e ↦ rw (e, add_method) p
  | inr (held, e) ↦ rw (e, add_method) p
]
Step-conn_id {s} n (finishes order junk first second resp body) p =
    elim (Option-cases (lookup s.dstreams resp.conn_id)) [
      | inl e ↦ rw (e, finish) p
      | inr (stream, e) ↦
          let (one, two) = reply order junk first second stream resp.req_head body in
          elim (Bool-cases (not one.ok && not two.ok)) [
            | inl broken ↦ rw (e, finish, broken) p
            | inr sent ↦ rw (e, finish, sent) p
          ]
    ]

Steps-conn_id : {s t : Server} (n : ℕ) → Steps s t → n < s.conn_id → n < t.conn_id
Steps-conn_id n stay p = p
Steps-conn_id n (then_do steps step) p = Step-conn_id n step (Steps-conn_id n steps p)

-- After sio_rpc accepts a connection, while the count of connections stays below 2^64, let
-- connections come, change and go, methods be added and responses be finished in any order and
-- with any answers of the system until the connection is gone, and then again: sio_rpc_finish of a
-- request that came from it sends nothing and changes nothing, so that no later connection gets
-- its answer.
pub late-finish :
    (s : Server) {t r : Server} (stream : Stream) (order : ByteOrder) (junk : Memory)
    (first second : Memory × WriteResult) (resp : Response) (body : List ℕ)
    → s.conn_id + 1 < 2 ^ 64
    → resp.conn_id ≡ s.conn_id
    → Steps (accept stream s) t
    → lookup t.dstreams s.conn_id ≡ none
    → Steps t r
    → finish order junk first second resp body r ≡ ([], r)
unfolding finish
late-finish s {r = r} stream order junk first second resp body room same before gone after =
    let given : s.conn_id < (accept stream s).conn_id = unfold accept in omega arith in
    let closed : IsClosed s.conn_id _ = record {
      given = Steps-conn_id s.conn_id before given;
      gone = gone;
    } in
    let out = Steps-IsClosed s.conn_id after closed in
    let e : lookup r.dstreams resp.conn_id ≡ none = ap (λ n. lookup r.dstreams n) same ∙ out.gone in
    rw (e, finish) refl
