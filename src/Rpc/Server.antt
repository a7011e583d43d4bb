-- ===== src/Rpc/Server.antt =====
-- simple_io/sio_rpc.c: the server's connections and methods. `dstreams` and `methods`, tables in the
-- C code, are lists of keys and values, and a connection is its stream under its id. What the
-- system answers to each write, and the blocks that a buffer may allocate, are arguments.
pub mod Finish
pub mod Ids
use simple_kit.Base.{
  ℕ, ◌+◌, Bool, true, false, ◌&&◌, ◌||◌, not, Option, none, some, List, [], ◌∷◌, ◌++◌, ◌==◌, leb,
  if◌then◌else◌, length,
}
use simple_kit.Base.Memory.{Memory, read}
use simple_kit.Base.Words.{add64}
use simple_kit.Head.{Head, ByteOrder, encode, encode_size}
use simple_kit.Buffer.{live_length}
use simple_kit.Stream.{Stream, WriteResult, Written, send, pending}

module _ {ℓ} {A : Type ℓ} where
  abbrev pub lookup : List (ℕ × A) → ℕ → Option A
  lookup [] key = none
  lookup ((k, v) ∷ table) key = if k == key then some v else lookup table key

  abbrev pub put : List (ℕ × A) → ℕ → A → List (ℕ × A)
  put [] key value = []
  put ((k, v) ∷ table) key value =
      if k == key then (k, value) ∷ table else (k, v) ∷ put table key value

  abbrev pub remove : List (ℕ × A) → ℕ → List (ℕ × A)
  remove [] key = []
  remove ((k, v) ∷ table) key = if k == key then table else (k, v) ∷ remove table key

pub record Server : Type 0 where
  pub conn_id : ℕ
  pub dstreams : List (ℕ × Stream)
  pub methods : List (ℕ × ℕ)

pub record Response : Type 0 where
  pub conn_id : ℕ
  pub req_head : Head
  pub request : List ℕ

-- `_sio_rpc_dstream_accept`.
unfoldable pub accept : Stream → Server → Server
accept stream s = record s {
  conn_id = add64 s.conn_id 1;
  dstreams = (s.conn_id, stream) ∷ s.dstreams;
}

-- `_sio_rpc_dstream_free`.
unfoldable pub free : ℕ → Server → Server
free id s = record s { dstreams = remove s.dstreams id }

-- `_sio_rpc_dstream_timer`; `false` is that it closed the connection.
unfoldable pub check : ℕ → ℕ → Stream → Server → Bool × Server
unfolding free
check max_pending id stream s =
    if leb max_pending (pending stream) || leb max_pending (live_length stream.inbuf)
    then (false, free id s)
    else (true, s)

-- `_sio_rpc_dstream_handle_request`: the method to call and its argument, if there is one.
unfoldable pub handle_request : ℕ → Head → List ℕ → Server → Option (ℕ × Response)
handle_request id head body s = elim (lookup s.methods head.type) [
  | none ↦ none
  | some method ↦ some (method, record { conn_id = id; req_head = head; request = body })
]

unfoldable pub add_method : ℕ → ℕ → Server → Server
add_method type method s = elim (lookup s.methods type) [
  | none ↦ record s { methods = (type, method) ∷ s.methods }
  | some held ↦ s
]

-- The array `head` of `sio_rpc_finish` after `shead_encode`; `junk` is what it held.
unfoldable pub head_bytes : ByteOrder → Memory → Head → List ℕ
head_bytes order junk head = elim (encode order head junk encode_size) [
  | none ↦ []
  | some bytes ↦ read bytes 0 encode_size
]

-- The two writes of `sio_rpc_finish`.
unfoldable pub reply :
    ByteOrder
    → Memory
    → Memory × WriteResult
    → Memory × WriteResult
    → Stream
    → Head
    → List ℕ
    → Written × Written
unfolding head_bytes
reply order junk (fresh, answer) (fresh', answer') stream req_head body =
    let head = record req_head { body_len = length body } in
    let one = send fresh answer stream (head_bytes order junk head) in
    (one, send fresh' answer' one.stream body)

-- `sio_rpc_finish`: the bytes that reach the socket, and the server.
unfoldable pub finish :
    ByteOrder
    → Memory
    → Memory × WriteResult
    → Memory × WriteResult
    → Response
    → List ℕ
    → Server
    → List ℕ × Server
unfolding reply free
finish order junk first second resp body s = elim (lookup s.dstreams resp.conn_id) [
  | none ↦ ([], s)
  | some stream ↦
      let (one, two) = reply order junk first second stream resp.req_head body in
      (
        one.sent ++ two.sent,
        if not one.ok && not two.ok
            then free resp.conn_id s
            else record s { dstreams = put s.dstreams resp.conn_id two.stream },
      )
]
