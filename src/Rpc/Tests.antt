-- ===== src/Rpc/Tests.antt =====
-- The theorems on messages, clients and servers at concrete ones.
use simple_kit.Base.{
  Bool-cases, inl, inr, not, ◌||◌, length, true, zero, suc, get_or, ℕ, ◌≡◌, ◌<◌, refl, false, some,
  List, [], ◌∷◌, ◌++◌, arith, take, drop, ◌%◌, none, if◌then◌else◌, ◌==◌, ◌^◌, Option,
}
use simple_kit.Base.Memory.{Memory, read, write}
use simple_kit.Head.{Head, little, magic_num}
use simple_kit.Head.Wire.{big_endian}
use simple_kit.Buffer.{Buffer, new, live_length}
use simple_kit.Buffer.Laws.{IsValid}
use simple_kit.Buffer.Refine.{contents-new}
use simple_kit.Stream.{
  Stream, connecting, normal, again, wrote, send, is_connecting, new_stream, registration,
}
use simple_kit.Rpc.Client.{Upstream, Client, choose_upstream, timer, new_upstream}
use simple_kit.Rpc.Client.Choice.{waiting, Least, choose_upstream-Least, is_connected}
use simple_kit.Rpc.Server.{Server, Response, accept, free, reply, finish}
use simple_kit.Rpc.Server.Ids.{stay, then_do, accepts, frees, late-finish}
use simple_kit.Rpc.Server.Finish.{Answered, answer_message, finish-Answered}
use simple_kit.Rpc.Parse.{parse}
use simple_kit.Rpc.Parse.Frames.{Message, IsSent, frame, short}
use simple_kit.Rpc.Parse.Input.{Parsed, parse-bad}
use simple_kit.Rpc.Parse.Chunks.{deliver, deliver-frames}

abbrev zeros : Memory
zeros i = 0

abbrev ping : Message
ping = record {
  head = record { id = 9; type = 258; magic = magic_num; reserved = 0; body_len = 2 };
  body = 5 ∷ 6 ∷ [];
}

ping-IsSent : IsSent ping
ping-IsSent = record {
  fits = record {
    id = omega arith;
    type = omega arith;
    reserved = omega arith;
    body_len = omega arith;
  };
  magic = refl;
  sized = refl;
}

-- What is done with a message: its type and its body are noted.
abbrev note : Head → List ℕ → List (ℕ × List ℕ) → List (ℕ × List ℕ)
note head body notes = (head.type, body) ∷ notes

-- A message and three bytes of the next one, cut in the middle of the header and of the body.
abbrev chunks : List (Memory × Memory × List ℕ)
chunks =
    (zeros, zeros, take 10 (frame ping))
    ∷ (zeros, zeros, take 15 (drop 10 (frame ping)))
    ∷ (zeros, zeros, drop 25 (frame ping) ++ take 3 (frame ping))
    ∷ []

deliver-frames_example :
    Parsed
      (take 3 (frame ping))
      ((258, 5 ∷ 6 ∷ []) ∷ [])
      (deliver little note chunks (new zeros) [])
unfolding big_endian
deliver-frames_example =
    deliver-frames little note chunks (new zeros) [] (ping ∷ []) [] (take 3 (frame ping))
      (contents-new zeros).0 (contents-new zeros).1 (short (omega arith))
      (omega arith, (omega arith, (omega arith, tt))) (omega arith) (ping-IsSent, tt)
      (short (omega arith)) refl

-- An input that holds a message and then zeros.
abbrev input : Buffer
input = record {
  buffer = λ i. write zeros 4 (frame ping) i % 256;
  capacity = 100;
  start = 4;
  end = 60;
}

input-IsValid : IsValid input
input-IsValid = omega arith

abbrev more : List ℕ
more = 0 ∷ 0 ∷ 0 ∷ 0 ∷ 0 ∷ 0 ∷ 0 ∷ 0 ∷ 0 ∷ 0 ∷ 0 ∷ 0 ∷ []

abbrev word : List ℕ
word = 0 ∷ 0 ∷ 0 ∷ 0 ∷ []

abbrev behind : List ℕ
behind = 0 ∷ 0 ∷ 0 ∷ 0 ∷ 0 ∷ 0 ∷ 0 ∷ 0 ∷ 0 ∷ 0 ∷ 0 ∷ 0 ∷ 0 ∷ 0 ∷ []

input-small : (i : ℕ) → input.buffer i < 256
input-small i = omega arith

parse-bad_example : parse little note zeros input [] ≡ some (false, input, (258, 5 ∷ 6 ∷ []) ∷ [])
unfolding read write big_endian
parse-bad_example =
    parse-bad little note zeros input [] (ping ∷ []) (more ++ (word ++ behind)) input-IsValid
      (omega arith) (ping-IsSent, tt) refl more word behind input-small refl refl refl (omega arith)
      (λ e. ground (arith, e))

abbrev opened : Stream
opened = new_stream zeros zeros 5 connecting none

-- One upstream with no connection, one with two requests that wait and one with one.
abbrev upstream : Option Stream → List (ℕ × ℕ) → Upstream
upstream stream status = record {
  ip = [];
  port = 80;
  stream = stream;
  req_id = 3;
  req_status = status;
  last_conn_time = 100;
  conn_delay = 1;
}

abbrev three : Client
three = record {
  rr_stream = 7;
  upstreams = 10 ∷ 11 ∷ 12 ∷ [];
  at = λ a.
      if a == 11
      then upstream (some opened) ((1, 50) ∷ (2, 51) ∷ [])
      else if a == 12
      then upstream (some opened) ((0, 52) ∷ [])
      else upstream none [];
}

three-waiting : (a : ℕ) → waiting three a < 2 ^ 64
three-waiting a = ground arith

choose_upstream-Least_example : Least three (choose_upstream 200 none three)
choose_upstream-Least_example =
    choose_upstream-Least 200 none three (omega arith) three-waiting 1 (omega arith) refl

-- The first attempt fails, the timer's next does not, and a request waits then.
abbrev retried : Upstream
retried = (timer 1000 9 (some opened) (new_upstream [] 80 5 none)).1

-- Before the connection is there, a write waits.
waits :
    (s : Stream) (bytes : List ℕ)
    → is_connecting s.type ≡ true
    → let w = send zeros again s bytes in
      (w.ok ≡ true) × (w.faults ≡ false) × (is_connecting w.stream.type ≡ true)
unfolding send
waits s bytes e =
    let queued : not (live_length s.outbuf == 0) || is_connecting s.type ≡ true = ground arith in
    rw queued (refl, refl, e)

abbrev called_with : Stream → Upstream
called_with t = record retried { req_id = 1; req_status = (0, 70) ∷ []; stream = some t }

abbrev lonely : Client
lonely = record three { upstreams = 10 ∷ 13 ∷ [] }

lonely-idle : (j : ℕ) → j < 2 → is_connected lonely (get_or (10 ∷ 13 ∷ []) j 0) ≡ false
lonely-idle zero inside = refl
lonely-idle (suc zero) inside = refl
lonely-idle (suc (suc j)) inside = absurd (omega arith)

-- A connection with nothing to send; the socket takes the header and then one byte of three.
abbrev peer : Stream
peer = new_stream zeros zeros 6 normal (some (registration normal false))

peer-IsValid : IsValid peer.outbuf
unfolding new
peer-IsValid = omega arith

abbrev serving : Server
serving = record { conn_id = 5; dstreams = (4, peer) ∷ []; methods = [] }

abbrev asked : Response
asked = record { conn_id = 4; req_head = ping.head; request = ping.body }

abbrev reply_body : List ℕ
reply_body = 1 ∷ 2 ∷ 3 ∷ []

wrote-ok : (n : ℕ) (s : Stream) (bytes : List ℕ) → (send zeros (wrote n) s bytes).ok ≡ true
unfolding send
wrote-ok n s bytes = elim (Bool-cases (not (live_length s.outbuf == 0) || is_connecting s.type)) [
  | inl waits ↦ rw waits refl
  | inr direct ↦
      rw direct
        (elim (Bool-cases (n == length bytes)) [ inl all ↦ rw all refl | inr part ↦ rw part refl ])
]

reply-oks :
    let (one, two) =
      reply little zeros (zeros, wrote 24) (zeros, wrote 1) peer asked.req_head reply_body in
    (one.ok ≡ true) × (two.ok ≡ true)
unfolding reply
reply-oks = (wrote-ok 24 peer _, wrote-ok 1 _ reply_body)

finish-Answered_example :
    let (one, two) =
      reply little zeros (zeros, wrote 24) (zeros, wrote 1) peer asked.req_head reply_body in
    Answered serving 4 peer
      (answer_message asked.req_head reply_body)
      (finish little zeros (zeros, wrote 24) (zeros, wrote 1) asked reply_body serving)
    × (one.faults ≡ false)
    × (two.faults ≡ false)
unfolding read new
finish-Answered_example =
    finish-Answered little zeros zeros zeros (wrote 24) (wrote 1) asked reply_body serving peer refl
      refl peer-IsValid (omega arith) (omega arith) (omega arith) reply-oks.0 reply-oks.1

-- The connection 5 comes and goes, and another one comes, before the request of 5 is answered.
abbrev turned_over : Server
turned_over = accept peer (free 5 (accept peer serving))

late-finish_example :
    finish little zeros
      (zeros, wrote 24)
      (zeros, wrote 1)
      (record { conn_id = 5; req_head = ping.head; request = ping.body })
      reply_body
      turned_over
    ≡ ([], turned_over)
unfolding free accept
late-finish_example =
    late-finish serving peer little zeros (zeros, wrote 24) (zeros, wrote 1)
      (record { conn_id = 5; req_head = ping.head; request = ping.body }) reply_body (omega arith)
      refl (then_do stay (frees 5)) refl (then_do stay (accepts peer (omega arith)))
