-- ===== src/Stream/Tests.antt =====
-- The stream's theorems in a concrete session.
use simple_kit.Base.{refl, true, false, some, inl, [], ◌∷◌, arith}
use simple_kit.Base.Memory.{Memory, read}
use simple_kit.Buffer.{new, reserve, append, live_length}
use simple_kit.Buffer.Laws.{IsValid}
use simple_kit.Stream.{
  Stream, connecting, normal, registration, add, on_stream, again, wrote, in_progress, connect,
  send, write_ready, connect_ready, new_stream, pending,
}
use simple_kit.Stream.Output.{Conserves, send-Conserves}
use simple_kit.Stream.Session.{
  Session, start, output, Reachable, connected, later, sends, connects, writes, Sound,
}
use simple_kit.Stream.Invariant.{Reachable-Sound}

abbrev junk : Memory
junk i = 7

-- An accepted stream with nothing to send; the socket takes one byte of three.
abbrev fresh_stream : Stream
fresh_stream = new_stream junk junk 5 normal (some (registration normal false))

fresh_stream-IsValid : IsValid (new junk)
unfolding new
fresh_stream-IsValid = omega arith

send-Conserves_example :
    Conserves fresh_stream (1 ∷ 2 ∷ 3 ∷ []) (send junk (wrote 1) fresh_stream (1 ∷ 2 ∷ 3 ∷ []))
unfolding send new live_length read
send-Conserves_example =
    send-Conserves junk (wrote 1) fresh_stream (1 ∷ 2 ∷ 3 ∷ []) fresh_stream-IsValid (omega arith)
      (omega arith) (inl refl)

-- A connection is made, three bytes wait for it, it comes, and the socket takes two of them.
abbrev begun : Stream
begun = new_stream junk junk 3 connecting (some (registration connecting false))

abbrev waiting : Session
waiting = output (start begun) (1 ∷ 2 ∷ 3 ∷ []) (send junk again begun (1 ∷ 2 ∷ 3 ∷ []))

abbrev opened : Session
opened = record waiting { stream = (connect_ready true waiting.stream).1 }

abbrev written : Session
written = output opened [] (write_ready junk (wrote 2) opened.stream)

written-Reachable : Reachable written
unfolding connect send new live_length append reserve connect_ready read
written-Reachable =
    later opened written
      (later waiting opened
        (later (start begun) waiting (connected junk junk (some 3) in_progress true begun refl)
          (sends junk again (1 ∷ 2 ∷ 3 ∷ []) (omega arith) tt (inl refl)))
        (connects true (registration connecting false) refl refl refl))
      (writes junk (wrote 2) (record (add on_stream) { watch_read = true; watch_write = true }) refl
        refl refl (unfold pending in omega arith))

Reachable-Sound_example : Sound written
Reachable-Sound_example = Reachable-Sound written written-Reachable
