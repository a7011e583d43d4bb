-- ===== src/Rpc/Parse/Chunks.antt =====
-- A byte stream arrives in chunks that know nothing of messages: what is handled does not depend
-- on where the chunks are cut.
use mathlib.Core.List.{append_assoc, append-nil}
use simple_kit.Base.{
  ℕ, ◌+◌, ◌^◌, ◌≤◌, ◌<◌, ◌≡◌, refl, sym, ap, ◌∙◌, Bool, true, false, Option, none, some, List, [],
  ◌∷◌, ◌++◌, arith, length, length-append, append-split, append_cancel, leb, leb→le, Bool-cases,
  inl, inr, if◌then◌else◌,
}
use simple_kit.Base.Memory.{Memory, write, read-write_self}
use simple_kit.Head.{Head, ByteOrder, little}
use simple_kit.Head.Codec.{Fits, wire, length-wire}
use simple_kit.Head.Local.{decode-wire}
use simple_kit.Buffer.{Buffer}
use simple_kit.Buffer.Laws.{IsValid, contents}
use simple_kit.Buffer.Refine.{receive, step, step_refines}
use simple_kit.Rpc.Parse.{parse}
use simple_kit.Rpc.Parse.Frames.{
  Message, IsSent, AllSent, frame, frames, length-frame, Incomplete, short, open_body, handle_all,
}
use simple_kit.Rpc.Parse.Input.{Parsed, parse-frames}

-- The wire format of a header determines the length of its body.
wire-body_len : (h k : Head) → Fits h → Fits k → wire h ≡ wire k → h.body_len ≡ k.body_len
wire-body_len h k fh fk e =
    let zeros : Memory = λ i. 0 in
    let m = write zeros 0 (wire h) in
    let back = read-write_self zeros 0 24 (wire h) (sym (length-wire h)) in
    let one = decode-wire little m h fh back in
    let two = decode-wire little m k fk (back ∙ e) in let same = sym one ∙ two in ground arith

-- What is in front of a whole message is not an incomplete one.
frame-not-Incomplete : (m : Message) (more : List ℕ) → IsSent m → ¬ (Incomplete (frame m ++ more))
frame-not-Incomplete m more sent (short few) =
    omega (arith, length-append (frame m) more, length-frame m)
frame-not-Incomplete m more sent (open_body h part fits is less) =
    let (heads, bodies) =
      append_cancel (wire h) (wire m.head) (m.body ++ more) part
        (sym (append_assoc (wire m.head) m.body more) ∙ is)
        (length-wire h ∙ sym (length-wire m.head)) in
    let same = wire-body_len m.head h sent.fits fits heads in
    let sized = sent.sized in omega (arith, ap length bodies, length-append m.body more)

-- The bytes so far of what is at most one message, are an incomplete message.
open-front :
    (h : Head) (body p q : List ℕ)
    → Fits h
    → p ++ q ≡ wire h ++ body
    → length body ≤ h.body_len
    → length p < 24 + h.body_len
    → Incomplete p
open-front h body p q fits e most less = elim (Bool-cases (leb 24 (length p))) [
  | inr few ↦ short (ground arith)
  | inl header ↦
      let (part, front, back) =
        append-split (wire h) p q body e (omega (arith, length-wire h, leb→le _ _ header)) in
      open_body h part fits front
        (omega (arith, ap length front, length-append (wire h) part, length-wire h))
]

prefix-Incomplete : (p q rest : List ℕ) → Incomplete rest → p ++ q ≡ rest → Incomplete p
prefix-Incomplete p q rest (short few) e = short (omega (arith, ap length e, length-append p q))
prefix-Incomplete p q rest (open_body h part fits is less) e =
    open-front h part p q fits (e ∙ is) (omega arith) (
      omega
        (arith, ap length (e ∙ is), length-append p q, length-append (wire h) part, length-wire h))

-- A cut of the stream at any place: whole messages, and an incomplete one that the other part
-- goes on with.
record Cut (p q : List ℕ) (ms : List Message) (rest : List ℕ) : Type 0 where
  done : List Message
  later : List Message
  left : List ℕ
  parts : ms ≡ done ++ later
  done_sent : AllSent done
  later_sent : AllSent later
  front : p ≡ frames done ++ left
  open_end : Incomplete left
  back : left ++ q ≡ frames later ++ rest

Cut-Cut :
    (ms : List Message) (p q rest : List ℕ)
    → AllSent ms
    → Incomplete rest
    → p ++ q ≡ frames ms ++ rest
    → Cut p q ms rest
Cut-Cut [] p q rest sent open_end e = record {
  done = [];
  later = [];
  left = p;
  parts = refl;
  done_sent = tt;
  later_sent = tt;
  front = refl;
  open_end = prefix-Incomplete p q rest open_end e;
  back = e;
}
Cut-Cut (m ∷ ms) p q rest sent open_end e = elim (Bool-cases (leb (length (frame m)) (length p))) [
  | inl whole ↦
      let (c, front, back) =
        append-split (frame m) p q (frames ms ++ rest) (e ∙ append_assoc (frame m) (frames ms) rest)
          (leb→le _ _ whole) in
      let inner = Cut-Cut ms c q rest sent.1 open_end back in
      record {
        done = m ∷ inner.done;
        later = inner.later;
        left = inner.left;
        parts = ap (λ l. m ∷ l) inner.parts;
        done_sent = (sent.0, inner.done_sent);
        later_sent = inner.later_sent;
        front =
            front
            ∙ ap (λ l. frame m ++ l) inner.front
            ∙ sym (append_assoc (frame m) (frames inner.done) inner.left);
        open_end = inner.open_end;
        back = inner.back;
      }
  | inr cut ↦
      let (c, front, back) =
        append-split p (frame m) (frames ms ++ rest) q
          (sym (append_assoc (frame m) (frames ms) rest) ∙ sym e) (ground arith) in
      let size = length-frame m in
      let sized = sent.0.sized in
      record {
        done = [];
        later = m ∷ ms;
        left = p;
        parts = refl;
        done_sent = tt;
        later_sent = sent;
        front = refl;
        open_end =
            open-front m.head m.body p c sent.0.fits (sym front) (omega arith) (ground arith);
        back = e;
      }
]

handle_all-append {ℓ} :
    {S : Type ℓ} (handle : Head → List ℕ → S → S) (ms ns : List Message) (s : S)
    → handle_all handle (ms ++ ns) s ≡ handle_all handle ns (handle_all handle ms s)
handle_all-append handle [] ns s = refl
handle_all-append handle (m ∷ ms) ns s = handle_all-append handle ms ns (handle m.head m.body s)

abbrev pub joined : List (Memory × Memory × List ℕ) → List ℕ
joined [] = []
joined ((_, _, chunk) ∷ chunks) = chunk ++ joined chunks

abbrev pub AllRead : List (Memory × Memory × List ℕ) → Type 0
AllRead [] = Unit {0}
AllRead ((_, _, chunk) ∷ chunks) = (length chunk ≤ 4096) × AllRead chunks

module _ {ℓ} {S : Type ℓ} (order : ByteOrder) (handle : Head → List ℕ → S → S) where
  -- `_sio_stream_read` for each chunk in turn, with the parsing as its callback. A chunk comes with
  -- the contents of the blocks that the reserve and the erase may allocate.
  unfoldable pub deliver : List (Memory × Memory × List ℕ) → Buffer → S → Option (Bool × Buffer × S)
  unfolding step
  deliver [] b s = some (true, b, s)
  deliver ((fresh, smaller, chunk) ∷ chunks) b s =
      elim (parse order handle smaller (step fresh (receive 4096 chunk) b) s) [
        | none ↦ none
        | some (ok, c, t) ↦ let rest = deliver chunks c t in if ok then rest else some (false, c, t)
      ]

  -- From a valid input that holds an incomplete message, chunks of at most 4096 bytes each that
  -- complete it to whole messages and an incomplete one (with right magic numbers and body
  -- lengths, and fewer than 2^32 bytes in all), each received and then parsed, are parsed with no
  -- error: every whole message is handled, once and in order, and the input is valid and holds the
  -- incomplete one, wherever the stream was cut.
  pub deliver-frames :
      (chunks : List (Memory × Memory × List ℕ)) (b : Buffer) (s : S) (ms : List Message)
      (front rest : List ℕ)
      → IsValid b
      → contents b ≡ front
      → Incomplete front
      → AllRead chunks
      → length front + length (joined chunks) + 4096 < 2 ^ 32
      → AllSent ms
      → Incomplete rest
      → front ++ joined chunks ≡ frames ms ++ rest
      → Parsed rest (handle_all handle ms s) (deliver chunks b s)
  unfolding deliver
  deliver-frames [] b s [] front rest v e open_front sizes small sent open_end all = record {
    buffer = b;
    returned = refl;
    valid = v;
    left = e ∙ sym (append-nil front) ∙ all;
  }
  deliver-frames [] b s (m ∷ ms) front rest v e open_front sizes small sent open_end all = absurd (
      frame-not-Incomplete m (frames ms ++ rest) sent.0
        (rw (sym (append-nil front) ∙ all ∙ append_assoc (frame m) (frames ms) rest) at open_front))
  deliver-frames ((fresh, smaller, chunk) ∷ chunks) b s ms front rest v e open_front sizes small
        sent open_end all =
      let sum = length-append chunk (joined chunks) in
      let filled = step fresh (receive 4096 chunk) b in
      let (valid, held) =
        step_refines fresh (receive 4096 chunk) b front v e (omega arith, sizes.0) in
      let cut =
        Cut-Cut ms (front ++ chunk) (joined chunks) rest sent open_end
          (append_assoc front chunk (joined chunks) ∙ all) in
      let size = ap length (held ∙ cut.front) in
      let first =
        parse-frames order handle smaller filled s cut.done cut.left valid
          (omega (arith, ap length held, length-append front chunk)) cut.done_sent
          (held ∙ cut.front) cut.open_end in
      let again =
        deliver-frames chunks first.buffer (handle_all handle cut.done s) cut.later cut.left rest
          first.valid first.left cut.open_end sizes.1
          (omega (
            arith,
            ap length cut.front,
            length-append (frames cut.done) cut.left,
            length-append front chunk,
          ))
          cut.later_sent open_end cut.back in
      record {
        buffer = again.buffer;
        returned =
            rw (first.returned, deliver)
              (again.returned
                ∙ ap (λ t. some (true, again.buffer, t))
                    (sym (
                      ap (λ l. handle_all handle l s) cut.parts
                      ∙ handle_all-append handle cut.done cut.later s)));
        valid = again.valid;
        left = again.left;
      }
