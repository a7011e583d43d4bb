-- ===== src/Rpc/Client/Choice.antt =====
-- simple_io/sio_rpc.c, `_sio_rpc_choose_upstream`: the choice of an upstream, by the fewest waiting requests.
use native.Mathlib.Nat.{mod-lt, le_trans}
use simple_kit.Base.{
  ℕ, zero, suc, ◌+◌, ◌-◌, ◌%◌, ◌^◌, ◌≤◌, ◌<◌, ◌≡◌, ◌⊎◌, refl, sym, ap, ◌∙◌, Bool, true, false,
  if◌then◌else◌, ◌==◌, ◌&&◌, Option, none, some, length, get_or, is_some, leb, leb→le, Bool-cases,
  inl, inr, arith, Option-cases, and_parts,
}
use simple_kit.Rpc.Parse.{add32}
use simple_kit.Rpc.Client.{Client, visited, choose_loop, choose_upstream, connect, set_at}
use simple_kit.Rpc.Client.Rotation.{rotation-meets}
use simple_kit.Stream.{Stream}

abbrev pub is_connected : Client → ℕ → Bool
is_connected c addr = is_some (c.at addr).stream

abbrev pub waiting : Client → ℕ → ℕ
waiting c addr = length (c.at addr).req_status

-- The loop's variables belong together.
abbrev Held : Client → ℕ → Option ℕ → Type 0
Held c min none = Unit {0}
Held c min (some a) =
    (is_connected c a ≡ true) × (waiting c a ≡ min) × ((i : ℕ) × (a ≡ visited c i))

module _ (c : Client) where
  choose_loop-Held :
      (n i min : ℕ) (best : Option ℕ)
      → Held c min best
      → Held c (choose_loop c n i min best).0 (choose_loop c n i min best).1
  unfolding choose_loop
  choose_loop-Held zero i min best h = h
  choose_loop-Held (suc n) i min best h =
      let test = is_connected c (visited c i) && leb (waiting c (visited c i)) min in
      elim (Bool-cases test) [
        | inl take ↦ rw take (
            choose_loop-Held n (i + 1) _ (some (visited c i))
              ((and_parts _ _ take).0, refl, (i, refl)))
        | inr pass ↦ rw pass (choose_loop-Held n (i + 1) min best h)
      ]

  -- The minimum only falls, and a choice stays one.
  choose_loop-falls :
      (n i min : ℕ) (best : Option ℕ)
      → ((choose_loop c n i min best).0 ≤ min)
        × (is_some best ≡ true → is_some (choose_loop c n i min best).1 ≡ true)
  unfolding choose_loop
  choose_loop-falls zero i min best = (omega arith, λ e. e)
  choose_loop-falls (suc n) i min best =
      let test = is_connected c (visited c i) && leb (waiting c (visited c i)) min in
      elim (Bool-cases test) [
        | inl take ↦
            let less : waiting c (visited c i) ≤ min = leb→le _ _ (and_parts _ _ take).1 in
            let (falls, stays) =
              choose_loop-falls n (i + 1) (waiting c (visited c i)) (some (visited c i)) in
            rw take (le_trans falls less, λ e. stays refl)
        | inr pass ↦ rw pass (choose_loop-falls n (i + 1) min best)
      ]

  -- A round that meets a connected upstream leaves no larger minimum.
  choose_loop-least :
      (n i min : ℕ) (best : Option ℕ) (k : ℕ)
      → k < n
      → is_connected c (visited c (i + k)) ≡ true
      → is_some best ≡ true ⊎ (waiting c (visited c (i + k)) ≤ min)
      → ((choose_loop c n i min best).0 ≤ waiting c (visited c (i + k)))
        × (is_some (choose_loop c n i min best).1 ≡ true)
  unfolding choose_loop
  choose_loop-least zero i min best k inside on fits = absurd (omega arith)
  choose_loop-least (suc n) i min best zero inside on fits =
      let same : i + 0 ≡ i = omega arith in
      let here : is_connected c (visited c i) ≡ true = rw same at on in
      let (falls, stays) =
        choose_loop-falls n (i + 1) (waiting c (visited c i)) (some (visited c i)) in
      rw same (elim (Bool-cases (leb (waiting c (visited c i)) min)) [
        | inl less ↦ rw (here, less) (falls, stays refl)
        | inr more ↦
            let above : min < waiting c (visited c i) = ground arith in
            let kept : is_some best ≡ true = elim fits [
              | inl e ↦ e
              | inr le ↦ absurd (omega (arith, rw same at le))
            ] in
            let (falls', stays') = choose_loop-falls n (i + 1) min best in
            rw (here, more) (omega arith, stays' kept)
      ])
  choose_loop-least (suc n) i min best (suc k) inside on fits =
      let same : i + suc k ≡ i + 1 + k = omega arith in
      rw same
        (elim (Bool-cases (is_connected c (visited c i) && leb (waiting c (visited c i)) min)) [
          | inl take ↦ rw take (
              choose_loop-least n (i + 1) _ (some (visited c i)) k (omega arith) (rw same at on)
                (inl refl))
          | inr pass ↦ rw pass (
              choose_loop-least n (i + 1) min best k (omega arith) (rw same at on)
                (rw same at fits))
        ])

-- The client after the counter's step.
abbrev pub turned : Client → Client
turned client = record client { rr_stream = add32 client.rr_stream 1 }

-- A connected upstream with the fewest waiting requests.
pub record Least (client : Client) (r : Option ℕ × Client) : Type 0 where
  pub addr : ℕ
  pub chosen : r.0 ≡ some addr
  pub kept : r.1 ≡ turned client
  pub member : (j : ℕ) × (j < length client.upstreams) × (addr ≡ get_or client.upstreams j 0)
  pub connected : is_connected client addr ≡ true
  pub least :
      (j : ℕ)
      → j < length client.upstreams
      → is_connected client (get_or client.upstreams j 0) ≡ true
      → waiting client addr ≤ waiting client (get_or client.upstreams j 0)

module _ (now : ℕ) (opened : Option Stream) (client : Client)
    (small : add32 client.rr_stream 1 + length client.upstreams ≤ 2 ^ 32)
    (counted : (a : ℕ) → waiting client a < 2 ^ 64) where
  abbrev last : ℕ × Option ℕ
  last = choose_loop (turned client) (length client.upstreams) 0 (2 ^ 64 - 1) none

  met :
      (j : ℕ)
      → j < length client.upstreams
      → is_connected client (get_or client.upstreams j 0) ≡ true
      → (last.0 ≤ waiting client (get_or client.upstreams j 0)) × (is_some last.1 ≡ true)
  met j inside on =
      let (i, round, here) =
        rotation-meets (add32 client.rr_stream 1) (length client.upstreams) j inside small in
      let same : visited (turned client) (0 + i) ≡ get_or client.upstreams j 0 =
        ap (λ x. get_or client.upstreams x 0)
          (ap (λ x. add32 (add32 client.rr_stream 1) x % length client.upstreams) (omega arith)
            ∙ here) in
      rw same at (
        choose_loop-least (turned client) (length client.upstreams) 0 (2 ^ 64 - 1) none i round
          (rw same on) (inr (omega (arith, counted (visited (turned client) (0 + i))))))

  -- If some upstream of the client is connected, the counter's next value plus the number of
  -- upstreams is at most 2^32, and every upstream has fewer than 2^64 waiting requests, then
  -- _sio_rpc_choose_upstream returns a connected upstream of the array such that no connected
  -- upstream of the array has fewer requests waiting, and changes nothing but the counter.
  pub choose_upstream-Least :
      (j : ℕ)
      → j < length client.upstreams
      → is_connected client (get_or client.upstreams j 0) ≡ true
      → Least client (choose_upstream now opened client)
  unfolding choose_upstream
  choose_upstream-Least j inside on =
      let held =
        choose_loop-Held (turned client) (length client.upstreams) 0 (2 ^ 64 - 1) none tt in
      elim (Option-cases last.1) [
        | inl nothing ↦ ground (arith, (met j inside on).1, nothing)
        | inr (addr, e) ↦
            let (on', size, (i, at_i)) = rw e at held in
            rw (e, choose_upstream)
              (record {
                addr = addr;
                chosen = refl;
                kept = refl;
                member = (
                  add32 (add32 client.rr_stream 1) i % length client.upstreams,
                  mod-lt (add32 (add32 client.rr_stream 1) i) (omega arith),
                  at_i,
                );
                connected = on';
                least = λ k less on_k. rw (sym size) at (met k less on_k).0;
              })
      ]

-- If the client has upstreams and none of them is connected, _sio_rpc_choose_upstream tries to
-- connect the one that the counter, stepped, points at, returns it if that works and NULL if not,
-- and changes nothing else.
pub choose_upstream-idle :
    (now : ℕ) (opened : Option Stream) (client : Client)
    → 0 < length client.upstreams
    → ((j : ℕ)
        → j < length client.upstreams
        → is_connected client (get_or client.upstreams j 0) ≡ false)
    → let c = turned client in
      let addr = get_or c.upstreams (c.rr_stream % length c.upstreams) 0 in
      choose_upstream now opened client ≡ (
        if is_some opened then some addr else none,
        set_at c addr (connect now opened (c.at addr)).1,
      )
unfolding choose_upstream connect
choose_upstream-idle now opened client some_there idle =
    let held = choose_loop-Held (turned client) (length client.upstreams) 0 (2 ^ 64 - 1) none tt in
    let filled : length client.upstreams == 0 ≡ false = ground arith in
    elim (Option-cases
      (choose_loop (turned client) (length client.upstreams) 0 (2 ^ 64 - 1) none).1) [
        | inl nothing ↦ rw (nothing, choose_upstream, filled) refl
        | inr (addr, e) ↦
            let (on, size, (i, at_i)) = rw e at held in
            let off =
              idle (add32 (add32 client.rr_stream 1) i % length client.upstreams)
                (mod-lt (add32 (add32 client.rr_stream 1) i) some_there) in
            absurd (ground (arith, on, rw (sym at_i) at off))
      ]
