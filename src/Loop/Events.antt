-- ===== src/Loop/Events.antt =====
-- simple_io/sio_epoll.c: while the events of a round are handled, what `sio_del` takes away stays
-- allocated and is not called any more.
use simple_kit.Base.{
  ℕ, ◌≡◌, refl, sym, Bool, true, false, ◌&&◌, not, ◌==◌, if◌then◌else◌, List, [], ◌∷◌, arith,
  Bool-cases, inl, inr,
}
use mathlib.Core.Path.{subst}
use simple_kit.Skiplist.Run.{has}
use simple_kit.Loop.{Sio, Event, Call, on_fd, Action, assign}
use simple_kit.Loop.Round.{Ready, release, callback, notify, dispatch, dispatch_all}
use simple_kit.Loop.Kept.{AllAllowed, IsLooping, Kept, Kept-refl, Kept-trans, perform_all-Kept}

-- The end of the round frees what has been put off, and nothing else.
release_lem :
    (deferred : List ℕ) (live : ℕ → Bool) (x : ℕ)
    → release deferred live x ≡ (live x && not (has x deferred))
unfolding release
release_lem [] live x = ground arith
release_lem (sfd ∷ deferred) live x = ground (arith, release_lem deferred (assign live sfd false) x)

-- The callbacks of a round, one after the other. Each is of an `sio_fd` that is not taken away when
-- it is called; and from the state that it leaves to the end of the round, what is allocated stays
-- so, and what is taken away by then stays so and is not called.
pub data Calls (user : List Call → Sio → List Action) : Sio → Sio → Type 0 where
  no_more : {s : Sio} → Calls user s s
  calls :
      {s r : Sio} (sfd : ℕ) (event : Event)
      → (s.fds sfd).is_del ≡ false
      → Kept (notify user sfd event s) r
      → Calls user (notify user sfd event s) r
      → Calls user s r

module _ (user : List Call → Sio → List Action)
    (allowed : (call : Call) (s : Sio)
      → AllAllowed (user (call ∷ s.calls) s) (record s { calls = call ∷ s.calls })) where
  notify-Kept :
      (sfd : ℕ) (event : Event) (s : Sio)
      → IsLooping s
      → (s.fds sfd).is_del ≡ false
      → Kept s (notify user sfd event s)
  unfolding callback
  notify-Kept sfd event s good still =
      let f = s.fds sfd in
      let call = on_fd sfd f.fd event f.user_callback f.user_arg in
      let noted = record s { calls = call ∷ s.calls } in
      let good' : IsLooping noted = record {
        looping = good.looping;
        gone = good.gone;
        once = good.once;
        fits = good.fits;
      } in
      let first : Kept s noted = record {
        good = good';
        live = λ x p. p;
        gone = λ x p q. q;
        silent = λ x p q.
            let other : sfd == x ≡ false = elim (Bool-cases (sfd == x)) [
              | inl here ↦
                  let e : sfd ≡ x = ground arith in
                  let f : (s.fds x).is_del ≡ false = rw e at still in cc
              | inr past ↦ past
            ] in
            rw other refl;
      } in
      Kept-trans s noted _ first (perform_all-Kept _ noted good' (allowed call s))

  -- The callbacks of one stretch, and those behind.
  Calls-trans : {s t r : Sio} → Calls user s t → Kept t r → Calls user t r → Calls user s r
  Calls-trans no_more kept behind = behind
  Calls-trans {t = t} {r = r} (calls sfd event still between rest) kept behind =
      calls sfd event still (Kept-trans _ t r between kept) (Calls-trans rest kept behind)

  -- A stretch of a round.
  abbrev Stretch : Sio → Sio → Type 0
  Stretch s r = Kept s r × Calls user s r

  Stretch-trans : (s t r : Sio) → Stretch s t → Stretch t r → Stretch s r
  Stretch-trans s t r (one, first) (two, second) =
      (Kept-trans s t r one two, Calls-trans first two second)

  when-Stretch :
      (test : Bool) (sfd : ℕ) (event : Event) (s : Sio)
      → IsLooping s
      → (test ≡ true → (s.fds sfd).is_del ≡ false)
      → Stretch s (if test then notify user sfd event s else s)
  when-Stretch true sfd event s good still =
      let kept = notify-Kept sfd event s good (still refl) in
      (kept, calls sfd event (still refl) (Kept-refl (notify user sfd event s) kept.good) no_more)
  when-Stretch false sfd event s good still = (Kept-refl s good, no_more)

  dispatch-Stretch : (r : Ready) (s : Sio) → IsLooping s → Stretch s (dispatch user r s)
  unfolding dispatch
  dispatch-Stretch r s good = elim (Bool-cases (s.fds r.sfd).is_del) [
    | inl taken ↦ rw taken (Kept-refl s good, no_more)
    | inr still ↦
        let test = r.input && (s.fds r.sfd).watch_read in
        let s1 = if test then notify user r.sfd Event.read s else s in
        let one : Stretch s s1 = when-Stretch test r.sfd Event.read s good (λ e. still) in
        let test1 = not (s1.fds r.sfd).is_del && r.output && (s1.fds r.sfd).watch_write in
        let s2 = if test1 then notify user r.sfd Event.write s1 else s1 in
        let two : Stretch s1 s2 =
          when-Stretch test1 r.sfd Event.write s1 one.0.good (λ e. ground arith) in
        let test2 = not (s2.fds r.sfd).is_del && r.failed in
        let three = when-Stretch test2 r.sfd Event.error s2 two.0.good (λ e. ground arith) in
        let whole : Stretch s (if test2 then notify user r.sfd Event.error s2 else s2) =
          Stretch-trans s s2 _ (Stretch-trans s s1 s2 one two) three in
        subst
          (λ b.
            Stretch s (if b then s else (if test2 then notify user r.sfd Event.error s2 else s2)))
          (sym still) whole
  ]

  dispatch_all-Stretch :
      (rs : List Ready) (s : Sio) → IsLooping s → Stretch s (dispatch_all user rs s)
  unfolding dispatch_all
  dispatch_all-Stretch [] s good = (Kept-refl s good, no_more)
  dispatch_all-Stretch (r ∷ rs) s good =
      let one = dispatch-Stretch r s good in
      Stretch-trans s (dispatch user r s) _ one
        (dispatch_all-Stretch rs (dispatch user r s) one.0.good)

  -- In the loop over the events, and with callbacks that only take away what is there and a calloc
  -- that gives addresses not in use, every sio_fd that is allocated stays so for all events of the
  -- round; every callback is of one that has not been taken away when it is called, and one that a
  -- callback has taken away is not called for the rest of the round, by later events of its own or
  -- of others; what is put off fits the array and is in it once; and the frees behind the loop
  -- free exactly what has been taken away.
  pub round-Kept :
      (rs : List Ready) (s : Sio)
      → IsLooping s
      → let r = dispatch_all user rs s in
        Kept s r
        × Calls user s r
        × ((x : ℕ) → release r.deferred r.live x ≡ (r.live x && not (r.fds x).is_del))
  round-Kept rs s good =
      let (kept, made) = dispatch_all-Stretch rs s good in
      let r = dispatch_all user rs s in
      (kept, made, λ x. ground (arith, release_lem r.deferred r.live x, kept.good.gone x))
