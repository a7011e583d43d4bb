-- ===== src/Loop/Timers.antt =====
-- simple_io/sio_epoll.c: the expired timers, and the time to wait for the next one.
use simple_kit.Base.{
  ℕ, zero, suc, ◌+◌, ◌-◌, ◌≤◌, ◌≡◌, ◌⊎◌, inl, inr, refl, ap, ◌∙◌, true, false, ◌&&◌, not, ◌==◌, leb,
  none, some, if◌then◌else◌, List, [], ◌∷◌, arith, Bool-cases,
}
use simple_kit.Timer.{Manager}
use simple_kit.Timer
use simple_kit.Timer.Order.{IsValid, member}
use simple_kit.Timer.Calls.{Popped, pop_lem}
use simple_kit.Loop.{
  Sio, Call, on_fd, on_timer, Action, adds, sets, dels, watches_write, watches_read, starts, stops,
  perform, perform_all, add, set, del, watch_events, set_watch_write, set_watch_read,
}
use simple_kit.Loop.Round.{callback, timer_loop, timer_run, calc_timeout}

-- An action that leaves the timers alone.
abbrev pub IsQuiet : Action → Type 0
IsQuiet (starts now timer timeout_ms callback arg) = ⊥
IsQuiet (stops timer) = ⊥
IsQuiet _ = Unit {0}

abbrev pub AllQuiet : List Action → Type 0
AllQuiet [] = Unit {0}
AllQuiet (a ∷ actions) = IsQuiet a × AllQuiet actions

-- How often a timer's callback has been called.
abbrev pub fires : ℕ → List Call → ℕ
fires t [] = 0
fires t (on_fd sfd fd event callback arg ∷ calls) = fires t calls
fires t (on_timer timer callback arg ∷ calls) =
    if timer == t then suc (fires t calls) else fires t calls

perform-IsQuiet :
    (a : Action) (s : Sio)
    → IsQuiet a
    → ((perform a s).st_mgr ≡ s.st_mgr) × ((perform a s).calls ≡ s.calls)
unfolding perform add set del watch_events set_watch_write set_watch_read
perform-IsQuiet (adds sfd fd callback arg true) s quiet = (refl, refl)
perform-IsQuiet (adds sfd fd callback arg false) s quiet = (refl, refl)
perform-IsQuiet (sets sfd callback arg) s quiet = (refl, refl)
perform-IsQuiet (dels sfd) s quiet = elim (Bool-cases s.is_in_loop) [
  | inl inside ↦ rw inside (refl, refl)
  | inr outside ↦ rw outside (refl, refl)
]
perform-IsQuiet (watches_write on sfd) s quiet = (refl, refl)
perform-IsQuiet (watches_read on sfd) s quiet = (refl, refl)
perform-IsQuiet (starts now timer timeout_ms callback arg) s quiet = absurd quiet
perform-IsQuiet (stops timer) s quiet = absurd quiet

perform_all-AllQuiet :
    (actions : List Action) (s : Sio)
    → AllQuiet actions
    → ((perform_all actions s).st_mgr ≡ s.st_mgr) × ((perform_all actions s).calls ≡ s.calls)
unfolding perform_all
perform_all-AllQuiet [] s quiet = (refl, refl)
perform_all-AllQuiet (a ∷ actions) s (quiet, rest) =
    let (m, c) = perform_all-AllQuiet actions (perform a s) rest in
    let (m', c') = perform-IsQuiet a s quiet in (m ∙ m', c ∙ c')

-- What is left when the timers of a valid heap that have expired have been called.
pub record Fired (now : ℕ) (s r : Sio) : Type 0 where
  pub valid : IsValid r.st_mgr
  pub members :
      (a : ℕ) → member r.st_mgr a ≡ (member s.st_mgr a && not (leb (s.st_mgr.expire a) now))
  pub fired :
      (a : ℕ)
      → fires a r.calls ≡ (
          if member s.st_mgr a && leb (s.st_mgr.expire a) now
          then suc (fires a s.calls)
          else fires a s.calls)
  pub expire : r.st_mgr.expire ≡ s.st_mgr.expire

module _ (user : List Call → Sio → List Action) where
  pub timer_loop-none :
      (rounds now : ℕ) (s : Sio) → Timer.top s.st_mgr ≡ none → timer_loop user rounds now s ≡ s
  unfolding timer_loop
  timer_loop-none zero now s e = refl
  timer_loop-none (suc rounds) now s e = rw (e, timer_loop) refl

  pub timer_loop-early :
      (rounds now t : ℕ) (s : Sio)
      → Timer.top s.st_mgr ≡ some t
      → leb (s.st_mgr.expire t) now ≡ false
      → timer_loop user rounds now s ≡ s
  unfolding timer_loop
  timer_loop-early zero now t s e early = refl
  timer_loop-early (suc rounds) now t s e early = rw (e, timer_loop, early) refl

  abbrev pub called : ℕ → Sio → Sio
  called t s =
      callback user (on_timer t (s.timer_callback t) (s.timer_arg t))
        (record s { st_mgr = (Timer.pop s.st_mgr).1 })

  pub timer_loop-due :
      (rounds now t : ℕ) (s : Sio)
      → Timer.top s.st_mgr ≡ some t
      → leb (s.st_mgr.expire t) now ≡ true
      → timer_loop user (suc rounds) now s ≡ timer_loop user rounds now (called t s)
  unfolding timer_loop
  timer_loop-due rounds now t s e due = rw (e, timer_loop, due) refl

  module _ (quiet : (calls : List Call) (s : Sio) → AllQuiet (user calls s)) where
    called_lem :
        (t : ℕ) (s : Sio)
        → ((called t s).st_mgr ≡ (Timer.pop s.st_mgr).1)
          × ((called t s).calls ≡ on_timer t (s.timer_callback t) (s.timer_arg t) ∷ s.calls)
    unfolding callback
    called_lem t s = perform_all-AllQuiet _ _ (quiet _ _)

    -- One timer called, and the rest.
    Fired-step :
        (now t : ℕ) (s r : Sio)
        → Popped s.st_mgr t (Timer.pop s.st_mgr)
        → leb (s.st_mgr.expire t) now ≡ true
        → Fired now (called t s) r
        → Fired now s r
    Fired-step now t s r p due rest =
        let (m, c) = called_lem t s in
        let times : (a : ℕ) → (called t s).st_mgr.expire a ≡ s.st_mgr.expire a =
          λ a. ap (λ z. z.expire a) m ∙ ap (λ f. f a) p.removed.expire in
        let left : (a : ℕ)
            → member (called t s).st_mgr a ≡ (if t == a then false else member s.st_mgr a) =
          λ a. ap (λ z. member z a) m ∙ p.removed.members a in
        let again : (a : ℕ)
            → fires a (called t s).calls
              ≡ (if t == a then suc (fires a s.calls) else fires a s.calls) =
          λ a. ap (λ z. fires a z) c in
        let same : (a : ℕ)
            → t == a ≡ true
            → (member s.st_mgr a ≡ true) × (leb (s.st_mgr.expire a) now ≡ true) =
          λ a here. let e : t ≡ a = ground arith in (rw e at p.held, rw e at due) in
        record {
          valid = rest.valid;
          members = λ a. elim (Bool-cases (t == a)) [
            | inl here ↦ ground (arith, rest.members a, times a, left a, same a here)
            | inr other ↦ ground (arith, rest.members a, times a, left a)
          ];
          fired = λ a. elim (Bool-cases (t == a)) [
            | inl here ↦ ground (arith, rest.fired a, times a, left a, again a, same a here)
            | inr other ↦ ground (arith, rest.fired a, times a, left a, again a)
          ];
          expire = rest.expire ∙ ap (λ z. z.expire) m ∙ p.removed.expire;
        }

    Fired-none : (now : ℕ) (s : Sio) → IsValid s.st_mgr → s.st_mgr.heap_length ≡ 0 → Fired now s s
    Fired-none now s valid empty = record {
      valid = valid;
      members = λ a. ground arith;
      fired = λ a. ground arith;
      expire = refl;
    }

    Fired-early :
        (now t : ℕ) (s : Sio)
        → IsValid s.st_mgr
        → Popped s.st_mgr t (Timer.pop s.st_mgr)
        → leb (s.st_mgr.expire t) now ≡ false
        → Fired now s s
    Fired-early now t s valid p early = record {
      valid = valid;
      members = λ a. ground (arith, p.earliest a);
      fired = λ a. ground (arith, p.earliest a);
      expire = refl;
    }

    timer_loop-Fired :
        (rounds now : ℕ) (s : Sio)
        → IsValid s.st_mgr
        → s.st_mgr.heap_length ≤ rounds
        → Fired now s (timer_loop user rounds now s)
    timer_loop-Fired zero now s valid enough = elim (pop_lem s.st_mgr valid) [
      | inl (empty, popped, top) ↦ rw (timer_loop-none 0 now s top) (Fired-none now s valid empty)
      | inr (t, p) ↦ let l = p.removed.length in absurd (omega arith)
    ]
    timer_loop-Fired (suc rounds) now s valid enough = elim (pop_lem s.st_mgr valid) [
      | inl (empty, popped, top) ↦
          rw (timer_loop-none (suc rounds) now s top) (Fired-none now s valid empty)
      | inr (t, p) ↦ elim (Bool-cases (leb (s.st_mgr.expire t) now)) [
        | inr early ↦
            rw (timer_loop-early (suc rounds) now t s p.seen early)
              (Fired-early now t s valid p early)
        | inl due ↦
            let (m, c) = called_lem t s in
            let l = p.removed.length in
            rw (timer_loop-due rounds now t s p.seen due) (
              Fired-step now t s _ p due (
                timer_loop-Fired rounds now (called t s) (rw m p.removed.valid)
                  (rw m (omega arith))))
      ]
    ]

    -- On a valid heap of timers and with callbacks that start and stop no timer, _sio_timer_run
    -- calls the callback of every timer that has expired once, and of no other timer, and leaves a
    -- valid heap of exactly the timers that have not expired, with no time changed.
    pub timer_run-Fired :
        (now : ℕ) (s : Sio) → IsValid s.st_mgr → Fired now s (timer_run user now s)
    unfolding timer_run
    timer_run-Fired now s valid =
        timer_loop-Fired (Timer.size s.st_mgr) now s valid (unfold Timer.size in omega arith)

-- The time that the loop waits.
abbrev pub Waits : ℕ → Sio → ℕ → Type 0
Waits now s timeout =
    (timeout ≤ 1000)
    × ((a : ℕ) → member s.st_mgr a ≡ true → (timeout ≡ 0) ⊎ (now + timeout ≤ s.st_mgr.expire a))
    × ((timeout ≡ 1000)
        ⊎ ((a : ℕ) × (member s.st_mgr a ≡ true) × (s.st_mgr.expire a ≤ now + timeout)))

-- On a valid heap of timers, _sio_calc_timeout gives at most 1000 ms; it is 0 or ends no later
-- than any timer expires; and if it is not 1000 some timer has expired at its end.
pub calc_timeout-Waits : (now : ℕ) (s : Sio) → IsValid s.st_mgr → Waits now s (calc_timeout now s)
unfolding calc_timeout
calc_timeout-Waits now s valid = elim (pop_lem s.st_mgr valid) [
  | inl (empty, popped, top) ↦
      rw (top, calc_timeout) (omega arith, λ a m. absurd (ground arith), inl refl)
  | inr (t, p) ↦
      rw (p.seen, calc_timeout)
        (elim (Bool-cases (leb (s.st_mgr.expire t) now)) [
          | inl due ↦ rw due (omega arith, λ a m. inl refl, inr (t, p.held, ground arith))
          | inr early ↦ elim (Bool-cases (leb 1000 (s.st_mgr.expire t - now))) [
            | inl long ↦
                rw (early, long)
                  (omega arith, λ a m. inr (ground (arith, p.earliest a m)), inl refl)
            | inr short ↦
                rw (early, short)
                  (
                    ground arith,
                    λ a m. inr (ground (arith, p.earliest a m)),
                    inr (t, p.held, ground arith),
                  )
          ]
        ])
]
