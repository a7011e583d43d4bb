-- ===== src/Loop/Start.antt =====
-- simple_io/sio_epoll.c, `sio_start_timer`: a timer that is started is called in its time.
use simple_kit.Base.{
  ℕ, suc, ◌+◌, ◌/◌, ◌^◌, ◌≤◌, ◌<◌, ◌≡◌, sym, ap, ◌∙◌, true, false, not, ◌==◌, leb, if◌then◌else◌,
  List, arith, Bool-cases, inl, inr,
}
use simple_kit.Base.Words.{add64}
use simple_kit.Timer.{Manager, update}
use simple_kit.Timer.Order.{IsValid, member}
use simple_kit.Timer.Calls.{insert-Inserted}
use simple_kit.Loop.{Sio, Call, Action, start_timer}
use simple_kit.Loop.Round.{timer_run}
use simple_kit.Loop.Timers.{AllQuiet, fires, timer_run-Fired}

-- The time of a timer that is not in the heap does not matter to it.
outside-IsValid :
    (m : Manager) (t time : ℕ)
    → IsValid m
    → member m t ≡ false
    → IsValid (record m { expire = update m.expire t time })
outside-IsValid m t time v out =
    let other : (i : ℕ) → 1 ≤ i → i ≤ m.heap_length → t == m.heap_nodes i ≡ false = λ i p q.
      elim (Bool-cases (t == m.heap_nodes i)) [
        | inl here ↦
            let e : t ≡ m.heap_nodes i = ground arith in
            let place : m.index t ≡ i = ap m.index e ∙ v.linked i p q in
            let held : m.heap_nodes (m.index t) ≡ t = ap m.heap_nodes place ∙ sym e in
            absurd (ground arith)
        | inr past ↦ past
      ] in
    record {
      sized = record { room = v.sized.room; small = v.sized.small };
      linked = v.linked;
      heap = λ c p q.
          rw (other c (omega arith) q, other (c / 2) (omega arith) (omega arith)) (v.heap c p q);
    }

-- When sio_start_timer starts a timer that is not in the valid heap, the next _sio_timer_run, at
-- any later time, calls it once if its time, the clock plus the timeout, has come, and else leaves
-- it in the heap uncalled, if the heap has room, the time fits 64 bits, and callbacks start and
-- stop no timer.
pub start_timer-fires :
    (user : List Call → Sio → List Action) (now timer timeout_ms callback arg later : ℕ) (s : Sio)
    → ((calls : List Call) (z : Sio) → AllQuiet (user calls z))
    → IsValid s.st_mgr
    → s.st_mgr.heap_length + 1 < 2 ^ 61
    → member s.st_mgr timer ≡ false
    → now + timeout_ms < 2 ^ 64
    → let r = timer_run user later (start_timer now timer timeout_ms callback arg s) in
      (fires timer r.calls
        ≡ (if leb (now + timeout_ms) later then suc (fires timer s.calls) else fires timer s.calls))
      × (member r.st_mgr timer ≡ not (leb (now + timeout_ms) later))
unfolding start_timer
start_timer-fires user now timer timeout_ms callback arg later s quiet valid fits out no_wrap =
    let time : add64 now timeout_ms ≡ now + timeout_ms = omega arith in
    let m = record (s.st_mgr) { expire = update s.st_mgr.expire timer (add64 now timeout_ms) } in
    let put = insert-Inserted m timer (outside-IsValid s.st_mgr timer _ valid out) fits out in
    let started = start_timer now timer timeout_ms callback arg s in
    let ran = timer_run-Fired user quiet later started put.valid in
    let due : started.st_mgr.expire timer ≡ now + timeout_ms =
      ap (λ f. f timer) put.expire ∙ ground (arith, time) in
    let held : member started.st_mgr timer ≡ true = put.members timer ∙ ground arith in
    (ground (arith, ran.fired timer, due, held), ground (arith, ran.members timer, due, held))
