-- ===== src/Health/Monitor.antt =====
-- What the heartbeat monitor of firmware/src/sonar_health.c guarantees.
use air_born_sonar.Common.{
  ℕ, suc, ◌+◌, ◌≤◌, ◌<◌, ◌≡◌, ◌∙◌, refl, ◌⊎◌, true, false, none, some, List, [], ◌∷◌, arith, u32,
  sub32, i32_max,
}
use air_born_sonar.Health.{
  waiting, running, Heartbeat, Health, faulted, init, accept, poll, queue_fault,
}

-- What holds of a monitor that `init` accepted.
pub record IsValid (h : Health) : Type 0 where
  pub timeout_pos : 0 < h.timeout
  pub wrap_safe : h.timeout ≤ i32_max
  pub counted : h.received ≡ h.next_sequence
  pub sequence_in : h.next_sequence < 4294967296
  pub tick_in : h.last_tick < 4294967296

-- One event of the supervisor's loop.
pub data Event : Type 0 where
  beat : Heartbeat → ℕ → Event
  null_beat : ℕ → Event
  poll_at : ℕ → Event
  queue_full : Event

abbrev pub step : Health → Event → Health
step h (beat b now) = accept h (some b) now
step h (null_beat now) = accept h none now
step h (poll_at now) = poll h now
step h queue_full = queue_fault h

abbrev pub run : Health → List Event → Health
run h [] = h
run h (e ∷ es) = run (step h e) es

-- `init` accepts exactly the timeouts 1 .. 2^31 - 1, and then leaves a valid monitor that waits.
pub monitor_init-IsValid :
    (now timeout : ℕ)
    → now < 4294967296
    → let (h, ok) = init now timeout in
      (ok ≡ true) × IsValid h × (h.state ≡ waiting)
      ⊎ (ok ≡ false) × (faulted h.state ≡ true) × ((timeout ≡ 0) ⊎ (i32_max < timeout))
unfolding init
monitor_init-IsValid now timeout lt = ground arith

-- What a monitor may become by a heartbeat: it is accepted, or there is a fault and no progress.
abbrev pub IsAccepted : Health → Heartbeat → ℕ → Health → Type 0
IsAccepted h b now h' =
    (faulted h.state ≡ false)
    × (b.sequence ≡ h.next_sequence)
    × (sub32 now h.last_tick < h.timeout)
    × (sub32 now b.tick < h.timeout)
    × (sub32 b.tick h.last_tick < h.timeout)
    × (h' ≡ record h {
      state = running;
      last_tick = b.tick;
      next_sequence = u32 (h.next_sequence + 1);
      received = u32 (h.received + 1);
    })

abbrev pub IsRefused : Health → Health → Type 0
IsRefused h h' =
    (faulted h'.state ≡ true)
    × (h'.last_tick ≡ h.last_tick)
    × (h'.next_sequence ≡ h.next_sequence)
    × (h'.received ≡ h.received)

-- A heartbeat is either accepted or leaves a fault. It is accepted only if the monitor has no fault,
-- the heartbeat is the next in sequence, and it is younger than the timeout, both now and as seen
-- from the last one, which is itself younger than the timeout now; the clock and the counters then
-- move on. Otherwise the monitor has a fault, and clock and counters stay.
pub accept_lem :
    (h : Health) (b : Heartbeat) (now : ℕ)
    → IsAccepted h b now (accept h (some b) now) ⊎ IsRefused h (accept h (some b) now)
unfolding accept
accept_lem h b now = ground arith

-- A poll that leaves the monitor without a fault proves that the last accepted heartbeat is younger
-- than the timeout: no stall of `timeout` ticks passes unnoticed.
pub poll_notices :
    (h : Health) (now : ℕ)
    → faulted (poll h now).state ≡ false
    → (poll h now ≡ h) × (sub32 now h.last_tick < h.timeout)
unfolding poll
poll_notices h now ok = ground arith

abbrev TickOk : Event → Type 0
TickOk (beat b now) = b.tick < 4294967296
TickOk _ = Unit

step-IsValid : (h : Health) (e : Event) → TickOk e → IsValid h → IsValid (step h e)
unfolding accept poll queue_fault
step-IsValid h (beat b now) t v = ground arith
step-IsValid h (null_beat now) t v = ground arith
step-IsValid h (poll_at now) t v = ground arith
step-IsValid h queue_full t v = ground arith

step-faulted : (h : Health) (e : Event) → faulted h.state ≡ true → step h e ≡ h
unfolding accept poll queue_fault
step-faulted h (beat b now) f = ground arith
step-faulted h (null_beat now) f = ground arith
step-faulted h (poll_at now) f = ground arith
step-faulted h queue_full f = ground arith

-- A fault is latched: no event changes a monitor that has one.
pub run-faulted : (es : List Event) (h : Health) → faulted h.state ≡ true → run h es ≡ h
run-faulted [] h f = refl
run-faulted (e ∷ es) h f = rw (step-faulted h e f, run) (run-faulted es h f)

abbrev pub accepted : List Event → ℕ
accepted [] = 0
accepted (beat b now ∷ es) = suc (accepted es)
accepted (_ ∷ es) = accepted es

step_counts :
    (h : Health) (e : Event) (es : List Event)
    → faulted (step h e).state ≡ false
    → (faulted h.state ≡ false)
      × (u32 ((step h e).received + accepted es) ≡ u32 (h.received + accepted (e ∷ es)))
unfolding accept poll queue_fault
step_counts h (beat b now) es f = ground arith
step_counts h (null_beat now) es f = ground arith
step_counts h (poll_at now) es f = ground arith
step_counts h queue_full es f = ground arith

live_before :
    (es : List Event) (h : Health) → faulted (run h es).state ≡ false → faulted h.state ≡ false
live_before [] h f = f
live_before (e ∷ es) h f = (step_counts h e es (live_before es (step h e) f)).0

-- No heartbeat is lost without a fault: as long as the monitor has none, the number that it has
-- accepted has grown, modulo 2^32, by the number of heartbeats among the events.
run_counts :
    (es : List Event) (h : Health)
    → faulted (run h es).state ≡ false
    → u32 (run h es).received ≡ u32 (h.received + accepted es)
run_counts [] h f = omega arith
run_counts (e ∷ es) h f =
    run_counts es (step h e) f ∙ (step_counts h e es (live_before es (step h e) f)).1
