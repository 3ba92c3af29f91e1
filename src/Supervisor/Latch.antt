-- ===== src/Supervisor/Latch.antt =====
-- What stops the supervisor of firmware/src/sonar_supervisor.c, and what starts it.
use air_born_sonar.Common.{
  ℕ, ◌+◌, ◌<◌, ◌≡◌, refl, sym, Bool, true, false, List, [], ◌∷◌, Option, none, some, arith,
  if◌then◌else◌, sub32, u32, ◌∙◌,
}
use air_born_sonar.Config.{Config, Timing, validate}
use air_born_sonar.Config.Ticks.{validate-IsTiming}
use air_born_sonar.Health.{Heartbeat, Health, faulted, accept, poll, queue_fault}
use air_born_sonar.Supervisor.{
  watching, latched, Supervisor, heartbeat, first_of, rest_of, accept_received, monitored,
  watch_round, watch_step, supervise, rtos_create,
}
use air_born_sonar.Supervisor.Order.{Event, beat, watch, step, run}

-- What a round has accepted: the heartbeat that it received, which is the next one in sequence, or none,
-- and then the last one is still that of the round before.
abbrev pub Follows : Health → Option Heartbeat → Health → Type 0
Follows h none h' = (h'.last_tick ≡ h.last_tick) × (h'.next_sequence ≡ h.next_sequence)
Follows h (some e) h' =
    (e.sequence ≡ h.next_sequence)
    × (h'.last_tick ≡ e.tick)
    × (h'.next_sequence ≡ u32 (h.next_sequence + 1))

-- The outcome of a round at the tick `now`, for the monitor `h`: it stops for good and inhibits new work, or
-- no heartbeat was dropped, the one at the head of the queue was taken and accepted, if there was one, and
-- the last one that is accepted is younger than the timeout.
pub data Outcome (s : Supervisor) (h : Health) (now : ℕ) (s' : Supervisor) : Type 0 where
  stops :
      (h' : Health)
      → s'.watch ≡ latched h'
      → faulted h'.state ≡ true
      → s'.inhibited ≡ true
      → Outcome s h now s'
  goes_on :
      (h' : Health) (announced : Bool) (last_report : ℕ)
      → s'.watch ≡ watching h' announced last_report
      → s.queue_failed ≡ false
      → s'.queue ≡ rest_of s.queue
      → Follows h (first_of s.queue) h'
      → h'.timeout ≡ h.timeout
      → sub32 now h'.last_tick < h.timeout
      → Outcome s h now s'

-- What a round promises if it leaves no fault.
abbrev Promises : Bool → Health → Option Heartbeat → ℕ → Health → Type 0
Promises overflow h received now h' =
    (overflow ≡ false) × Follows h received h' × (sub32 now h'.last_tick < h.timeout)

monitored_lem :
    (overflow : Bool) (h : Health) (received : Option Heartbeat) (now : ℕ)
    → let h' = monitored overflow h received now in
      (h'.timeout ≡ h.timeout) × (faulted h'.state ≡ false → Promises overflow h received now h')
unfolding monitored accept_received poll queue_fault accept
monitored_lem overflow h none now = ground arith
monitored_lem overflow h (some e) now = ground arith

either-Outcome :
    (bad due : Bool) (s₀ s : Supervisor) (h h' : Health) (announced : Bool) (last_report now : ℕ)
    → faulted h'.state ≡ bad
    → h'.timeout ≡ h.timeout
    → s.queue ≡ rest_of s₀.queue
    → (bad ≡ false → Promises s₀.queue_failed h (first_of s₀.queue) now h')
    → Outcome s₀ h now (
        if bad
        then record s { watch = latched h'; inhibited = true }
        else if due
        then record s { watch = watching h' true now; reports = s.reports + 1 }
        else record s { watch = watching h' announced last_report })
either-Outcome true due s₀ s h h' announced last_report now f t q k = stops h' refl f refl
either-Outcome false true s₀ s h h' announced last_report now f t q k =
    let (o, a, y) = k refl in goes_on h' true now refl o q a t y
either-Outcome false false s₀ s h h' announced last_report now f t q k =
    let (o, a, y) = k refl in goes_on h' announced last_report refl o q a t y

watch_round-Outcome :
    (h : Health) (announced : Bool) (last_report now : ℕ) (s : Supervisor)
    → Outcome s h now (watch_round h announced last_report now s)
unfolding watch_round
watch_round-Outcome h announced last_report now s =
    let h' = monitored s.queue_failed h (first_of s.queue) now in
    let s' = record s { queue = rest_of s.queue; restarts = s.restarts + 1 } in
    let (t, k) = monitored_lem s.queue_failed h (first_of s.queue) now in
    either-Outcome (faulted h'.state) _ s s' h h' announced last_report now refl t refl k

watch_round_restarts :
    (h : Health) (announced : Bool) (last_report now : ℕ) (s : Supervisor)
    → (watch_round h announced last_report now s).restarts ≡ s.restarts + 1
unfolding watch_round
watch_round_restarts h announced last_report now s = ground arith

-- Every round of the watching task restarts the watchdog and ends in one of two ways: it latches a fault
-- and inhibits new work, or no heartbeat was dropped, the next heartbeat of the queue, if there was one, is
-- accepted as the next in sequence, and the tick of the last accepted heartbeat, which is the tick that it
-- carries, or that of the rounds before, is younger than the timeout. No stall of the experiment task
-- passes a round unnoticed.
pub supervise-Outcome :
    (has_watchdog : Bool) (now : ℕ) (s : Supervisor) (h : Health) (announced : Bool)
    (last_report : ℕ)
    → s.watch ≡ watching h announced last_report
    → ((supervise has_watchdog now s).restarts ≡ s.restarts + 1)
      × Outcome s h now (supervise has_watchdog now s)
unfolding supervise watch_step
supervise-Outcome has_watchdog now s h announced last_report e =
    coe 0 1
      (i.
        let s' = watch_step has_watchdog now (sym e i) s in
        (s'.restarts ≡ s.restarts + 1) × Outcome s h now s')
      (
        watch_round_restarts h announced last_report now s,
        watch_round-Outcome h announced last_report now s,
      )

step-latched :
    (e : Event) (s : Supervisor) (h : Health)
    → s.watch ≡ latched h
    → ((step e s).watch ≡ latched h) × ((step e s).inhibited ≡ s.inhibited)
unfolding heartbeat supervise watch_step
step-latched (beat now) s h l = ground arith
step-latched (watch has_watchdog now) s h l =
    coe 0 1
      (i.
        let s' = watch_step has_watchdog now (sym l i) s in
        (s'.watch ≡ latched h) × (s'.inhibited ≡ s.inhibited))
      (refl, refl)

-- A fault lasts until the reset: whatever the two tasks do after it, the monitor and the inhibition stay.
run-latched :
    (es : List Event) (s : Supervisor) (h : Health)
    → s.watch ≡ latched h
    → ((run es s).watch ≡ latched h) × ((run es s).inhibited ≡ s.inhibited)
run-latched [] s h l = (l, refl)
run-latched (e ∷ es) s h l =
    let (k, i) = step-latched e s h l in let (m, j) = run-latched es (step e s) h k in (m, j ∙ i)

-- The supervisor accepts every timing that the configuration has validated, once: the next call is
-- refused, whatever its argument is.
rtos_create-accepts :
    (config : Config) (tick_hz : ℕ) (t : Timing) (other : Option Timing)
    → validate config tick_hz ≡ some t
    → let (attempted, ok) = rtos_create false (some t) true true in
      (ok ≡ true) × (rtos_create attempted other true true ≡ (attempted, false))
unfolding rtos_create
rtos_create-accepts config tick_hz t none e =
    ground (arith, (validate-IsTiming config tick_hz t e).0)
rtos_create-accepts config tick_hz t (some u) e =
    ground (arith, (validate-IsTiming config tick_hz t e).0)
