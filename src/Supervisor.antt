-- ===== src/Supervisor.antt =====
-- firmware/src/sonar_supervisor.c: the heartbeats of the experiment task, and the task that watches them.
-- The tick counter, the creation of the queue and the task, and the start of the watchdog are arguments.
-- The watching task has the highest priority, so that its round from the end of its wait is one step.
pub mod Order
pub mod Latch
mod Tests
use air_born_sonar.Common.{
  ℕ, ◌+◌, ◌*◌, ◌/◌, Bool, true, false, not, ◌&&◌, ◌||◌, List, [], ◌∷◌, ◌++◌, Option, none, some,
  if◌then◌else◌, ◌==◌, ltb, leb, u32, u32_max, sub32, length,
}
use air_born_sonar.Config.{Timing}
use air_born_sonar.Health.{
  HealthState, waiting, running, Heartbeat, Health, init, accept, poll, queue_fault, faulted,
}

-- `SONAR_QUEUE_LENGTH`
abbrev pub queue_length : ℕ
queue_length = 4

-- Where the watching task is: before the first heartbeat, in its loop, in the loop after a fault, or
-- stopped by `sonar_halt`.
pub data Watch : Type 0 where
  unstarted : Watch
  watching : Health → Bool → ℕ → Watch  -- `health`, `announced` and `last_report`
  latched : Health → Watch
  halted : Watch

-- The static variables, the queue and the watching task. `restarts` counts the restarts of the watchdog,
-- and `reports` the lines HEALTH RUNNING.
pub record Supervisor : Type 0 where
  pub periods : Timing
  pub queue : List Heartbeat
  pub queue_failed : Bool
  pub sequence : ℕ  -- uint32_t
  pub last_sent : ℕ  -- uint32_t
  pub watch : Watch
  pub inhibited : Bool
  pub restarts : ℕ
  pub reports : ℕ

-- `sonar_rtos_heartbeat` at the tick `now`
unfoldable pub heartbeat : ℕ → Supervisor → Supervisor
heartbeat now s =
    if not (s.sequence == 0) && ltb (sub32 now s.last_sent) s.periods.heartbeat
    then s
    else if ltb (length s.queue) queue_length
    then record s {
      queue = s.queue ++ record { sequence = s.sequence; tick = now } ∷ [];
      sequence = u32 (s.sequence + 1);
      last_sent = now;
    }
    else record s { queue_failed = true }

-- The beginning of `supervisor_task`, which waits for the first heartbeat and leaves it in the queue.
-- `has_watchdog` is what `watchdog_start` returns.
pub begin_watch : Bool → List Heartbeat → ℕ → Watch
begin_watch has_watchdog [] timeout = unstarted
begin_watch has_watchdog (event ∷ queue) timeout =
    let (health, ok) = init event.tick timeout in
    if not ok then halted else if not has_watchdog then halted else watching health false event.tick

abbrev pub first_of : List Heartbeat → Option Heartbeat
first_of [] = none
first_of (event ∷ queue) = some event

abbrev pub rest_of : List Heartbeat → List Heartbeat
rest_of [] = []
rest_of (event ∷ queue) = queue

-- What a round makes of the monitor.
pub accept_received : Health → Option Heartbeat → ℕ → Health
accept_received health none now = health
accept_received health (some event) now = accept health (some event) now

pub monitored : Bool → Health → Option Heartbeat → ℕ → Health
monitored overflow health received now =
    poll (accept_received (if overflow then queue_fault health else health) received now) now

abbrev pub is_running : HealthState → Bool
is_running running = true
is_running _ = false

-- A round of the loop of `supervisor_task` from the end of its wait on, at the tick `now`.
pub watch_round : Health → Bool → ℕ → ℕ → Supervisor → Supervisor
watch_round health announced last_report now s =
    let health' = monitored s.queue_failed health (first_of s.queue) now in
    let s' = record s { queue = rest_of s.queue; restarts = s.restarts + 1 } in
    let due =
      is_running health'.state && (not announced || leb s.periods.report (sub32 now last_report)) in
    if faulted health'.state
    then record s' { watch = latched health'; inhibited = true }
    else if due
    then record s' { watch = watching health' true now; reports = s.reports + 1 }
    else record s' { watch = watching health' announced last_report }

-- A step of the watching task.
pub watch_step : Bool → ℕ → Watch → Supervisor → Supervisor
watch_step has_watchdog now unstarted s = record s {
  watch = begin_watch has_watchdog s.queue s.periods.timeout;
}
watch_step has_watchdog now (watching health announced last_report) s =
    watch_round health announced last_report now s
watch_step has_watchdog now (latched health) s = record s {
  watch = latched health;
  restarts = s.restarts + 1;
}
watch_step has_watchdog now halted s = record s { watch = halted }

unfoldable pub supervise : Bool → ℕ → Supervisor → Supervisor
supervise has_watchdog now s = watch_step has_watchdog now s.watch s

abbrev pub started : Timing → Supervisor
started timing = record {
  periods = timing;
  queue = [];
  queue_failed = false;
  sequence = 0;
  last_sent = 0;
  watch = unstarted;
  inhibited = false;
  restarts = 0;
  reports = 0;
}

-- What `sonar_rtos_create` refuses.
abbrev pub is_bad : Timing → Bool
is_bad t =
    t.heartbeat == 0
    || ltb (u32_max / 2) t.timeout
    || ltb (u32_max / 2) t.report
    || leb t.timeout (2 * t.heartbeat)
    || ltb t.report t.heartbeat

-- `sonar_rtos_create` up to its static variables: the new value of `creation_attempted` and what it
-- returns. `queued` and `tasked` say whether the queue and the task can be created.
unfoldable pub rtos_create : Bool → Option Timing → Bool → Bool → Bool × Bool
rtos_create attempted none queued tasked = (attempted, false)
rtos_create attempted (some t) queued tasked =
    if attempted || is_bad t then (attempted, false) else (true, queued && tasked)
