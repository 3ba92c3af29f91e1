-- ===== src/Health.antt =====
-- firmware/src/sonar_health.c: the heartbeat monitor of the supervisor task.
pub mod Monitor
mod Tests
use Prim.Native.String.{String}
use air_born_sonar.Common.{
  ℕ, ◌+◌, Bool, true, false, not, ◌&&◌, ◌||◌, Option, none, some, if◌then◌else◌, ◌==◌, ltb, leb,
  u32, i32_max, sub32,
}

pub data HealthState : Type 0 where
  waiting running fault_config fault_timeout fault_sequence fault_queue : HealthState

-- `sonar_heartbeat_t`
pub record Heartbeat : Type 0 where
  pub sequence : ℕ  -- uint32_t
  pub tick : ℕ  -- uint32_t

-- `sonar_health_t`
pub record Health : Type 0 where
  pub state : HealthState
  pub timeout : ℕ  -- uint32_t
  pub last_tick : ℕ  -- uint32_t
  pub next_sequence : ℕ  -- uint32_t
  pub received : ℕ  -- uint32_t

unfoldable pub init : ℕ → ℕ → Health × Bool
init now timeout =
    let bad = timeout == 0 || ltb i32_max timeout in
    (
      record {
        state = if bad then fault_config else waiting;
        timeout = timeout;
        last_tick = now;
        next_sequence = 0;
        received = 0;
      },
      not bad,
    )

abbrev pub faulted : HealthState → Bool
faulted waiting = false
faulted running = false
faulted _ = true

-- The three ages that `sonar_health_accept` holds against the timeout.
abbrev late : Health → Heartbeat → ℕ → Bool
late health event now =
    leb health.timeout (sub32 now health.last_tick)
    || leb health.timeout (sub32 now event.tick)
    || leb health.timeout (sub32 event.tick health.last_tick)

-- `none` is the null event. The result that the code returns is the state of the new record.
unfoldable pub accept : Health → Option Heartbeat → ℕ → Health
accept health none now =
    if faulted health.state then health else record health { state = fault_config }
accept health (some event) now =
    if faulted health.state
    then health
    else if not (event.sequence == health.next_sequence)
    then record health { state = fault_sequence }
    else if late health event now
    then record health { state = fault_timeout }
    else record health {
      last_tick = event.tick;
      next_sequence = u32 (health.next_sequence + 1);
      received = u32 (health.received + 1);
      state = running;
    }

unfoldable pub poll : Health → ℕ → Health
poll health now =
    if not (faulted health.state) && leb health.timeout (sub32 now health.last_tick)
    then record health { state = fault_timeout }
    else health

unfoldable pub queue_fault : Health → Health
queue_fault health = if faulted health.state then health else record health { state = fault_queue }

-- `sonar_health_name`
pub name : HealthState → String
name waiting = "WAITING"
name running = "RUNNING"
name fault_config = "CONFIG"
name fault_timeout = "TIMEOUT"
name fault_sequence = "SEQUENCE"
name fault_queue = "QUEUE_FULL"
