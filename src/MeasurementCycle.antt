-- ===== src/MeasurementCycle.antt =====
-- firmware/src/sonar_measurement_cycle.c: the state machine of one measurement position.
-- The callbacks of `sonar_cycle_io_t` act on a world `W`, which each call passes on.
pub mod Transitions
pub mod Stopping
mod Tests
use Prim.Native.String.{String}
use air_born_sonar.Common.{
  ℕ, ◌+◌, Bool, true, false, not, ◌&&◌, ◌||◌, Option, none, some, if◌then◌else◌, ◌==◌, ltb, leb,
  u32, u32_max, sub64, ℤ, pos, ltb_ℤ, is_zero_ℤ,
}

pub data CycleState : Type 0 where
  idle wait_buffer acquire pre_move moving settling stopped fault : CycleState

-- `sonar_cycle_config_t`, every field a uint64_t.
pub record CycleConfig : Type 0 where
  pub tx_timeout_us : ℕ
  pub motor_start_us : ℕ
  pub settle_us : ℕ
  pub capture_timeout_us : ℕ
  pub motion_timeout_us : ℕ

-- `sonar_cycle_io_t`. `capture` gets the cycle number and the value that `*trigger_us` holds on
-- entry; it returns its result, the value of `*trigger_us` on exit, and the world.
pub record CycleIo (W : Type 0) : Type 0 where
  pub capture : ℕ → ℕ → W → ℤ × ℕ × W
  pub move : ℤ → W → Bool × W
  pub stop : W → Bool × W

-- `sonar_cycle_t`; its `io` member is the parameter of the operations.
pub record Cycle : Type 0 where
  pub config : CycleConfig
  pub state : CycleState
  pub since : ℕ
  pub trigger : ℕ
  pub last_poll : ℕ
  pub fault_reason : Option String
  pub fault_state : CycleState
  pub cycle : ℕ  -- uint32_t
  pub steps : ℤ  -- int32_t
  pub stopping : Bool
  pub received : Bool
  pub transmitted : Bool

abbrev pub is_state : CycleState → CycleState → Bool
is_state idle idle = true
is_state wait_buffer wait_buffer = true
is_state acquire acquire = true
is_state pre_move pre_move = true
is_state moving moving = true
is_state settling settling = true
is_state stopped stopped = true
is_state fault fault = true
is_state _ _ = false

-- `none` is the refusal of an invalid configuration.
unfoldable pub init : CycleConfig → Option Cycle
init cfg =
    if cfg.capture_timeout_us == 0
      || cfg.motion_timeout_us == 0
      || cfg.tx_timeout_us == 0
      || ltb cfg.motor_start_us cfg.tx_timeout_us
    then none
    else some record {
      config = cfg;
      state = idle;
      since = 0;
      trigger = 0;
      last_poll = 0;
      fault_reason = none;
      fault_state = idle;
      cycle = 0;
      steps = pos 0;
      stopping = false;
      received = false;
      transmitted = false;
    }

unfoldable pub start : Cycle → ℤ → ℕ → Cycle × Bool
start c steps now =
    if is_zero_ℤ steps || (not (is_state c.state idle) && not (is_state c.state stopped))
    then (c, false)
    else (
      record c {
        steps = steps;
        stopping = false;
        received = false;
        transmitted = false;
        state = wait_buffer;
        since = now;
        last_poll = now;
      },
      true,
    )

module _ {W : Type 0} (io : CycleIo W) where
  unfoldable pub fail : Cycle → String → W → Cycle × W
  fail c reason w =
      (record c { fault_state = c.state; fault_reason = some reason; state = fault }, (io.stop w).1)

  -- `sonar_cycle_stop`
  unfoldable pub halt : Cycle → ℕ → W → Cycle × Bool × W
  halt c now w =
      let (stopped?, w') = io.stop w in
      if not stopped?
      then (
        record c {
          fault_state = if is_state c.state fault then c.fault_state else c.state;
          fault_reason = if is_state c.state fault then c.fault_reason else some "STOP_OUTPUTS";
          state = fault;
        },
        false,
        w',
      )
      else (
        if is_state c.state acquire || is_state c.state fault
            then record c { stopping = true }
            else record c { stopping = true; state = stopped; since = now },
        true,
        w',
      )

  -- `case CYCLE_WAIT_BUFFER`
  poll_wait_buffer : Cycle → ℕ → W → Cycle × W
  unfolding fail
  poll_wait_buffer c now w =
      let (result, trigger, w') = io.capture (u32 (c.cycle + 1)) now w in
      if c.cycle == u32_max
      then fail c "SEQUENCE_EXHAUSTED" w
      else if ltb_ℤ result (pos 0)
      then fail c "CAPTURE_START" w'
      else if ltb_ℤ (pos 0) result
      then (
        record c {
          cycle = u32 (c.cycle + 1);
          trigger = trigger;
          since = trigger;
          received = false;
          transmitted = false;
          state = acquire;
        },
        w',
      )
      else (c, w')

  -- `case CYCLE_ACQUIRE`
  poll_acquire : Cycle → ℕ → Bool → Bool → W → Cycle × W
  unfolding fail
  poll_acquire c₀ now captured sent w =
      let c = record c₀ {
        received = c₀.received || captured;
        transmitted = c₀.transmitted || sent;
      } in
      if not c.received && leb c.config.capture_timeout_us (sub64 now c.trigger)
      then fail c "CAPTURE_TIMEOUT" w
      else if not c.transmitted && leb c.config.tx_timeout_us (sub64 now c.trigger)
      then fail c "TX_TIMEOUT" w
      else if c.received && c.transmitted
      then (record c { state = if c.stopping then stopped else pre_move; since = now }, w)
      else (c, w)

  -- `case CYCLE_PRE_MOVE`
  poll_pre_move : Cycle → ℕ → W → Cycle × W
  unfolding fail
  poll_pre_move c now w =
      let (moved, w') = io.move c.steps w in
      if leb c.config.motor_start_us (sub64 now c.trigger)
      then (if moved
          then (record c { state = moving; since = now }, w')
          else fail c "MOTOR_START" w')
      else (c, w)

  -- `case CYCLE_MOVING`
  poll_moving : Cycle → ℕ → Bool → W → Cycle × W
  unfolding fail
  poll_moving c now motor_done w =
      if leb c.config.motion_timeout_us (sub64 now c.since)
      then fail c "MOTOR_TIMEOUT" w
      else (if motor_done then record c { state = settling; since = now } else c, w)

  -- `case CYCLE_SETTLING`
  poll_settling : Cycle → ℕ → W → Cycle × W
  poll_settling c now w = (
    if leb c.config.settle_us (sub64 now c.since)
        then record c { state = wait_buffer; since = now }
        else c,
    w,
  )

  -- The `switch` of `sonar_cycle_poll`.
  dispatch : CycleState → Cycle → ℕ → Bool → Bool → Bool → W → Cycle × W
  unfolding poll_wait_buffer poll_acquire poll_pre_move poll_moving poll_settling
  dispatch wait_buffer c now captured sent motor_done w = poll_wait_buffer c now w
  dispatch acquire c now captured sent motor_done w = poll_acquire c now captured sent w
  dispatch pre_move c now captured sent motor_done w = poll_pre_move c now w
  dispatch moving c now captured sent motor_done w = poll_moving c now motor_done w
  dispatch settling c now captured sent motor_done w = poll_settling c now w
  dispatch _ c now captured sent motor_done w = (c, w)

  unfoldable pub poll : Cycle → ℕ → Bool → Bool → Bool → Bool → W → Cycle × W
  unfolding fail dispatch
  poll c now captured sent motor_done faulty w =
      if is_state c.state fault
      then (c, w)
      else if ltb now c.last_poll
      then fail c "CLOCK_BACKWARDS" w
      else if faulty
      then fail (record c { last_poll = now }) "PERIPHERAL_OR_HEALTH" w
      else dispatch c.state (record c { last_poll = now }) now captured sent motor_done w

-- `sonar_cycle_name`
pub name : CycleState → String
name idle = "IDLE"
name wait_buffer = "WAIT_BUFFER"
name acquire = "ACQUIRE"
name pre_move = "PRE_MOVE"
name moving = "MOVING"
name settling = "SETTLING"
name stopped = "STOPPED"
name fault = "FAULT"
