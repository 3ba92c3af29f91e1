-- ===== src/Stepper.antt =====
-- firmware/src/sonar_stepper.c: the Pololu Tic stepper controller on I2C.
-- The callbacks of `sonar_tic_io_t` act on a world `W`, which each call passes on.
pub mod Faults
pub mod Motion
pub mod Outputs
mod Tests
use Prim.Native.String.{String}
use air_born_sonar.Common.{
  ℕ, suc, ◌+◌, ◌-◌, ◌*◌, ◌/◌, ◌%◌, Bool, true, false, not, ◌&&◌, ◌||◌, List, [], ◌∷◌, Option, none,
  some, if◌then◌else◌, ◌==◌, ltb, leb, has_bit, sub32, u64, get_or, le_bytes4, le_word4, ℤ, pos,
  negsuc, ltb_ℤ, is_zero_ℤ, eq_ℤ, ◌+ℤ◌, signed32, unsigned32,
}

-- `sonar_tic_config_t` (firmware/src/sonar_tic.h)
pub record TicConfig : Type 0 where
  pub address : ℕ
  pub max_speed : ℕ
  pub acceleration : ℕ
  pub deceleration : ℕ
  pub run_ticks : ℕ
  pub operation_timeout_ticks : ℕ
  pub keepalive_ticks : ℕ
  pub watchdog_ticks : ℕ

-- `sonar_tic_status_t`
pub record TicStatus : Type 0 where
  pub operation_state : ℕ
  pub flags : ℕ
  pub errors : ℕ
  pub position : ℤ  -- int32_t
  pub velocity : ℤ  -- int32_t

-- `sonar_tic_io_t`. `read` returns what it left in the buffer.
pub record TicIo (W : Type 0) : Type 0 where
  pub write : ℕ → List ℕ → W → Bool × W
  pub read : ℕ → ℕ → W → Bool × List ℕ × W
  pub clock : W → ℕ × W

pub data StepperState : Type 0 where
  idle moving done fault : StepperState

-- `sonar_stepper_t`; its `io` member is the parameter of the operations.
pub record Stepper : Type 0 where
  pub config : TicConfig
  pub state : StepperState
  pub tic : TicStatus  -- the member `status`
  pub fault_tic : TicStatus  -- the member `fault_status`
  pub fault_reason : Option String
  pub status_valid : Bool
  pub fault_status_valid : Bool
  pub divisor : ℕ
  pub last_keepalive : ℕ
  pub start_tick : ℕ
  pub target : ℤ
  pub energized : Bool

abbrev pub zero_status : TicStatus
zero_status = record {
  operation_state = 0;
  flags = 0;
  errors = 0;
  position = pos 0;
  velocity = pos 0;
}

-- `(sonar_stepper_t){.io = *io, .config = *cfg}`
abbrev pub with_config : TicConfig → Stepper
with_config cfg = record {
  config = cfg;
  state = idle;
  tic = zero_status;
  fault_tic = zero_status;
  fault_reason = none;
  status_valid = false;
  fault_status_valid = false;
  divisor = 0;
  last_keepalive = 0;
  start_tick = 0;
  target = pos 0;
  energized = false;
}

abbrev pub is_idle : StepperState → Bool
is_idle idle = true
is_idle _ = false

abbrev pub is_moving : StepperState → Bool
is_moving moving = true
is_moving _ = false

abbrev pub is_done : StepperState → Bool
is_done done = true
is_done _ = false

abbrev pub is_fault : StepperState → Bool
is_fault fault = true
is_fault _ = false

abbrev pub is_none : Option String → Bool
is_none none = true
is_none (some r) = false

abbrev pub divisors : List ℕ
divisors = 1 ∷ 2 ∷ 4 ∷ 8 ∷ 16 ∷ 32 ∷ 64 ∷ 128 ∷ 256 ∷ []

-- The loop of `sonar_stepper_mode` that looks for the divisor, from index `i` on.
abbrev pub find_divisor : ℕ → List ℕ → ℕ → Option ℕ
find_divisor divisor [] i = none
find_divisor divisor (d ∷ ds) i =
    let rest = find_divisor divisor ds (i + 1) in if divisor == d then some i else rest

-- Mode 6 is reserved for another model.
abbrev pub mode_of : ℕ → ℕ
mode_of i = if ltb i 6 then i else i + 1

module _ {W : Type 0} (io : TicIo W) where
  -- `a && b && …`: the calls in order, up to the first that fails.
  abbrev pub in_order : List (W → Bool × W) → W → Bool × W
  in_order [] w = (true, w)
  in_order (a ∷ as') w =
      let (passed, w') = a w in let rest = in_order as' w' in if passed then rest else (false, w')

  abbrev pub quick : Stepper → ℕ → W → Bool × W
  quick s command w = io.write s.config.address (command ∷ []) w

  abbrev pub word : Stepper → ℕ → ℕ → W → Bool × W
  word s command value w = io.write s.config.address (command ∷ le_bytes4 value) w

  pub read_vars : Stepper → ℕ → ℕ → W → Bool × List ℕ × W
  read_vars s offset n w =
      let (written, w') = io.write s.config.address (0xa1 ∷ offset ∷ []) w in
      if written then io.read s.config.address n w' else (false, [], w')

  pub status : Stepper → W → Stepper × Bool × W
  status s w =
      let (got_g, g, w₁) = read_vars s 0 4 w in
      let (got_m, m, w₂) = read_vars s 0x22 8 w₁ in
      if not got_g
      then (record s { status_valid = false }, false, w₁)
      else if not got_m
      then (record s { status_valid = false }, false, w₂)
      else (
        record s {
          tic = record {
            operation_state = get_or g 0 0;
            flags = get_or g 1 0;
            errors = get_or g 2 0 + get_or g 3 0 * 256;
            position = signed32 (le_word4 m 0);
            velocity = signed32 (le_word4 m 4);
          };
          status_valid = true;
        },
        true,
        w₂,
      )

  unfoldable pub stop : Stepper → W → Stepper × Bool × W
  stop s w =
      let (halted, w₁) = quick s 0x89 w in
      let (disabled, w₂) = quick s 0x86 w₁ in
      let (s', got, w₃) = status s w₂ in
      let fine =
        got && halted && disabled && not (has_bit s'.tic.flags 0) && is_zero_ℤ s'.tic.velocity in
      (
        record s' {
          energized = false;
          state = if fine && is_none s'.fault_reason then idle else fault;
        },
        fine,
        w₃,
      )

  -- The static function `fault`.
  pub fail : Stepper → String → W → Stepper × W
  fail s reason w =
      let first =
        if is_none s.fault_reason
        then record s {
          fault_reason = some reason;
          fault_tic = s.tic;
          fault_status_valid = s.status_valid;
        }
        else s in
      let (s', fine, w') = stop first w in (record s' { state = fault }, w')

  abbrev pub refuse : Stepper → String → W → Stepper × Bool × W
  refuse s reason w = ((fail s reason w).0, false, (fail s reason w).1)

  pub set_origin : Stepper → ℕ → W → Stepper × Bool × W
  set_origin s divisor w =
      let (zeroed, w₁) = word s 0xec 0 w in
      let (s', got, w₂) = status s w₁ in
      if not zeroed
      then refuse s "ORIGIN" w₁
      else if not got
      then refuse s' "ORIGIN" w₂
      else (record s' { divisor = divisor }, true, w₂)

  pub set_mode : Stepper → ℕ → Option ℕ → W → Stepper × Bool × W
  set_mode s divisor none w = (s, false, w)
  set_mode s divisor (some i) w =
      let (written, w₁) = io.write s.config.address (0x94 ∷ mode_of i ∷ []) w in
      let (got, actual, w₂) = read_vars s 0x49 1 w₁ in
      if not written
      then refuse s "STEP_MODE" w₁
      else if not got || not (get_or actual 0 0 == mode_of i)
      then refuse s "STEP_MODE" w₂
      else set_origin s divisor w₂

  unfoldable pub mode : Stepper → ℕ → W → Stepper × Bool × W
  mode s divisor w =
      if not (is_idle s.state) || s.energized
      then (s, false, w)
      else set_mode s divisor (find_divisor divisor divisors 0) w

  abbrev pub good_config : TicConfig → Bool
  good_config cfg = not (
      cfg.max_speed == 0
      || ltb 500000000 cfg.max_speed
      || cfg.keepalive_ticks == 0
      || leb cfg.watchdog_ticks (u64 (cfg.keepalive_ticks * 3))
      || cfg.operation_timeout_ticks == 0
      || leb 0x80000000 cfg.operation_timeout_ticks)

  -- `none` is the refusal that leaves `*s` alone.
  unfoldable pub init : TicConfig → W → Option (Stepper × Bool × W)
  init cfg w =
      if not (good_config cfg)
      then none
      else (let (s, stopped, w₁) = stop (with_config cfg) w in
          let (configured, w₂) =
            in_order
              (word s 0xe6 cfg.max_speed
                ∷ word s 0xe5 0
                ∷ word s 0xea cfg.acceleration
                ∷ word s 0xe9 cfg.deceleration
                ∷ word s 0xec 0
                ∷ [])
              w₁ in
          let (s', set, w₃) = mode s 1 w₂ in
          some (
            if not stopped
            then refuse s "CONFIGURE" w₁
            else if not configured
            then refuse s "CONFIGURE" w₂
            else if set
            then (s', true, w₃)
            else refuse s' "CONFIGURE" w₃))

  -- The commands that start a move, after the target is known.
  pub start_move : Stepper → W → Stepper × Bool × W
  start_move s w =
      let here = unsigned32 s.tic.position in
      let (sent, w₁) =
        in_order
          (word s 0xec here
            ∷ word s 0xe0 here
            ∷ quick s 0x8c
            ∷ quick s 0x85
            ∷ quick s 0x83
            ∷ word s 0xe0 (unsigned32 s.target)
            ∷ [])
          w in
      let (now, w₂) = io.clock w₁ in
      if not sent then refuse s "MOVE_COMMAND" w₁ else (
        record s { energized = true; state = moving; last_keepalive = now; start_tick = now },
        true,
        w₂,
      )

  unfoldable pub move : Stepper → ℤ → W → Stepper × Bool × W
  move s₀ steps w =
      let (s, got, w') = status s₀ w in
      let target = s.tic.position +ℤ steps in
      if is_zero_ℤ steps || (not (is_idle s₀.state) && not (is_done s₀.state))
      then (s₀, false, w)
      else if not got || not (is_zero_ℤ s.tic.velocity)
      then refuse s "NOT_STATIONARY_OR_BUS" w'
      else if ltb_ℤ target (negsuc 2147483647) || ltb_ℤ (pos 2147483647) target
      then refuse s "POSITION_RANGE" w'
      else start_move (record s { target = target }) w'

  -- The end of `sonar_stepper_poll`, while moving.
  pub poll_target : Stepper → W → Stepper × W
  poll_target s w =
      let (got, plan, w') = read_vars s 9 5 w in
      if not got || not (get_or plan 0 0 == 1) || not (eq_ℤ (signed32 (le_word4 plan 1)) s.target)
      then fail s "TARGET_READBACK" w'
      else (
        if eq_ℤ s.tic.position s.target && is_zero_ℤ s.tic.velocity
            then record s { state = done }
            else s,
        w',
      )

  pub poll_status : Stepper → W → Stepper × W
  poll_status s₀ w =
      let (s, got, w') = status s₀ w in
      if not got
        || not (s.tic.errors == 0)
        || not (s.tic.operation_state == 10)
        || not (has_bit s.tic.flags 0)
      then fail s "CONTROLLER_STATUS_OR_BUS" w'
      else if is_moving s.state
      then poll_target s w'
      else (s, w')

  pub poll_timeout : Stepper → ℕ → W → Stepper × W
  poll_timeout s now w =
      if is_moving s.state && leb s.config.operation_timeout_ticks (sub32 now s.start_tick)
      then fail s "MOVE_TIMEOUT" w
      else poll_status s w

  pub poll_keepalive : Stepper → ℕ → W → Stepper × W
  poll_keepalive s now w =
      let elapsed = sub32 now s.last_keepalive in
      let (written, w₁) = quick s 0x8c w in
      let (again, w₂) = io.clock w₁ in
      if leb (sub32 s.config.watchdog_ticks s.config.keepalive_ticks) elapsed
      then fail s "KEEPALIVE_LATE" w
      else if leb s.config.keepalive_ticks elapsed
      then (if not written
          then fail s "KEEPALIVE_WRITE" w₁
          else poll_timeout (record s { last_keepalive = again }) now w₂)
      else poll_timeout s now w

  unfoldable pub poll : Stepper → W → Stepper × W
  poll s w =
      if is_fault s.state || not s.energized
      then (s, w)
      else let (now, w') = io.clock w in poll_keepalive s now w'
