-- ===== src/MeasurementCycle/Transitions.antt =====
-- What a poll of firmware/src/sonar_measurement_cycle.c can do.
use air_born_sonar.Common.{
  ℕ, ◌≤◌, ◌<◌, ◌≡◌, ◌≢◌, ◌⊎◌, Bool, true, false, arith, sub64, none, some, u32_max, u32, ◌+◌, ltb_ℤ,
  pos, ℤ,
}
use air_born_sonar.MeasurementCycle.{
  CycleState, wait_buffer, acquire, pre_move, moving, settling, stopped, fault, CycleConfig,
  CycleIo, Cycle, init, start, halt, poll,
}

-- The deadlines of a state: of ACQUIRE that of the recording while it is not received, and that of the
-- transmission while it is not finished.
abbrev pub Late : Cycle → ℕ → Bool → Bool → Type 0
Late c now captured sent =
    (c.state ≡ acquire)
      × ((c.received ≡ false)
            × (captured ≡ false)
            × (c.config.capture_timeout_us ≤ sub64 now c.trigger)
          ⊎ (c.transmitted ≡ false)
            × (sent ≡ false)
            × (c.config.tx_timeout_us ≤ sub64 now c.trigger))
    ⊎ (c.state ≡ moving) × (c.config.motion_timeout_us ≤ sub64 now c.since)

-- What ends a cycle at once: the fault input, a time that runs backwards, a deadline that has passed, or a
-- cycle number that cannot grow.
abbrev pub Fails : Cycle → ℕ → Bool → Bool → Bool → Type 0
Fails c now captured sent faulty =
    (c.state ≢ fault)
    × ((faulty ≡ true)
        ⊎ ((now < c.last_poll)
            ⊎ (Late c now captured sent ⊎ (c.state ≡ wait_buffer) × (c.cycle ≡ u32_max))))

-- The transitions of one poll, each with the condition on the machine and the inputs that it needs, and
-- with the world that it leaves: the callbacks that it has made, and no other.
pub data Edge {W : Type 0} (io : CycleIo W) (c : Cycle) (now : ℕ)
    (captured sent motor_done faulty : Bool) (w : W) : CycleState → CycleState → W → Type 0 where
  stay : {s : CycleState} → Edge io c now captured sent motor_done faulty w s s w
  full :
      c.cycle ≢ u32_max
      → (io.capture (u32 (c.cycle + 1)) now w).0 ≡ pos 0
      → Edge io c now captured sent motor_done faulty w wait_buffer wait_buffer
          (io.capture (u32 (c.cycle + 1)) now w).2
  triggered :
      c.cycle ≢ u32_max
      → ltb_ℤ (pos 0) (io.capture (u32 (c.cycle + 1)) now w).0 ≡ true
      → Edge io c now captured sent motor_done faulty w wait_buffer acquire
          (io.capture (u32 (c.cycle + 1)) now w).2
  complete :
      (c.received ≡ true) ⊎ (captured ≡ true)
      → (c.transmitted ≡ true) ⊎ (sent ≡ true)
      → c.stopping ≡ false
      → Edge io c now captured sent motor_done faulty w acquire pre_move w
  drained :
      (c.received ≡ true) ⊎ (captured ≡ true)
      → (c.transmitted ≡ true) ⊎ (sent ≡ true)
      → c.stopping ≡ true
      → Edge io c now captured sent motor_done faulty w acquire stopped w
  move :
      c.config.motor_start_us ≤ sub64 now c.trigger
      → (io.move c.steps w).0 ≡ true
      → Edge io c now captured sent motor_done faulty w pre_move moving (io.move c.steps w).1
  arrived :
      motor_done ≡ true
      → sub64 now c.since < c.config.motion_timeout_us
      → Edge io c now captured sent motor_done faulty w moving settling w
  settled :
      c.config.settle_us ≤ sub64 now c.since
      → Edge io c now captured sent motor_done faulty w settling wait_buffer w
  failed :
      Fails c now captured sent faulty
      → Edge io c now captured sent motor_done faulty w c.state fault (io.stop w).1
  capture_failed :
      c.cycle ≢ u32_max
      → ltb_ℤ (io.capture (u32 (c.cycle + 1)) now w).0 (pos 0) ≡ true
      → Edge io c now captured sent motor_done faulty w wait_buffer fault
          (io.stop (io.capture (u32 (c.cycle + 1)) now w).2).1
  move_failed :
      c.config.motor_start_us ≤ sub64 now c.trigger
      → (io.move c.steps w).0 ≡ false
      → Edge io c now captured sent motor_done faulty w pre_move fault
          (io.stop (io.move c.steps w).1).1

-- What ends a state by its time otherwise, or ACQUIRE by what it has waited for.
abbrev pub Due : Cycle → ℕ → Bool → Bool → Type 0
Due c now captured sent =
    (c.state ≡ acquire)
      × ((c.received ≡ true) ⊎ (captured ≡ true))
      × ((c.transmitted ≡ true) ⊎ (sent ≡ true))
    ⊎ ((c.state ≡ pre_move) × (c.config.motor_start_us ≤ sub64 now c.trigger)
        ⊎ (c.state ≡ settling) × (c.config.settle_us ≤ sub64 now c.since))

module _ {W : Type 0} (io : CycleIo W) where
  -- A poll takes the machine along an edge, with the callbacks of that edge and no other: in particular
  -- the motor is started only from PRE_MOVE and not before `motor_start_us` after the trigger, PRE_MOVE is
  -- entered only from ACQUIRE with the capture received, the transmission finished and no stop pending,
  -- FAULT is entered only for a cause of `Fails`, a refused capture or a refused move, each time with the
  -- stop callback last, and never left.
  pub poll-Edge :
      (c : Cycle) (now : ℕ) (captured sent motor_done faulty : Bool) (w : W)
      → let (c', w') = poll io c now captured sent motor_done faulty w in
        Edge io c now captured sent motor_done faulty w c.state c'.state w'
  unfolding poll
  poll-Edge c now captured sent motor_done faulty w = grind (
    arith, stay, full, triggered, complete, drained, move, arrived, settled, failed, capture_failed,
    move_failed,
  )

  -- A poll of a machine that is not in FAULT, with the fault input set or with a time before that of
  -- the poll before, ends in FAULT, remembers the state in which it happened, and has called the
  -- stop callback and no other.
  pub poll_faults :
      (c : Cycle) (now : ℕ) (captured sent motor_done faulty : Bool) (w : W)
      → c.state ≢ fault
      → (faulty ≡ true) ⊎ (now < c.last_poll)
      → let (c', w') = poll io c now captured sent motor_done faulty w in
        (c'.state ≡ fault)
        × (c'.fault_state ≡ c.state)
        × (c'.fault_reason ≢ none)
        × (w' ≡ (io.stop w).1)
  unfolding poll
  poll_faults c now captured sent motor_done faulty w running h = ground arith

-- What holds between two calls: the cycle number fits 32 bits; the motor phases are entered only with
-- the capture received, the transmission finished and no stop pending; FAULT has a reason; and the
-- motor deadline is not before the transmit timeout.
pub record IsValid (c : Cycle) : Type 0 where
  pub in_range : c.cycle ≤ u32_max
  pub ready :
      (c.state ≡ pre_move) ⊎ ((c.state ≡ moving) ⊎ (c.state ≡ settling))
      → (c.received ≡ true) × (c.transmitted ≡ true) × (c.stopping ≡ false)
  pub explained : c.state ≡ fault → c.fault_reason ≢ none
  pub waiting : c.state ≡ wait_buffer → c.stopping ≡ false

pub init-IsValid : (cfg : CycleConfig) (c : Cycle) → init cfg ≡ some c → IsValid c
unfolding init
init-IsValid cfg c h = ground arith

pub start-IsValid : (c : Cycle) (steps : ℤ) (now : ℕ) → IsValid c → IsValid (start c steps now).0
unfolding start
start-IsValid c steps now v = ground arith

module _ {W : Type 0} (io : CycleIo W) where
  pub halt-IsValid : (c : Cycle) (now : ℕ) (w : W) → IsValid c → IsValid (halt io c now w).0
  unfolding halt
  halt-IsValid c now w v = ground arith

  pub poll-IsValid :
      (c : Cycle) (now : ℕ) (captured sent motor_done faulty : Bool) (w : W)
      → IsValid c
      → IsValid (poll io c now captured sent motor_done faulty w).0
  unfolding poll
  poll-IsValid c now captured sent motor_done faulty w v = ground arith
