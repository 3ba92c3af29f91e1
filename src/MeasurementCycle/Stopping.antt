-- ===== src/MeasurementCycle/Stopping.antt =====
-- A stop of firmware/src/sonar_measurement_cycle.c is final until the next start.
use air_born_sonar.Common.{ℕ, ◌≡◌, ◌∙◌, refl, ◌⊎◌, inl, inr, Bool, true, List, [], ◌∷◌, arith, ℤ}
use air_born_sonar.MeasurementCycle.{acquire, stopped, fault, CycleIo, Cycle, start, halt, poll}
use air_born_sonar.MeasurementCycle.Transitions.{IsValid, start-IsValid, halt-IsValid, poll-IsValid}

-- The calls that a client makes.
pub data Call : Type 0 where
  poll_call : ℕ → Bool → Bool → Bool → Bool → Call
  stop_call : ℕ → Call
  start_call : ℤ → ℕ → Call

abbrev pub IsNoStart : Call → Type 0
IsNoStart (start_call steps now) = ⊥
IsNoStart _ = Unit

-- A stopped machine, one that drains a capture before it stops, or a faulted one.
abbrev pub IsHalted : Cycle → Type 0
IsHalted c = (c.state ≡ acquire) × (c.stopping ≡ true) ⊎ ((c.state ≡ stopped) ⊎ (c.state ≡ fault))

module _ {W : Type 0} (io : CycleIo W) where
  -- The worlds that calls of the stop callback alone lead to.
  pub data OnlyStops (w : W) : W → Type 0 where
    here : OnlyStops w w
    then_stop : {v : W} → OnlyStops w v → OnlyStops w (io.stop v).1

  abbrev pub step : Call → Cycle × W → Cycle × W
  step (poll_call now captured sent motor_done faulty) (c, w) =
      poll io c now captured sent motor_done faulty w
  step (stop_call now) (c, w) = ((halt io c now w).0, (halt io c now w).2)
  step (start_call steps now) (c, w) = ((start c steps now).0, w)

  abbrev pub run : List Call → Cycle × W → Cycle × W
  run [] s = s
  run (e ∷ es) s = run es (step e s)

  abbrev pub NoStarts : List Call → Type 0
  NoStarts [] = Unit
  NoStarts (e ∷ es) = IsNoStart e × NoStarts es

  poll-IsHalted :
      (c : Cycle) (now : ℕ) (captured sent motor_done faulty : Bool) (w : W)
      → IsHalted c
      → let (c', w') = poll io c now captured sent motor_done faulty w in
        IsHalted c' × ((w' ≡ w) ⊎ (w' ≡ (io.stop w).1))
  unfolding poll
  poll-IsHalted c now captured sent motor_done faulty w h = ground arith

  halt-IsHalted :
      (c : Cycle) (now : ℕ) (w : W)
      → let (c', done, w') = halt io c now w in IsHalted c' × (w' ≡ (io.stop w).1)
  unfolding halt
  halt-IsHalted c now w = ground arith

  run-IsHalted :
      (es : List Call) (c : Cycle) (w v : W)
      → IsHalted c
      → OnlyStops v w
      → NoStarts es
      → let (c', w') = run es (c, w) in IsHalted c' × OnlyStops v w'
  run-IsHalted [] c w v h o n = (h, o)
  run-IsHalted (poll_call now captured sent motor_done faulty ∷ es) c w v h o n =
      let (h', moved) = poll-IsHalted c now captured sent motor_done faulty w h in
      let (c', w') = poll io c now captured sent motor_done faulty w in
      run-IsHalted es c' w' v h' (grow w' moved) n.1
    where
      grow : (w' : W) → (w' ≡ w) ⊎ (w' ≡ (io.stop w).1) → OnlyStops v w'
      grow w' (inl e) = rw e o
      grow w' (inr e) = rw e (then_stop o)
  run-IsHalted (stop_call now ∷ es) c w v h o n =
      let (h', e) = halt-IsHalted c now w in
      run-IsHalted es (halt io c now w).0 (halt io c now w).2 v h' (rw e (then_stop o)) n.1
  run-IsHalted (start_call steps now ∷ es) c w v h o n = absurd n.0

  -- After a stop, whatever it returned, no sequence of polls and further stops captures or moves
  -- again: only the stop callback is called, and the machine drains the capture in flight, is
  -- stopped or is in FAULT, until it is started.
  pub halt_final :
      (c : Cycle) (now : ℕ) (w : W) (es : List Call)
      → NoStarts es
      → let (c', done, w') = halt io c now w in
        let (c'', w'') = run es (c', w') in IsHalted c'' × OnlyStops w w''
  halt_final c now w es n =
      let (h, e) = halt-IsHalted c now w in
      run-IsHalted es (halt io c now w).0 (halt io c now w).2 w h (rw e (then_stop here)) n

  -- Any sequence of starts, polls and stops keeps a valid machine valid.
  pub cycle_run-IsValid :
      (es : List Call) (c : Cycle) (w : W) → IsValid c → IsValid (run es (c, w)).0
  cycle_run-IsValid [] c w v = v
  cycle_run-IsValid (poll_call now captured sent motor_done faulty ∷ es) c w v =
      let (c', w') = poll io c now captured sent motor_done faulty w in
      cycle_run-IsValid es c' w' (poll-IsValid io c now captured sent motor_done faulty w v)
  cycle_run-IsValid (stop_call now ∷ es) c w v =
      cycle_run-IsValid es (halt io c now w).0 (halt io c now w).2 (halt-IsValid io c now w v)
  cycle_run-IsValid (start_call steps now ∷ es) c w v =
      cycle_run-IsValid es (start c steps now).0 w (start-IsValid c steps now v)

  step_fault :
      (e : Call) (c : Cycle) (w : W)
      → c.state ≡ fault
      → let (c', w') = step e (c, w) in
        (c'.state ≡ fault) × (c'.fault_reason ≡ c.fault_reason) × (c'.fault_state ≡ c.fault_state)
  unfolding poll halt start
  step_fault (poll_call now captured sent motor_done faulty) c w h = ground arith
  step_fault (stop_call now) c w h = ground arith
  step_fault (start_call steps now) c w h = ground arith

  -- FAULT is absorbing: after any calls at all, starts included, the machine is still in FAULT, with
  -- the reason and the state that were recorded first.
  pub run_fault :
      (es : List Call) (c : Cycle) (w : W)
      → c.state ≡ fault
      → let (c', w') = run es (c, w) in
        (c'.state ≡ fault) × (c'.fault_reason ≡ c.fault_reason) × (c'.fault_state ≡ c.fault_state)
  run_fault [] c w h = (h, refl, refl)
  run_fault (e ∷ es) c w h =
      let (c', w') = step e (c, w) in
      let (h', r, s) = step_fault e c w h in
      let (h'', r', s') = run_fault es c' w' h' in (h'', r' ∙ r, s' ∙ s)
