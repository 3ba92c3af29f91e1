-- ===== src/Stepper/Faults.antt =====
-- Faults and outputs of firmware/src/sonar_stepper.c.
use Prim.Native.String.{String}
use air_born_sonar.Common.{
  ℕ, ◌≡◌, ◌≢◌, refl, sym, ◌∙◌, ◌⊎◌, true, false, Option, none, some, List, [], ◌∷◌, arith, ℤ,
  if◌then◌else◌,
}
use air_born_sonar.Stepper.{
  read_vars, find_divisor, divisors, idle, moving, done, fault, TicIo, Stepper, is_none, status,
  stop, fail, set_origin, set_mode, mode, start_move, move, poll_target, poll_status, poll_timeout,
  poll_keepalive, poll,
}

-- The flag of the driver follows the state: it is set exactly while a move runs or has ended in place,
-- never while idle or in FAULT.
pub record IsValid (s : Stepper) : Type 0 where
  pub off : (s.state ≡ idle) ⊎ (s.state ≡ fault) → s.energized ≡ false
  pub on : (s.state ≡ moving) ⊎ (s.state ≡ done) → s.energized ≡ true

module _ {W : Type 0} (io : TicIo W) where
  pub status-keeps :
      (s : Stepper) (w : W)
      → let s' = (status io s w).0 in
        (s'.state ≡ s.state)
        × (s'.energized ≡ s.energized)
        × (s'.fault_reason ≡ s.fault_reason)
        × (s'.config ≡ s.config)
        × (s'.target ≡ s.target)
        × (s'.start_tick ≡ s.start_tick)
  unfolding status read_vars
  status-keeps s w = ground arith

  stop_lem :
      (s : Stepper) (w : W)
      → let (s', fine, w') = stop io s w in
        (s'.energized ≡ false)
        × (s'.fault_reason ≡ s.fault_reason)
        × ((s'.state ≡ fault) ⊎ (s'.state ≡ idle) × (fine ≡ true) × (s.fault_reason ≡ none))
        × ((fine ≡ true) → (s.fault_reason ≡ none) → s'.state ≡ idle)
  unfolding stop
  stop_lem s w =
      let w₁ = (io.write s.config.address (0x89 ∷ []) w).1 in
      let w₂ = (io.write s.config.address (0x86 ∷ []) w₁).1 in ground (arith, status-keeps s w₂)

  pub fail_lem :
      (s : Stepper) (reason : String) (w : W)
      → let s' = (fail io s reason w).0 in
        (s'.state ≡ fault)
        × (s'.energized ≡ false)
        × (s'.fault_reason ≡ (if is_none s.fault_reason then some reason else s.fault_reason))
  unfolding fail
  fail_lem s reason w = ground (
    arith,
    stop_lem s w,
    stop_lem
        (record s {
          fault_reason = some reason;
          fault_tic = s.tic;
          fault_status_valid = s.status_valid;
        })
        w,
  )

  -- A reason once recorded is not replaced.
  abbrev pub FirstReason : Stepper → Stepper → Type 0
  FirstReason s s' = s.fault_reason ≢ none → s'.fault_reason ≡ s.fault_reason

  fail-IsValid : (s : Stepper) (reason : String) (w : W) → IsValid (fail io s reason w).0
  fail-IsValid s reason w = ground (arith, fail_lem s reason w)

  start_move-IsValid : (s : Stepper) (w : W) → IsValid (start_move io s w).0
  unfolding start_move
  start_move-IsValid s w = grind (arith, fail_lem)

  poll_target-IsValid :
      (s : Stepper) (w : W) → s.state ≡ moving → IsValid s → IsValid (poll_target io s w).0
  unfolding poll_target
  poll_target-IsValid s w m v = grind (arith, fail_lem)

  poll_status-IsValid : (s : Stepper) (w : W) → IsValid s → IsValid (poll_status io s w).0
  unfolding poll_status
  poll_status-IsValid s w v =
      let (s', got, w') = status io s w in
      ground (
        arith,
        status-keeps s w,
        fail_lem s' "CONTROLLER_STATUS_OR_BUS" w',
        poll_target-IsValid s' w',
      )

  poll_timeout-IsValid :
      (s : Stepper) (now : ℕ) (w : W) → IsValid s → IsValid (poll_timeout io s now w).0
  unfolding poll_timeout
  poll_timeout-IsValid s now w v =
      ground (arith, fail_lem s "MOVE_TIMEOUT" w, poll_status-IsValid s w v)

  poll_keepalive-IsValid :
      (s : Stepper) (now : ℕ) (w : W) → IsValid s → IsValid (poll_keepalive io s now w).0
  unfolding poll_keepalive
  poll_keepalive-IsValid s now w v =
      let (written, w₁) = io.write s.config.address (0x8c ∷ []) w in
      let (again, w₂) = io.clock w₁ in
      ground (
        arith,
        fail_lem s "KEEPALIVE_LATE" w,
        fail_lem s "KEEPALIVE_WRITE" w₁,
        poll_timeout-IsValid (record s { last_keepalive = again }) now w₂,
        poll_timeout-IsValid s now w v,
      )

  pub poll-IsValid : (s : Stepper) (w : W) → IsValid s → IsValid (poll io s w).0
  unfolding poll
  poll-IsValid s w v = ground (arith, poll_keepalive-IsValid s (io.clock w).0 (io.clock w).1 v)

  pub move-IsValid : (s : Stepper) (steps : ℤ) (w : W) → IsValid s → IsValid (move io s steps w).0
  unfolding move
  move-IsValid s steps w v = grind (arith, fail_lem, start_move-IsValid)

  set_origin-IsValid :
      (s : Stepper) (d : ℕ) (w : W)
      → s.energized ≡ false
      → IsValid s
      → IsValid (set_origin io s d w).0
  unfolding set_origin
  set_origin-IsValid s d w e v = grind (arith, fail_lem, status-keeps)

  set_mode-IsValid :
      (s : Stepper) (d : ℕ) (o : Option ℕ) (w : W)
      → s.energized ≡ false
      → IsValid s
      → IsValid (set_mode io s d o w).0
  unfolding set_mode
  set_mode-IsValid s d none w e v = v
  set_mode-IsValid s d (some i) w e v = grind (arith, fail_lem, set_origin-IsValid)

  pub mode-IsValid : (s : Stepper) (d : ℕ) (w : W) → IsValid s → IsValid (mode io s d w).0
  unfolding mode
  mode-IsValid s d w v = ground (arith, set_mode-IsValid s d (find_divisor d divisors 0) w)

  pub stop-IsValid : (s : Stepper) (w : W) → IsValid (stop io s w).0
  stop-IsValid s w = ground (arith, stop_lem s w)

pub data Call : Type 0 where
  stop_call : Call
  mode_call : ℕ → Call
  move_call : ℤ → Call
  poll_call : Call

module _ {W : Type 0} (io : TicIo W) where
  abbrev pub step : Call → Stepper × W → Stepper × W
  step stop_call (s, w) = ((stop io s w).0, (stop io s w).2)
  step (mode_call d) (s, w) = ((mode io s d w).0, (mode io s d w).2)
  step (move_call steps) (s, w) = ((move io s steps w).0, (move io s steps w).2)
  step poll_call (s, w) = poll io s w

  abbrev pub run : List Call → Stepper × W → Stepper × W
  run [] s = s
  run (e ∷ es) s = run es (step e s)

  -- Any calls at all keep the flag of the driver in step with the state: it is set exactly in a move and
  -- after it.
  stepper_run-IsValid :
      (es : List Call) (s : Stepper) (w : W) → IsValid s → IsValid (run es (s, w)).0
  stepper_run-IsValid [] s w v = v
  stepper_run-IsValid (stop_call ∷ es) s w v =
      stepper_run-IsValid es (stop io s w).0 (stop io s w).2 (stop-IsValid io s w)
  stepper_run-IsValid (mode_call d ∷ es) s w v =
      stepper_run-IsValid es (mode io s d w).0 (mode io s d w).2 (mode-IsValid io s d w v)
  stepper_run-IsValid (move_call n ∷ es) s w v =
      stepper_run-IsValid es (move io s n w).0 (move io s n w).2 (move-IsValid io s n w v)
  stepper_run-IsValid (poll_call ∷ es) s w v =
      stepper_run-IsValid es (poll io s w).0 (poll io s w).1 (poll-IsValid io s w v)

  step_latched :
      (e : Call) (s : Stepper) (w : W)
      → s.state ≡ fault
      → s.fault_reason ≢ none
      → ((step e (s, w)).0.state ≡ fault) × ((step e (s, w)).0.fault_reason ≡ s.fault_reason)
  unfolding mode move poll
  step_latched stop_call s w f r = ground (arith, stop_lem io s w)
  step_latched (mode_call d) s w f r = ground arith
  step_latched (move_call n) s w f r = ground arith
  step_latched poll_call s w f r = ground arith

  -- A fault with a reason is latched: after any calls, successful stops included, the controller is
  -- still in FAULT and reports the reason that was recorded first.
  pub run_latched :
      (es : List Call) (s : Stepper) (w : W)
      → s.state ≡ fault
      → s.fault_reason ≢ none
      → ((run es (s, w)).0.state ≡ fault) × ((run es (s, w)).0.fault_reason ≡ s.fault_reason)
  run_latched [] s w f r = (f, refl)
  run_latched (e ∷ es) s w f r =
      let (s', w') = step e (s, w) in
      let (f', r') = step_latched e s w f r in
      let (f'', r'') = run_latched es s' w' f' (λ n. r (sym r' ∙ n)) in (f'', r'' ∙ r')
