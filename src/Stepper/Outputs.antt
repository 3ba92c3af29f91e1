-- ===== src/Stepper/Outputs.antt =====
-- The coils of the motor under firmware/src/sonar_stepper.c.
use Prim.Native.String.{String}
use air_born_sonar.Common.{
  ℕ, ◌≡◌, ◌≢◌, ◌⊎◌, Bool, true, false, Option, none, some, List, [], ◌∷◌, arith, ℤ, le_bytes4, ◌+ℤ◌,
}
use air_born_sonar.Stepper.{
  read_vars, mode_of, find_divisor, divisors, idle, moving, done, fault, TicIo, Stepper, status,
  stop, fail, set_origin, set_mode, mode, start_move, move, poll_target, poll_status, poll_timeout,
  poll_keepalive, poll,
}
use air_born_sonar.Stepper.Faults.{
  IsValid, Call, stop_call, mode_call, move_call, poll_call, step, run, status-keeps, fail_lem,
  stop-IsValid, mode-IsValid, move-IsValid, poll-IsValid,
}

-- What the controller does. `coils` says whether the driver is energized, and `refused` whether the last
-- command to de-energize it has failed on the bus. A command 0x86 that is taken de-energizes the driver;
-- the other commands but 0x85 do not energize it, taken or not, nor do reads and the clock.
pub record Drives {W : Type 0} (io : TicIo W) (coils refused : W → Bool) : Type 0 where
  pub de_energize :
      (address : ℕ) (w : W)
      → let (taken, w') = io.write address (0x86 ∷ []) w in
        (taken ≡ true → coils w' ≡ false) × (taken ≡ false → refused w' ≡ true)
  pub other :
      (address command : ℕ) (bytes : List ℕ) (w : W)
      → command ≢ 0x85
      → command ≢ 0x86
      → let w' = (io.write address (command ∷ bytes) w).1 in
        (coils w ≡ false → coils w' ≡ false) × (refused w ≡ true → refused w' ≡ true)
  pub read :
      (address n : ℕ) (w : W)
      → let w' = (io.read address n w).2 in
        (coils w ≡ false → coils w' ≡ false) × (refused w ≡ true → refused w' ≡ true)

module _ {W : Type 0} (io : TicIo W) (coils refused : W → Bool)
    (drives : Drives io coils refused) where
  abbrev Kept : W → W → Type 0
  Kept w w' = (coils w ≡ false → coils w' ≡ false) × (refused w ≡ true → refused w' ≡ true)

  -- The controller is valid; its coils are off while it is idle, and in FAULT, if the bus has taken the
  -- last command that turns them off.
  abbrev pub IsSafe : Stepper × W → Type 0
  IsSafe (s, w) =
      IsValid s
      × (s.state ≡ idle → coils w ≡ false)
      × (s.state ≡ fault → (coils w ≡ false) ⊎ (refused w ≡ true))

  read_vars-Kept : (s : Stepper) (offset n : ℕ) (w : W) → Kept w (read_vars io s offset n w).2
  unfolding read_vars
  read_vars-Kept s offset n w =
      let w₁ = (io.write s.config.address (0xa1 ∷ offset ∷ []) w).1 in
      ground (
        arith,
        drives.other s.config.address 0xa1 (offset ∷ []) w (omega arith) (omega arith),
        drives.read s.config.address n w₁,
      )

  status-Kept : (s : Stepper) (w : W) → Kept w (status io s w).2
  unfolding status
  status-Kept s w =
      ground (arith, read_vars-Kept s 0 4 w, read_vars-Kept s 0x22 8 (read_vars io s 0 4 w).2)

  -- A stop sends 0x86 last but for reads.
  stop-Off :
      (s : Stepper) (w : W)
      → let (s', fine, w') = stop io s w in
        ((coils w' ≡ false) ⊎ (refused w' ≡ true))
        × (fine ≡ true → coils w' ≡ false)
        × (s'.state ≡ idle → fine ≡ true)
  unfolding stop
  stop-Off s w =
      let w₁ = (io.write s.config.address (0x89 ∷ []) w).1 in
      let (taken, w₂) = io.write s.config.address (0x86 ∷ []) w₁ in
      ground (arith, drives.de_energize s.config.address w₁, status-Kept s w₂)

  stop-IsSafe : (s : Stepper) (w : W) → IsSafe ((stop io s w).0, (stop io s w).2)
  stop-IsSafe s w =
      let v = stop-IsValid io s w in let o = stop-Off s w in (v, ground arith, ground arith)

  fail-Off :
      (s : Stepper) (reason : String) (w : W)
      → let w' = (fail io s reason w).1 in (coils w' ≡ false) ⊎ (refused w' ≡ true)
  unfolding fail
  fail-Off s reason w =
      let first = record s {
        fault_reason = some reason;
        fault_tic = s.tic;
        fault_status_valid = s.status_valid;
      } in
      ground (arith, stop-Off s w, stop-Off first w)

  -- What is asked of the coils alone.
  abbrev IsQuiet : Stepper → W → Type 0
  IsQuiet s w =
      (s.state ≡ idle → coils w ≡ false)
      × (s.state ≡ fault → (coils w ≡ false) ⊎ (refused w ≡ true))

  fail-IsQuiet :
      (s : Stepper) (reason : String) (w : W)
      → IsQuiet (fail io s reason w).0 (fail io s reason w).1
  fail-IsQuiet s reason w = ground (arith, fail-Off s reason w, fail_lem io s reason w)

  set_origin-IsQuiet :
      (s : Stepper) (d : ℕ) (w : W)
      → s.state ≡ idle
      → coils w ≡ false
      → IsQuiet (set_origin io s d w).0 (set_origin io s d w).2
  unfolding set_origin
  set_origin-IsQuiet s d w i c =
      let w₁ = (io.write s.config.address (0xec ∷ le_bytes4 0) w).1 in
      let (s', got, w₂) = status io s w₁ in
      ground (
        arith,
        drives.other s.config.address 0xec (le_bytes4 0) w (omega arith) (omega arith),
        status-Kept s w₁,
        status-keeps io s w₁,
        fail-IsQuiet s "ORIGIN" w₁,
        fail-IsQuiet s' "ORIGIN" w₂,
      )

  set_mode-IsQuiet :
      (s : Stepper) (d : ℕ) (o : Option ℕ) (w : W)
      → s.state ≡ idle
      → coils w ≡ false
      → IsQuiet (set_mode io s d o w).0 (set_mode io s d o w).2
  unfolding set_mode
  set_mode-IsQuiet s d none w i c = ground arith
  set_mode-IsQuiet s d (some m) w i c =
      let w₁ = (io.write s.config.address (0x94 ∷ mode_of m ∷ []) w).1 in
      let w₂ = (read_vars io s 0x49 1 w₁).2 in
      ground (
        arith,
        drives.other s.config.address 0x94 (mode_of m ∷ []) w (omega arith) (omega arith),
        read_vars-Kept s 0x49 1 w₁,
        fail-IsQuiet s "STEP_MODE" w₁,
        fail-IsQuiet s "STEP_MODE" w₂,
        set_origin-IsQuiet s d w₂,
      )

  mode-IsSafe :
      (s : Stepper) (d : ℕ) (w : W) → IsSafe (s, w) → IsSafe ((mode io s d w).0, (mode io s d w).2)
  unfolding mode
  mode-IsSafe s d w (v, i, f) =
      let q = set_mode-IsQuiet s d (find_divisor d divisors 0) w in
      (mode-IsValid io s d w v, ground (arith, q), ground (arith, q))

  -- A move that is started or ended by its commands is not idle.
  start_move-IsQuiet : (s : Stepper) (w : W) → IsQuiet (start_move io s w).0 (start_move io s w).2
  unfolding start_move
  start_move-IsQuiet s w = grind (arith, fail-IsQuiet)

  move-IsSafe :
      (s : Stepper) (steps : ℤ) (w : W)
      → IsSafe (s, w)
      → IsSafe ((move io s steps w).0, (move io s steps w).2)
  unfolding move
  move-IsSafe s steps w (v, i, f) =
      let (s', got, w') = status io s w in
      let a = fail-IsQuiet s' "NOT_STATIONARY_OR_BUS" w' in
      let b = fail-IsQuiet s' "POSITION_RANGE" w' in
      let c = start_move-IsQuiet (record s' { target = s'.tic.position +ℤ steps }) w' in
      (move-IsValid io s steps w v, ground (arith, a, b, c), ground (arith, a, b, c))

  poll_target-IsQuiet :
      (s : Stepper) (w : W)
      → s.state ≡ moving
      → IsQuiet (poll_target io s w).0 (poll_target io s w).1
  unfolding poll_target
  poll_target-IsQuiet s w m =
      ground (arith, fail-IsQuiet s "TARGET_READBACK" (read_vars io s 9 5 w).2)

  abbrev Runs : Stepper → Type 0
  Runs s = (s.state ≡ moving) ⊎ (s.state ≡ done)

  poll_status-IsQuiet :
      (s : Stepper) (w : W) → Runs s → IsQuiet (poll_status io s w).0 (poll_status io s w).1
  unfolding poll_status
  poll_status-IsQuiet s w r =
      let (s', got, w') = status io s w in
      ground (
        arith,
        status-keeps io s w,
        fail-IsQuiet s' "CONTROLLER_STATUS_OR_BUS" w',
        poll_target-IsQuiet s' w',
      )

  poll_timeout-IsQuiet :
      (s : Stepper) (now : ℕ) (w : W)
      → Runs s
      → IsQuiet (poll_timeout io s now w).0 (poll_timeout io s now w).1
  unfolding poll_timeout
  poll_timeout-IsQuiet s now w r =
      ground (arith, fail-IsQuiet s "MOVE_TIMEOUT" w, poll_status-IsQuiet s w r)

  poll_keepalive-IsQuiet :
      (s : Stepper) (now : ℕ) (w : W)
      → Runs s
      → IsQuiet (poll_keepalive io s now w).0 (poll_keepalive io s now w).1
  unfolding poll_keepalive
  poll_keepalive-IsQuiet s now w r =
      let (written, w₁) = io.write s.config.address (0x8c ∷ []) w in
      let (again, w₂) = io.clock w₁ in
      ground (
        arith,
        fail-IsQuiet s "KEEPALIVE_LATE" w,
        fail-IsQuiet s "KEEPALIVE_WRITE" w₁,
        poll_timeout-IsQuiet (record s { last_keepalive = again }) now w₂,
        poll_timeout-IsQuiet s now w r,
      )

  poll-IsSafe : (s : Stepper) (w : W) → IsSafe (s, w) → IsSafe (poll io s w)
  unfolding poll
  poll-IsSafe s w (v, i, f) =
      let (now, w') = io.clock w in
      let q = poll_keepalive-IsQuiet s now w' in
      let off = v.off in (poll-IsValid io s w v, ground (arith, q), ground (arith, q))

  step-IsSafe : (e : Call) (s : Stepper) (w : W) → IsSafe (s, w) → IsSafe (step io e (s, w))
  step-IsSafe stop_call s w h = stop-IsSafe s w
  step-IsSafe (mode_call d) s w h = mode-IsSafe s d w h
  step-IsSafe (move_call n) s w h = move-IsSafe s n w h
  step-IsSafe poll_call s w h = poll-IsSafe s w h

  run-IsSafe : (es : List Call) (s : Stepper) (w : W) → IsSafe (s, w) → IsSafe (run io es (s, w))
  run-IsSafe [] s w h = h
  run-IsSafe (e ∷ es) s w h =
      run-IsSafe es (step io e (s, w)).0 (step io e (s, w)).1 (step-IsSafe e s w h)

  -- Any calls at all keep the coils in step with the state: they are off whenever the controller is idle,
  -- and off in FAULT too, unless the bus has refused the last command to turn them off; and the flag of the
  -- driver is set exactly in a move and after it. It needs a controller that obeys 0x86 and is energized by
  -- 0x85 only.
  pub stepper_run-IsSafe :
      (es : List Call) (s : Stepper) (w : W)
      → IsSafe (s, w)
      → let (s', w') = run io es (s, w) in
        IsValid s'
        × (s'.state ≡ idle → coils w' ≡ false)
        × (s'.state ≡ fault → (coils w' ≡ false) ⊎ (refused w' ≡ true))
  stepper_run-IsSafe es s w h = run-IsSafe es s w h
