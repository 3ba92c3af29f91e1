-- ===== src/Stepper/Tests.antt =====
-- Runs of the stepper, on a controller that accepts every write and answers every read alike.
use air_born_sonar.Common.{
  ◌⊎◌, ◌≡◌, ◌≢◌, ℕ, ◌+◌, refl, inl, pos, Bool, true, false, get_or, some, none, List, [], ◌∷◌, ◌+ℤ◌,
  arith, ◌==◌, if◌then◌else◌,
}
use air_born_sonar.Stepper.{
  idle, moving, done, fault, TicIo, TicConfig, Stepper, with_config, read_vars, status, start_move,
  move, poll_target, poll_status, poll_timeout, poll_keepalive, poll,
}
use air_born_sonar.Stepper.Faults.{IsValid, stop_call, Call, mode_call, move_call, poll_call, run}
use air_born_sonar.Stepper.Outputs.{Drives, stepper_run-IsSafe}

abbrev config : TicConfig
config = record {
  address = 14;
  max_speed = 2000000;
  acceleration = 40000;
  deceleration = 40000;
  run_ticks = 100;
  operation_timeout_ticks = 5000;
  keepalive_ticks = 100;
  watchdog_ticks = 1000;
}

abbrev answer : ℕ → List ℕ
answer n =
    if n == 4
    then 10 ∷ 1 ∷ 0 ∷ 0 ∷ []
    else if n == 5
    then 1 ∷ 0 ∷ 0 ∷ 0 ∷ 0 ∷ []
    else 0 ∷ 0 ∷ 0 ∷ 0 ∷ 0 ∷ 0 ∷ 0 ∷ 0 ∷ []

-- The world counts the calls; the position, the velocity and the plan are always zero.
abbrev still : TicIo ℕ
still = record {
  write = λ address bytes w. (true, w + 1);
  read = λ address n w. (true, answer n, w + 1);
  clock = λ w. (w, w + 1);
}

abbrev ready : Stepper
ready = with_config config

abbrev turning : Stepper
turning = record ready { state = moving; energized = true; last_keepalive = 5; start_tick = 5 }

abbrev broken : Stepper
broken = record ready { state = fault; fault_reason = some "MOVE_TIMEOUT" }

ready-IsValid : IsValid ready
ready-IsValid = ground arith

-- A driver that is energized by 0x85 and de-energized by 0x86.
abbrev driven : List ℕ → Bool → Bool
driven bytes on =
    if get_or bytes 0 0 == 0x86 then false else if get_or bytes 0 0 == 0x85 then true else on

abbrev driver : TicIo Bool
driver = record {
  write = λ address bytes on. (true, driven bytes on);
  read = λ address n on. (true, answer n, on);
  clock = λ on. (0, on);
}

driver-Drives : Drives driver (λ on. on) (λ on. false)
driver-Drives = record {
  de_energize = λ address on. (λ t. refl, λ f. cc);
  other = λ address command bytes on n m. (λ off. ground arith, λ r. cc);
  read = λ address n on. (λ off. off, λ r. r);
}

abbrev calls : List Call
calls = move_call (pos 4) ∷ poll_call ∷ stop_call ∷ mode_call 8 ∷ []

energizes : (run driver (move_call (pos 4) ∷ []) (ready, false)).1 ≡ true
unfolding move start_move status read_vars ◌+ℤ◌
energizes = refl

stepper_run-IsSafe_example :
    let (s', on) = run driver calls (ready, false) in
    IsValid s' × (s'.state ≡ idle → on ≡ false) × (s'.state ≡ fault → (on ≡ false) ⊎ (false ≡ true))
stepper_run-IsSafe_example =
    stepper_run-IsSafe driver (λ on. on) (λ on. false) driver-Drives calls ready false
      (ready-IsValid, (λ i. refl), λ f. inl refl)

some_reason : broken.fault_reason ≢ none
some_reason = ground arith

moves : (move still ready (pos 4) 0).1 ≡ true
unfolding move start_move status read_vars ◌+ℤ◌
moves = refl

ends : (poll still turning 10).0.state ≡ done
unfolding poll poll_keepalive poll_timeout poll_status poll_target status read_vars
ends = refl
