-- ===== src/Stepper/Motion.antt =====
-- Moves of firmware/src/sonar_stepper.c: where they go, what is sent for them, and when they end.
use air_born_sonar.Common.{ℕ, ◌≡◌, ◌≢◌, ◌⊎◌, true, [], ◌∷◌, arith, ℤ, pos, negsuc, ◌+ℤ◌, ◌≤ℤ◌}
use air_born_sonar.Stepper.{
  idle, moving, done, TicIo, Stepper, status, read_vars, start_move, move, poll_target, poll_status,
  poll_timeout, poll_keepalive, poll,
}
use air_born_sonar.Stepper.Faults.{fail_lem, status-keeps}

module _ {W : Type 0} (io : TicIo W) where
  start_move-moving :
      (s : Stepper) (w : W)
      → (start_move io s w).1 ≡ true
      → let s' = (start_move io s w).0 in
        (s'.state ≡ moving)
        × (s'.energized ≡ true)
        × (s'.target ≡ s.target)
        × (s'.last_keepalive ≡ s'.start_tick)
  unfolding start_move
  start_move-moving s w h = ground arith

  -- A move that is accepted started from an idle or finished controller that was seen stationary; it
  -- is then moving, energized, towards the position that was read plus the steps, which fits int32_t,
  -- and both of its clocks start together. A move of no steps is never accepted.
  pub move-moving :
      (s : Stepper) (steps : ℤ) (w : W)
      → (move io s steps w).1 ≡ true
      → let s' = (move io s steps w).0 in
        let seen = (status io s w).0 in
        ((s.state ≡ idle) ⊎ (s.state ≡ done))
        × (steps ≢ pos 0)
        × ((status io s w).1 ≡ true)
        × (seen.tic.velocity ≡ pos 0)
        × (s'.state ≡ moving)
        × (s'.energized ≡ true)
        × (s'.target ≡ seen.tic.position +ℤ steps)
        × (negsuc 2147483647 ≤ℤ s'.target)
        × (s'.target ≤ℤ pos 2147483647)
        × (s'.last_keepalive ≡ s'.start_tick)
  unfolding move
  move-moving s steps w h =
      let (seen, got, w') = status io s w in
      ground (arith, start_move-moving (record seen { target = seen.tic.position +ℤ steps }) w')

  -- What an ending move looks like, as `poll_target` and those that call it leave it.
  abbrev pub InPlace : Stepper → Stepper → Type 0
  InPlace s s' =
      s'.state ≡ done
      → (s'.tic.position ≡ s.target) × (s'.tic.velocity ≡ pos 0) × (s'.target ≡ s.target)

  poll_target-InPlace : (s : Stepper) (w : W) → s.state ≡ moving → InPlace s (poll_target io s w).0
  unfolding poll_target
  poll_target-InPlace s w m d =
      ground (arith, fail_lem io s "TARGET_READBACK" (read_vars io s 9 5 w).2)

  poll_status-InPlace : (s : Stepper) (w : W) → s.state ≡ moving → InPlace s (poll_status io s w).0
  unfolding poll_status
  poll_status-InPlace s w m d =
      let (s', got, w') = status io s w in
      ground (
        arith,
        status-keeps io s w,
        fail_lem io s' "CONTROLLER_STATUS_OR_BUS" w',
        poll_target-InPlace s' w',
      )

  poll_timeout-InPlace :
      (s : Stepper) (now : ℕ) (w : W) → s.state ≡ moving → InPlace s (poll_timeout io s now w).0
  unfolding poll_timeout
  poll_timeout-InPlace s now w m d =
      ground (arith, fail_lem io s "MOVE_TIMEOUT" w, poll_status-InPlace s w m)

  poll_keepalive-InPlace :
      (s : Stepper) (now : ℕ) (w : W) → s.state ≡ moving → InPlace s (poll_keepalive io s now w).0
  unfolding poll_keepalive
  poll_keepalive-InPlace s now w m d =
      let (written, w₁) = io.write s.config.address (0x8c ∷ []) w in
      let (again, w₂) = io.clock w₁ in
      ground (
        arith,
        fail_lem io s "KEEPALIVE_LATE" w,
        fail_lem io s "KEEPALIVE_WRITE" w₁,
        poll_timeout-InPlace (record s { last_keepalive = again }) now w₂,
        poll_timeout-InPlace s now w m,
      )

  -- A poll that ends a move as done has just read the position that was the target of the move, and
  -- zero velocity; the target is unchanged.
  poll-InPlace :
      (s : Stepper) (w : W)
      → s.state ≡ moving
      → (poll io s w).0.state ≡ done
      → ((poll io s w).0.tic.position ≡ s.target)
        × ((poll io s w).0.tic.velocity ≡ pos 0)
        × ((poll io s w).0.target ≡ s.target)
  unfolding poll
  poll-InPlace s w m d = ground (arith, poll_keepalive-InPlace s (io.clock w).0 (io.clock w).1 m)
