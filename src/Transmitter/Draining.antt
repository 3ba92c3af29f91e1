-- ===== src/Transmitter/Draining.antt =====
-- The abort of firmware/src/sonar_tx_control.c comes to an end.
use air_born_sonar.Common.{
  ℕ, zero, suc, ◌+◌, ◌*◌, ◌≤◌, ◌<◌, ◌≡◌, ◌≢◌, refl, Bool, false, Option, none, some, arith, u32,
}
use air_born_sonar.PlGpio as Gpio
use air_born_sonar.Transmitter.{TxIo, Transmitter, pl_trigger, poll, drain, finish_abort, abort}

-- The tick counter, as FreeRTOS documents it: it reads the ticks since the start, modulo 2^32. A delay of
-- one tick takes at least one tick; it and a read of a register or a clock take at most `slack`.
pub record KeepsTime {W : Type 0} (io : TxIo W) (elapsed : W → ℕ) (slack : ℕ) : Type 0 where
  pub reads : (w : W) → (io.ticks w).0 ≡ u32 (elapsed w)
  pub ticks :
      (w : W) → (elapsed w ≤ elapsed (io.ticks w).1) × (elapsed (io.ticks w).1 ≤ elapsed w + slack)
  pub delay :
      (w : W) → (elapsed w + 1 ≤ elapsed (io.delay w)) × (elapsed (io.delay w) ≤ elapsed w + slack)
  pub status :
      (w : W)
      → (elapsed w ≤ elapsed (io.status w).1) × (elapsed (io.status w).1 ≤ elapsed w + slack)
  pub clock :
      (w : W)
      → (elapsed w ≤ elapsed (io.clock_us w).1) × (elapsed (io.clock_us w).1 ≤ elapsed w + slack)
  pub small : io.io_ticks + 8 * slack < 4294967296

-- The result is there.
abbrev pub Ends : {A : Type 0} → Option A → Type 0
Ends r = r ≢ none

module _ {W : Type 0} (io : TxIo W) (elapsed : W → ℕ) (slack : ℕ)
    (time : KeepsTime io elapsed slack) where
  poll_elapsed :
      (s : Transmitter) (w : W)
      → (elapsed w ≤ elapsed (poll io (s, w)).1)
        × (elapsed (poll io (s, w)).1 ≤ elapsed w + 2 * slack)
  unfolding poll
  poll_elapsed s w = ground (arith, time.status w, time.clock (io.status w).1)

  -- With a round of fuel for each tick that is left, and one more, the loop ends.
  drain-Ends :
      (fuel begun : ℕ) (s : Transmitter) (w : W)
      → begun ≤ elapsed w
      → elapsed w ≤ begun + io.io_ticks + 5 * slack
      → begun + io.io_ticks + 1 ≤ elapsed w + fuel
      → 1 ≤ fuel
      → Ends (drain io fuel (u32 begun) (s, w))
  unfolding drain
  drain-Ends zero begun s w l u f p = absurd (omega arith)
  drain-Ends (suc fuel) begun s w l u f p =
      let (now, w₁) = io.ticks w in
      let w₂ = io.delay w₁ in
      let (s', w₃) = poll io (s, w₂) in
      ground (
        arith,
        time.small,
        time.reads w,
        time.ticks w,
        time.delay w₁,
        poll_elapsed s w₂,
        drain-Ends fuel begun s' w₃,
      )

  finish_abort-Ends :
      (drained : Option (Bool × (Transmitter × W))) → Ends drained → Ends (finish_abort io drained)
  unfolding finish_abort
  finish_abort-Ends none e = absurd (e refl)
  finish_abort-Ends (some (stopped, (s, w))) e = ground arith

  -- Aborting a transmission ends, whatever the hardware answers, on a clock that keeps time: one round more than the ticks of the
  -- deadline are enough.
  pub abort-Ends :
      (fuel : ℕ) (s : Transmitter) (w : W) → io.io_ticks + 1 ≤ fuel → Ends (abort io fuel (s, w))
  unfolding abort
  abort-Ends fuel s w f =
      let (muted, w₁) = io.speaker_enable false w in
      let (gpio', low, w₂) = Gpio.update io.player.write io.gpio_base pl_trigger 0 s.gpio w₁ in
      let s₁ = record s { gpio = gpio'; prepared = false } in
      let (begun, w₃) = io.ticks w₂ in
      let (s₂, w₄) = poll io (s₁, w₃) in
      let t = time.ticks w₂ in
      let q = poll_elapsed s₁ w₃ in
      let d : Ends (drain io fuel begun (s₂, w₄)) = rw (time.reads w₂) (
        drain-Ends fuel (elapsed w₂) s₂ w₄ (omega arith) (omega arith) (omega arith)
          (omega arith)) in
      ground (arith, finish_abort-Ends (drain io fuel begun (s₂, w₄)) d)
