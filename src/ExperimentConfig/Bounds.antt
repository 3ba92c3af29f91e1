-- ===== src/ExperimentConfig/Bounds.antt =====
-- What firmware/src/sonar_experiment_config.c accepts, and the ranges of what it gives the hardware.
use air_born_sonar.Common.{
  ℕ, suc, ◌≢◌, ◌↔◌, ◌+◌, ◌-◌, ◌*◌, ◌/◌, ◌≤◌, ◌<◌, ◌≡◌, none, some, arith, ℤ, pos, negsuc, ◌≤ℤ◌,
  ◌-ℤ◌, pos_part, neg_part, if◌then◌else◌, ltb,
}
use native.Mathlib.Nat.{div-le_self, div-mul-le_self, lt-div-mul-add}
use air_born_sonar.ExperimentConfig.{
  generate, ExperimentConfig, ChirpValues, phase_inc, rounded_step, calculate, finish,
  calculate_generated, tx_max_samples, capture_us, tx_start_margin_us,
}

-- Below the Nyquist frequency of 48 kHz a phase increment is at most half a turn, and is the nearest
-- one to the frequency.
phase_inc-bounds :
    (hz : ℕ)
    → hz < 48000
    → (phase_inc hz ≤ 2147483648)
      × (phase_inc hz * 96000 ≤ hz * 4294967296 + 48000)
      × (hz * 4294967296 < phase_inc hz * 96000 + 48000)
unfolding phase_inc
phase_inc-bounds hz h = omega arith

-- The values that are handed to the chirp generator.
pub record InRange (v : ChirpValues) : Type 0 where
  pub samples_pos : 0 < v.total_samples
  pub samples_max : v.total_samples ≤ tx_max_samples
  pub amplitude_max : v.amplitude ≤ 32767
  pub phase_max : v.start_phase_inc ≤ 2147483648
  pub step_min : negsuc 2147483647 ≤ℤ v.phase_inc_step
  pub step_max : v.phase_inc_step ≤ℤ pos 2147483647
  pub fits_capture : v.duration_us + tx_start_margin_us ≤ capture_us
  pub long_enough : v.total_samples * 1000000 ≤ v.duration_us * 96000
  pub not_longer : v.duration_us * 96000 < v.total_samples * 1000000 + 96000

-- Whatever is accepted, in either mode, is in the range of the hardware: 1 to 4704 samples, an
-- amplitude of at most 32767, phase increments that fit their words, and a duration that is the
-- samples' time rounded up and leaves the start margin inside the 50 ms capture.
pub calculate-InRange :
    (c : ExperimentConfig) (wav_samples : ℕ) (v : ChirpValues)
    → calculate c wav_samples ≡ some v
    → InRange v
unfolding calculate
calculate-InRange c wav_samples v h = ground (arith, phase_inc-bounds c.start_hz)

rounded_step-bounds :
    (delta : ℤ) (n : ℕ)
    → 0 < n
    → (pos_part (rounded_step delta n) * n ≤ pos_part delta + n / 2)
      × (pos_part delta ≤ pos_part (rounded_step delta n) * n + n / 2)
      × (neg_part (rounded_step delta n) * n ≤ neg_part delta + n / 2)
      × (neg_part delta ≤ neg_part (rounded_step delta n) * n + n / 2)
unfolding rounded_step
rounded_step-bounds (pos d) n h =
    ground (arith, div-mul-le_self (d + n / 2) n, lt-div-mul-add {a = d + n / 2} h)
rounded_step-bounds (negsuc d) n h =
    ground (arith, div-mul-le_self (suc d + n / 2) n, lt-div-mul-add {a = suc d + n / 2} h)

-- A frequency sweep ends where it should: one step per sample after the first, the phase increment
-- is off the increment of the stop frequency by at most half of the number of steps.
sweep_end :
    (c : ExperimentConfig) (wav_samples : ℕ) (v : ChirpValues)
    → c.mode ≡ generate
    → calculate c wav_samples ≡ some v
    → let delta = pos (phase_inc c.stop_hz) -ℤ pos (phase_inc c.start_hz) in
      let n = v.total_samples - 1 in
      (v.start_phase_inc ≡ phase_inc c.start_hz)
      × (pos_part v.phase_inc_step * n ≤ pos_part delta + n / 2)
      × (pos_part delta ≤ pos_part v.phase_inc_step * n + n / 2)
      × (neg_part v.phase_inc_step * n ≤ neg_part delta + n / 2)
      × (neg_part delta ≤ neg_part v.phase_inc_step * n + n / 2)
unfolding calculate
sweep_end c wav_samples v m h = ground (
  arith,
  rounded_step-bounds (pos (phase_inc c.stop_hz) -ℤ pos (phase_inc c.start_hz))
      (v.total_samples - 1),
)

-- The generated chirps that the hardware can play.
pub record IsPlayable (c : ExperimentConfig) : Type 0 where
  pub amplitude_ok : c.amplitude_pct ≤ 100
  pub start_pos : 0 < c.start_hz
  pub start_below : c.start_hz < 48000
  pub stop_pos : 0 < c.stop_hz
  pub stop_below : c.stop_hz < 48000
  pub two_samples : 16 ≤ c.duration_us
  pub in_window : c.duration_us ≤ 49000

rounded_step-fits :
    (delta : ℤ) (n : ℕ)
    → pos_part delta ≤ 2147438910
    → neg_part delta ≤ 2147438910
    → n ≤ 4704
    → (negsuc 2147483647 ≤ℤ rounded_step delta n) × (rounded_step delta n ≤ℤ pos 2147483647)
unfolding rounded_step
rounded_step-fits (pos d) n p q h = ground (arith, div-le_self (d + n / 2) n)
rounded_step-fits (negsuc d) n p q h = ground (arith, div-le_self (suc d + n / 2) n)

phase_inc-small : (hz : ℕ) → hz < 48000 → phase_inc hz ≤ 2147438910
unfolding phase_inc
phase_inc-small hz h = omega arith

-ℤ-parts_le :
    (a b m : ℕ) → a ≤ m → b ≤ m → (pos_part (pos a -ℤ pos b) ≤ m) × (neg_part (pos a -ℤ pos b) ≤ m)
unfolding ◌-ℤ◌
-ℤ-parts_le a b m p q = ground arith

sweep_step-fits :
    (start stop n : ℕ)
    → start < 48000
    → stop < 48000
    → n ≤ 4704
    → let step = rounded_step (pos (phase_inc stop) -ℤ pos (phase_inc start)) n in
      (negsuc 2147483647 ≤ℤ step) × (step ≤ℤ pos 2147483647)
sweep_step-fits start stop n p q h =
    let (a, b) =
      -ℤ-parts_le (phase_inc stop) (phase_inc start) 2147438910 (phase_inc-small stop q)
        (phase_inc-small start p) in
    rounded_step-fits (pos (phase_inc stop) -ℤ pos (phase_inc start)) n a b h

finish-ne-none :
    (amplitude inc : ℕ) (step : ℤ) (samples : ℕ)
    → samples ≤ 4704
    → finish amplitude inc step samples ≢ none
unfolding finish
finish-ne-none amplitude inc step samples h = ground arith

calculate_generated-ne-none : (c : ExperimentConfig) → IsPlayable c → calculate_generated c ≢ none
unfolding calculate_generated
calculate_generated-ne-none c p =
    let n = (c.duration_us * 96000 + 500000) / 1000000 in
    ground (
      arith,
      sweep_step-fits c.start_hz c.stop_hz (n - 1) p.start_below p.stop_below (omega arith),
      finish-ne-none c.amplitude_pct (phase_inc c.start_hz)
          (rounded_step (pos (phase_inc c.stop_hz) -ℤ pos (phase_inc c.start_hz)) (n - 1)) n
          (omega arith),
    )

IsPlayable-of_generated :
    (c : ExperimentConfig) → c.amplitude_pct ≤ 100 → calculate_generated c ≢ none → IsPlayable c
unfolding calculate_generated
IsPlayable-of_generated c a h = ground arith

calculate-eq :
    (c : ExperimentConfig) (wav_samples : ℕ)
    → c.mode ≡ generate
    → calculate c wav_samples ≡ (if ltb 100 c.amplitude_pct then none else calculate_generated c)
unfolding calculate
calculate-eq c wav_samples m = rw m

-- A generated chirp is accepted exactly if it is playable: an amplitude of 0 to 100 %, both
-- frequencies above 0 and below 48 kHz, and a duration of 16 us to 49 ms. The code's further checks,
-- on the step, on the number of samples and on the rounded duration, refuse nothing else.
pub calculate_iff :
    (c : ExperimentConfig) (wav_samples : ℕ)
    → c.mode ≡ generate
    → (calculate c wav_samples ≢ none) ↔ IsPlayable c
calculate_iff c wav_samples m = (
  λ h. ground (arith, calculate-eq c wav_samples m, IsPlayable-of_generated c),
  λ p. ground (arith, calculate-eq c wav_samples m, calculate_generated-ne-none c p),
)
