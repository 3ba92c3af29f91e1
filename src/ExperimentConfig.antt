-- ===== src/ExperimentConfig.antt =====
-- firmware/src/sonar_experiment_config.c: the transmit settings in hardware units.
pub mod Bounds
mod Tests
use air_born_sonar.Common.{
  ℕ, ◌+◌, ◌-◌, ◌*◌, ◌/◌, ◌^◌, Bool, true, false, ◌&&◌, ◌||◌, Option, none, some, if◌then◌else◌,
  ◌==◌, ltb, leb, u32, u64, ℤ, pos, negsuc, pos_part, neg_part, neg_ℤ, ltb_ℤ, ◌-ℤ◌,
}

abbrev pub audio_hz : ℕ
audio_hz = 96000

abbrev pub capture_us : ℕ
capture_us = 50000

abbrev pub tx_start_margin_us : ℕ
tx_start_margin_us = 1000

abbrev pub tx_max_samples : ℕ
tx_max_samples = 4704

abbrev pub wav_file_max_bytes : ℕ
wav_file_max_bytes = 65536

-- `sonar_tx_mode_t`: SONAR_TX_GENERATE and SONAR_TX_WAV, the only values that the code stores.
pub data TxMode : Type 0 where
  generate wav : TxMode

-- `sonar_experiment_config_t`
pub record ExperimentConfig : Type 0 where
  pub mode : TxMode
  pub start_hz : ℕ
  pub stop_hz : ℕ
  pub duration_us : ℕ
  pub amplitude_pct : ℕ
  pub waveform_id : ℕ
  pub config_id : ℕ

-- `sonar_chirp_values_t`
pub record ChirpValues : Type 0 where
  pub start_phase_inc : ℕ  -- uint32_t
  pub phase_inc_step : ℤ  -- int32_t
  pub total_samples : ℕ
  pub amplitude : ℕ
  pub duration_us : ℕ

-- `(uint32_t)((((uint64_t)hz << 32U) + SONAR_AUDIO_HZ / 2U) / SONAR_AUDIO_HZ)`
unfoldable pub phase_inc : ℕ → ℕ
phase_inc hz = u32 (u64 (u64 (hz * 2 ^ 32) + audio_hz / 2) / audio_hz)

-- `delta >= 0 ? (delta + denominator / 2) / denominator : -((-delta + denominator / 2) / denominator)`,
-- with a positive denominator.
unfoldable pub rounded_step : ℤ → ℕ → ℤ
rounded_step delta denominator =
    if ltb_ℤ delta (pos 0)
    then neg_ℤ (pos ((neg_part delta + denominator / 2) / denominator))
    else pos ((pos_part delta + denominator / 2) / denominator)

-- The assignments and checks after the branches on the mode.
finish : ℕ → ℕ → ℤ → ℕ → Option ChirpValues
finish amplitude_pct start_inc step samples =
    let duration = u32 (u64 (samples * 1000000 + audio_hz - 1) / audio_hz) in
    if ltb capture_us (u32 (duration + tx_start_margin_us))
    then none
    else some record {
      start_phase_inc = start_inc;
      phase_inc_step = step;
      total_samples = samples;
      amplitude = u32 (amplitude_pct * 32767 + 50) / 100;
      duration_us = duration;
    }

calculate_generated : ExperimentConfig → Option ChirpValues
calculate_generated c =
    if c.start_hz == 0
      || c.stop_hz == 0
      || leb (audio_hz / 2) c.start_hz
      || leb (audio_hz / 2) c.stop_hz
      || c.duration_us == 0
      || ltb (capture_us - tx_start_margin_us) c.duration_us
    then none
    else let samples = u32 (u64 (u64 (c.duration_us * audio_hz) + 500000) / 1000000) in
      if ltb samples 2 || ltb tx_max_samples samples
      then none
      else let start_inc = phase_inc c.start_hz in
        let step = rounded_step (pos (phase_inc c.stop_hz) -ℤ pos start_inc) (samples - 1) in
        if ltb_ℤ step (negsuc 2147483647) || ltb_ℤ (pos 2147483647) step
        then none
        else finish c.amplitude_pct start_inc step samples

calculate_wav : ExperimentConfig → ℕ → Option ChirpValues
calculate_wav c wav_samples =
    if c.waveform_id == 0 || wav_samples == 0 || ltb tx_max_samples wav_samples
    then none
    else finish c.amplitude_pct 0 (pos 0) wav_samples

by_mode : TxMode → ExperimentConfig → ℕ → Option ChirpValues
by_mode generate c wav_samples = calculate_generated c
by_mode wav c wav_samples = calculate_wav c wav_samples

-- `sonar_experiment_calculate`; `none` is the refusal, which leaves the output alone.
unfoldable pub calculate : ExperimentConfig → ℕ → Option ChirpValues
unfolding by_mode calculate_generated calculate_wav finish ◌-ℤ◌
calculate c wav_samples = if ltb 100 c.amplitude_pct then none else by_mode c.mode c wav_samples
