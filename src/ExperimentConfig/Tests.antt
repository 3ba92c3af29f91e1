-- ===== src/ExperimentConfig/Tests.antt =====
-- Runs of the transmit calculation.
use air_born_sonar.Common.{◌≡◌, ◌≢◌, ◌↔◌, refl, none, some, arith, pos}
use air_born_sonar.ExperimentConfig.{
  generate, wav, ExperimentConfig, ChirpValues, phase_inc, rounded_step, calculate,
}
use air_born_sonar.ExperimentConfig.Bounds.{IsPlayable, calculate_iff}

abbrev chirp : ExperimentConfig
chirp = record {
  mode = generate;
  start_hz = 20000;
  stop_hz = 30000;
  duration_us = 10000;
  amplitude_pct = 50;
  waveform_id = 0;
  config_id = 0;
}

abbrev chirp_values : ChirpValues
chirp_values = record {
  start_phase_inc = 894784853;
  phase_inc_step = pos 466520;
  total_samples = 960;
  amplitude = 16384;
  duration_us = 10000;
}

chirp_calculated : calculate chirp 0 ≡ some chirp_values
unfolding calculate phase_inc rounded_step
chirp_calculated = refl

wav_duration : calculate (record chirp { mode = wav; waveform_id = 1 }) 4704 ≢ none
unfolding calculate
wav_duration = ground arith

calculate_iff_example : (calculate chirp 0 ≢ none) ↔ IsPlayable chirp
calculate_iff_example = calculate_iff chirp 0 refl
