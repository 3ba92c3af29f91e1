-- ===== src/Coordinator.antt =====
-- firmware/src/sonar_experiment_coordinator.c: the task that composes the parts of an experiment.
-- The board, with the other tasks, is an interface on a world `H`; the messages are left out.
pub mod Round
pub mod Capturing
pub mod Quiet
pub mod Retaining
pub mod Starting
mod Tests
use air_born_sonar.Common.{
  ℕ, ◌+◌, ◌*◌, Bool, true, false, not, ◌&&◌, ◌||◌, Option, none, some, List, [], ◌∷◌, if◌then◌else◌,
  ◌==◌, u32, ℤ, pos, negsuc, is_zero_ℤ,
}
use air_born_sonar.ExperimentConfig.{audio_hz, TxMode, wav}
use air_born_sonar.Identity.{disarm, snapshot}
use air_born_sonar.ControlService.{Service, is_wav}
use air_born_sonar.Scan360.{Scan, capture_index, next_delta, mark_move_started}
use air_born_sonar.Scan360
use air_born_sonar.Frames.{Frames, FrameMeta, free, acquire, discard, acq_pdm_hz, acq_words}
use air_born_sonar.Mic.{Mic, MicIo, MicConfig, MicEvent}
use air_born_sonar.Mic
use air_born_sonar.Stepper.{Stepper, TicIo}
use air_born_sonar.Stepper
use air_born_sonar.MeasurementCycle.{CycleIo}

-- What the task uses of the board and of the other tasks. `stop_pending` is the value of
-- `stop_requested || inhibited`, which other tasks set.
pub record Board (H : Type 0) : Type 0 where
  pub tic : TicIo H
  pub mic_io : MicIo H
  pub speaker_enable : Bool → H → Bool × H
  pub chirp_prepare : H → Bool × H
  pub chirp_abort : H → Bool × H
  pub ticks : H → ℕ × H
  pub trigger_us : H → ℕ
  pub stop_pending : H → Bool
  pub address : ℕ → ℕ  -- of `sonar_frame_data[i]`
  pub capture_ticks : ℕ  -- `pdMS_TO_TICKS` of the capture timeout

-- The static objects that the callbacks of the cycle share. `none` is -1 for `filling`.
pub record Lab : Type 0 where
  pub motor : Stepper
  pub mic : Mic
  pub frames : Frames
  pub filling : Option ℕ
  pub scan : Scan
  pub metadata : FrameMeta
  pub motor_ready : Bool
  pub waiting_for_buffer : Bool
  pub service : Service

-- `SONAR_ACQ_BYTES` and `SONAR_ACQ_SPAN`
abbrev pub acq_bytes : ℕ
acq_bytes = acq_words * 4

abbrev pub acq_span : ℕ
acq_span = 240000

-- The metadata that `capture` starts with.
abbrev pub metadata_of : Lab → ℕ → FrameMeta
metadata_of l sequence =
    let tx = l.service.active in
    let tv = l.service.values in
    let (boot, test) = snapshot l.service.identity in
    record {
      sequence = sequence;
      flags = 15 + u32 (tx.config_id * 65536) + (if is_wav tx.mode then 0x200 else 0);
      divisor = l.motor.divisor;
      steps = next_delta l.scan;
      position = l.motor.tic.position;
      trigger_us = 0;
      completion_us = 0;
      tx_duration_us = tv.duration_us;
      config_id = tx.config_id;
      tx_mode = if is_wav tx.mode then 1 else 0;
      tx_start_hz = tx.start_hz;
      tx_stop_hz = tx.stop_hz;
      tx_amplitude_pct = tx.amplitude_pct;
      tx_samples = tv.total_samples;
      waveform_id = tx.waveform_id;
      waveform_crc = if is_wav tx.mode then l.service.upload.current_crc else 0;
      tx_sample_hz = audio_hz;
      boot_id = boot;
      test_id = test;
    }

module _ {H : Type 0} (board : Board H) where
  -- `stop_outputs`
  unfoldable pub stop_outputs : Lab × H → Bool × (Lab × H)
  stop_outputs (l, h) =
      let service' = record l.service { identity = disarm l.service.identity } in
      let (muted, h₁) = board.speaker_enable false h in
      let (motor', halted, h₂) = Stepper.stop board.tic l.motor h₁ in
      let (sent₂, h₃) = board.chirp_abort h₂ in
      let (sent₁, h₃') = board.chirp_abort h₁ in
      if l.motor_ready
      then (muted && halted && sent₂, (record l { service = service'; motor = motor' }, h₃))
      else (false, (record l { service = service' }, h₃'))

  -- `move_motor`; the steps of the cycle are not used.
  unfoldable pub move_motor : ℤ → Lab × H → Bool × (Lab × H)
  move_motor unused (l, h) =
      let delta = next_delta l.scan in
      let (motor', moved, h') = Stepper.move board.tic l.motor delta h in
      if capture_index l.scan == 0 || is_zero_ℤ delta
      then (false, (l, h))
      else if not moved
      then (false, (record l { motor = motor' }, h'))
      else (true, (record l { motor = motor'; scan = mark_move_started l.scan }, h'))

  abbrev pub mic_config : MicConfig
  mic_config = record {
    bytes = acq_bytes;
    timeout_ticks = board.capture_ticks;
    pdm_hz = acq_pdm_hz;
  }

  -- The end of `capture`, from the start of the microphone on.
  pub record_capture : ℕ → ℕ → Lab → H → ℤ × ℕ × (Lab × H)
  record_capture sequence trigger l h =
      let (now, h₁) = board.ticks h in
      let (mic', started, h₂) = Mic.start board.mic_io l.mic now h₁ in
      let metadata' = record (metadata_of l sequence) { trigger_us = board.trigger_us h₂ } in
      if not started
      then (negsuc 0, trigger, (record l { mic = mic'; metadata = metadata_of l sequence }, h₂))
      else (pos 1, board.trigger_us h₂, (record l { mic = mic'; metadata = metadata' }, h₂))

  -- `capture` with slot `i` acquired and no stop pending.
  pub capture_slot : ℕ → ℕ → ℕ → Lab → H → ℤ × ℕ × (Lab × H)
  capture_slot i sequence trigger l h =
      let (mic', accepted) = Mic.init mic_config (board.address i) acq_span in
      let l' = record l { mic = mic' } in
      let (enabled, h') = board.speaker_enable true h in
      if not accepted
      then (negsuc 0, trigger, (l', h))
      else if not enabled
      then (negsuc 0, trigger, (l', h'))
      else record_capture sequence trigger l' h'

  -- `capture` from the result of `sonar_frames_acquire` on.
  pub capture_into : Option ℕ → ℕ → ℕ → Lab → H → ℤ × ℕ × (Lab × H)
  capture_into none sequence trigger l h =
      (pos 0, trigger, (record l { filling = none; waiting_for_buffer = true }, h))
  capture_into (some i) sequence trigger l₀ h =
      let l = record l₀ { filling = some i; waiting_for_buffer = false } in
      let (prepared, h₁) = board.chirp_prepare h in
      let (sent, h₂) = board.chirp_abort h₁ in
      if not prepared
      then (negsuc 0, trigger, (l, h₁))
      else if board.stop_pending h₁
      then (
        if sent then pos 0 else negsuc 0,
        trigger,
        (record l { frames = discard l.frames i; filling = none }, h₂),
      )
      else capture_slot i sequence trigger l h₁

  -- `capture`: the result, the trigger time, which is left alone without one, and the state.
  unfoldable pub capture : ℕ → ℕ → Lab × H → ℤ × ℕ × (Lab × H)
  capture sequence trigger (l, h) =
      let (frames', slot) = acquire l.frames in
      capture_into slot sequence trigger (record l { frames = frames' }) h

  -- `ci`
  abbrev pub callbacks : CycleIo (Lab × H)
  callbacks = record { capture = capture; move = move_motor; stop = stop_outputs }
