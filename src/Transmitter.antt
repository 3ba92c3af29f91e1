-- ===== src/Transmitter.antt =====
-- firmware/src/sonar_tx_control.c: the transmitter of the chirp.
-- The registers, the clocks, the output of the codec and the memory are an interface.
pub mod States
pub mod Draining
mod Tests
use air_born_sonar.Common.{
  ℕ, zero, suc, ◌+◌, ◌*◌, ◌/◌, ◌%◌, Bool, true, false, not, ◌&&◌, ◌||◌, Option, none, some,
  if◌then◌else◌, ◌==◌, leb, ltb, sub32, sub64, has_bit, eq_ℤ, unsigned32,
}
use air_born_sonar.ExperimentConfig.{
  TxMode, generate, wav, ExperimentConfig, ChirpValues, calculate, tx_start_margin_us,
}
use air_born_sonar.WaveformUpload.{Upload}
use air_born_sonar.PlGpio.{PlGpio}
use air_born_sonar.PlGpio as Gpio
use air_born_sonar.Playback.{PlayerIo}
use air_born_sonar.Playback

-- `SONAR_TX_TIMEOUT_MARGIN_US` and `SONAR_PL_TRIGGER`
abbrev pub tx_timeout_margin_us : ℕ
tx_timeout_margin_us = 10000

abbrev pub pl_trigger : ℕ
pl_trigger = 1

-- `profile_fits`: `sonar_audio_profile_check` has none of the two required bits.
-- `io_ticks`: `pdMS_TO_TICKS(SONAR_AUDIO_IO_TIMEOUT_MS)`.
pub record TxIo (W : Type 0) : Type 0 where
  pub player : PlayerIo W
  pub status : W → ℕ × W
  pub clock_us : W → ℕ × W
  pub ticks : W → ℕ × W
  pub delay : W → W
  pub speaker_enable : Bool → W → Bool × W
  pub profile_fits : Bool
  pub status_base : ℕ
  pub status_width : ℕ
  pub freq_base : ℕ
  pub gpio_base : ℕ
  pub io_ticks : ℕ

-- The static variables, with those of the two files that only this one drives.
pub record Transmitter : Type 0 where
  pub initialized : Bool
  pub applied : Bool
  pub prepared : Bool
  pub running : Bool
  pub completed : Bool
  pub aborted : Bool
  pub fault : Bool
  pub tx_timeout_us : ℕ
  pub completion_baseline : ℕ
  pub started_us : ℕ
  pub gpio : PlGpio
  pub available : Bool

abbrev pub zeroed : Transmitter
zeroed = record {
  initialized = false;
  applied = false;
  prepared = false;
  running = false;
  completed = false;
  aborted = false;
  fault = false;
  tx_timeout_us = 0;
  completion_baseline = 0;
  started_us = 0;
  gpio = record { initialized = false; shadow = 0 };
  available = false;
}

-- `status & TX_TOGGLE_MASK`, and the other two bits.
abbrev pub toggle : ℕ → ℕ
toggle status = status / 4 % 2 * 4

abbrev pub is_done : ℕ → Bool
is_done status = has_bit status 0

abbrev pub is_active : ℕ → Bool
is_active status = has_bit status 1

abbrev pub broken : Transmitter → Transmitter
broken s = record s { fault = true }

abbrev pub same_values : ChirpValues → ChirpValues → Bool
same_values a b =
    a.start_phase_inc == b.start_phase_inc
    && eq_ℤ a.phase_inc_step b.phase_inc_step
    && a.total_samples == b.total_samples
    && a.amplitude == b.amplitude
    && a.duration_us == b.duration_us

abbrev pub has_values : Option ChirpValues → ChirpValues → Bool
has_values none v = false
has_values (some checked) v = same_values v checked

abbrev pub is_none : Option ChirpValues → Bool
is_none none = true
is_none (some checked) = false

-- The bit `mask` of a status word, if a flag is set.
abbrev pub flag : Bool → ℕ → ℕ
flag on mask = if on then mask else 0

-- The guards of `apply` before the status is read a second time.
abbrev pub may_apply : Transmitter → ExperimentConfig → Bool
may_apply s c =
    s.initialized
    && not s.fault
    && not s.running
    && not s.prepared
    && not (c.config_id == 0)
    && leb c.config_id 65535

-- Whether the waveform that the settings name is there.
abbrev pub has_waveform : Transmitter → TxMode → ExperimentConfig → Upload → Bool
has_waveform s generate c u = true
has_waveform s wav c u = s.available && not u.uploading && c.waveform_id == u.current_id

-- `sonar_chirp_capabilities`
unfoldable pub capabilities : Transmitter → ℕ
capabilities s =
    if not s.initialized || s.fault then 0 else 1 + 8 + (if s.available then 2 + 4 else 0)

-- `sonar_chirp_triggered`
unfoldable pub triggered : ℕ → Transmitter → Transmitter
triggered trigger_us s =
    if not s.initialized || not s.prepared || s.running || s.fault then broken s else record s {
      started_us = trigger_us;
      prepared = false;
      running = true;
      completed = false;
      aborted = false;
    }

module _ {W : Type 0} (io : TxIo W) where
  -- `poll_tx`
  unfoldable pub poll : Transmitter × W → Transmitter × W
  poll (s, w) =
      let (status, w₁) = io.status w in
      let (now, w₂) = io.clock_us w₁ in
      if not s.running
      then (s, w)
      else if not (toggle status == s.completion_baseline)
          && is_done status
          && not (is_active status)
      then (record s { running = false; completed = not s.fault }, w₁)
      else if leb s.tx_timeout_us (sub64 now s.started_us)
      then (record s { completed = false; fault = true }, w₂)
      else (s, w₂)

  -- The end of `sonar_chirp_init`, from the two GPIO bits on.
  pub init_outputs : Transmitter → W → Bool × (Transmitter × W)
  init_outputs s w =
      let (gpio', w₁) = Gpio.init io.player.write io.gpio_base s.gpio w in
      let write = io.player.write in
      let control = io.player.control_reg in
      let w₂ =
        write (control + 12) 0
          (write (control + 4) 0 (write (io.freq_base + 12) 0 (write (io.freq_base + 4) 0 w₁))) in
      let (ready, available', w₃) = Playback.init io.player s.available w₂ in
      (ready, (record s { gpio = gpio'; available = available'; initialized = ready }, w₃))

  -- `sonar_chirp_init`
  unfoldable pub init : Transmitter × W → Bool × (Transmitter × W)
  init (s, w) =
      let (status, w') = io.status (io.player.write (io.status_base + 4) 7 w) in
      if s.initialized
      then (not s.fault, (s, w))
      else if s.fault
      then (false, (s, w))
      else if io.status_base == 0 || ltb io.status_width 3 || not (io.status_base % 4 == 0)
      then (false, (broken s, w))
      else if is_active status
      then (false, (broken s, w'))
      else if io.profile_fits
      then init_outputs s w'
      else (false, (s, w'))

  -- `sonar_chirp_status`
  unfoldable pub chirp_status : Transmitter × W → ℕ × (Transmitter × W)
  chirp_status (s, w) =
      let (s', w') = poll (s, w) in
      (
        flag s'.applied 1
            + flag s'.prepared 2
            + flag s'.running 4
            + flag s'.completed 8
            + flag s'.aborted 16
            + flag s'.fault 64,
        (s', w'),
      )

  -- The registers of a mode.
  pub select : TxMode → ExperimentConfig → ChirpValues → Bool → W → Bool × W
  select generate c v available w =
      let (selected, w') = Playback.select_generate io.player available w in
      let write = io.player.write in
      let control = io.player.control_reg in
      let w₁ =
        write (io.freq_base + 8) (unsigned32 v.phase_inc_step)
          (write io.freq_base v.start_phase_inc w') in
      let w₂ = write (control + 8) v.amplitude (write control v.total_samples w₁) in
      if selected then (true, w₂) else (false, w')
  select wav c v available w =
      Playback.configure io.player available v.total_samples c.amplitude_pct w

  -- The end of `sonar_chirp_apply`, from the trigger bit on.
  pub apply_outputs : ExperimentConfig → ChirpValues → Transmitter → W → Bool × (Transmitter × W)
  apply_outputs c v s w =
      let (gpio', low, w₁) = Gpio.update io.player.write io.gpio_base pl_trigger 0 s.gpio w in
      let (selected, w₂) = select c.mode c v s.available w₁ in
      if not low
      then (false, (record s { gpio = gpio'; fault = true }, w₁))
      else if not selected
      then (false, (record s { gpio = gpio'; applied = false }, w₂))
      else (
        true,
        (
          record s {
            gpio = gpio';
            applied = true;
            completed = false;
            aborted = false;
            tx_timeout_us = v.duration_us + tx_start_margin_us + tx_timeout_margin_us;
          },
          w₂,
        ),
      )

  -- `sonar_chirp_apply`; `u` is the state of the upload.
  unfoldable pub apply :
      Upload → ExperimentConfig → ChirpValues → Transmitter × W → Bool × (Transmitter × W)
  apply u c v (s₀, w₀) =
      let (s, w) = poll (s₀, w₀) in
      let checked = calculate c u.current_samples in
      let (status, w') = io.status w in
      let applied = apply_outputs c v s w' in
      if not (may_apply s c)
      then (false, (s, w))
      else if is_none checked
      then (false, (s, w))
      else if is_active status || not (has_waveform s c.mode c u) || not (has_values checked v)
      then (false, (s, w'))
      else applied

  -- `sonar_chirp_prepare`
  unfoldable pub prepare : Transmitter × W → Bool × (Transmitter × W)
  prepare (s₀, w₀) =
      let (s, w) = poll (s₀, w₀) in
      let (gpio', low, w₁) = Gpio.update io.player.write io.gpio_base pl_trigger 0 s.gpio w in
      let (status, w₂) = io.status w₁ in
      let s' = record s { gpio = gpio' } in
      if not s.initialized || not s.applied || s.fault || s.running || s.prepared
      then (false, (s, w))
      else if not low
      then (false, (broken s', w₁))
      else if is_active status
      then (false, (s', w₂))
      else (
        true,
        (
          record s' {
            completion_baseline = toggle status;
            completed = false;
            aborted = false;
            prepared = true;
          },
          w₂,
        ),
      )

  -- `sonar_chirp_done`
  unfoldable pub done : Transmitter × W → Bool × (Transmitter × W)
  done (s, w) =
      let (s', w') = poll (s, w) in
      (s'.initialized && not s'.fault && (s'.completed || s'.aborted), (s', w'))

  -- `sonar_chirp_error`
  unfoldable pub error : Transmitter × W → Bool × (Transmitter × W)
  error (s, w) = let (s', w') = poll (s, w) in (s'.fault, (s', w'))

  -- The loop of `sonar_chirp_abort`: whether the transmitter stopped before the deadline. `none` is a
  -- loop that goes on after `fuel` rounds.
  unfoldable pub drain : ℕ → ℕ → Transmitter × W → Option (Bool × (Transmitter × W))
  drain zero begun (s, w) = none
  drain (suc fuel) begun (s, w) =
      let (now, w') = io.ticks w in
      let rest = drain fuel begun (poll (s, io.delay w')) in
      if not s.running
      then some (true, (s, w))
      else if leb io.io_ticks (sub32 now begun)
      then some (false, (broken s, w'))
      else rest

  -- The end of `sonar_chirp_abort`, after the loop.
  pub finish_abort : Option (Bool × (Transmitter × W)) → Option (Bool × (Transmitter × W))
  finish_abort none = none
  finish_abort (some (stopped, (s, w))) =
      let (status, w') = io.status w in
      if not stopped
      then some (false, (s, w))
      else if s.fault
      then some (false, (s, w))
      else if is_active status
      then some (false, (broken s, w'))
      else some (true, (record s { completed = false; aborted = true }, w'))

  -- `sonar_chirp_abort`
  unfoldable pub abort : ℕ → Transmitter × W → Option (Bool × (Transmitter × W))
  abort fuel (s, w) =
      let (muted, w₁) = io.speaker_enable false w in
      let (gpio', low, w₂) = Gpio.update io.player.write io.gpio_base pl_trigger 0 s.gpio w₁ in
      let s' = record s { gpio = gpio'; prepared = false } in
      let (begun, w₃) = io.ticks w₂ in
      let drained = finish_abort (drain fuel begun (poll (s', w₃))) in
      if not s.initialized
      then some (true, (s, w))
      else if not muted || not low
      then some (false, (broken s', w₂))
      else drained
