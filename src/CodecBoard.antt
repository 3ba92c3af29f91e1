-- ===== src/CodecBoard.antt =====
-- firmware/src/sonar_codec_board.c: the codec service on the codec bus and the shared output bits.
-- The registers of both are an interface.
pub mod Linked
mod Tests
use air_born_sonar.Common.{
  ℕ, Bool, true, false, not, ◌||◌, List, Option, none, some, if◌then◌else◌, get_or,
}
use air_born_sonar.PlGpio.{PlGpio}
use air_born_sonar.PlGpio as Gpio
use air_born_sonar.CodecBus.{BusIo, CodecBus, CodecEvent}
use air_born_sonar.CodecBus as Bus
use air_born_sonar.Speaker.{SpeakerConfig, SpeakerIo, Speaker}
use air_born_sonar.Speaker as S

-- `SONAR_PL_CODEC_READY`
abbrev pub pl_codec_ready : ℕ
pl_codec_ready = 2

-- `profile_fits`: the hardware is enabled and `sonar_profile_check` finds nothing.
pub record BoardIo (W : Type 0) : Type 0 where
  pub iic : BusIo W
  pub write : ℕ → ℕ → W → W
  pub gpio_base : ℕ
  pub profile_fits : Bool

-- What the callbacks of the service work on: the static `bus`, and the two bits of PlGpio.
pub record Lines : Type 0 where
  pub bus : CodecBus
  pub gpio : PlGpio

-- The other static variables.
pub record CodecBoard : Type 0 where
  pub speaker : Speaker
  pub initialized : Bool

module _ {W : Type 0} (io : BoardIo W) where
  -- `enable_output`
  unfoldable pub enable_output : Bool → Lines × W → Bool × (Lines × W)
  enable_output enabled (l, w) =
      let (gpio', done, w') =
        Gpio.update io.write io.gpio_base pl_codec_ready (if enabled then pl_codec_ready else 0)
          l.gpio w in
      (done, (record l { gpio = gpio' }, w'))

  -- `write_codec`
  unfoldable pub write_codec : ℕ → List ℕ → ℕ → Lines × W → Bool × (Lines × W)
  write_codec address bytes token (l, w) =
      let (accepted, (bus', w')) =
        Bus.write io.iic address (get_or bytes 0 0) (get_or bytes 1 0) token (l.bus, w) in
      (accepted, (record l { bus = bus' }, w'))

  -- `abort_codec`
  unfoldable pub abort_codec : Lines × W → Bool × (Lines × W)
  abort_codec (l, w) =
      let (aborted, (bus', w')) = Bus.abort io.iic (l.bus, w) in
      (aborted, (record l { bus = bus' }, w'))

  -- `codec_io`
  abbrev pub codec_io : SpeakerIo (Lines × W)
  codec_io = record { write = write_codec; abort = abort_codec; enable = enable_output }

  pub init_speaker : Option Speaker → CodecBoard → Lines × W → Bool × (CodecBoard × (Lines × W))
  init_speaker none b l = (false, (b, l))
  init_speaker (some s) b l = (true, (record { speaker = s; initialized = true }, l))

  -- `sonar_speaker_board_init` from the configuration on.
  pub init_lines : Option SpeakerConfig → CodecBoard → Lines × W → Bool × (CodecBoard × (Lines × W))
  init_lines none b l = (false, (b, l))
  init_lines (some config) b (l, w) =
      let (gpio', w₁) = Gpio.init io.write io.gpio_base l.gpio w in
      let (off, (l', w₂)) = enable_output false (record l { gpio = gpio' }, w₁) in
      let (clean, (bus', w₃)) = Bus.init io.iic w₂ in
      let l'' = record l' { bus = bus' } in
      if not off
      then (false, (b, (l', w₂)))
      else if not clean
      then (false, (b, (l'', w₃)))
      else init_speaker (S.init config) b (l'', w₃)

  -- `sonar_speaker_board_init`; `tick_hz` is `configTICK_RATE_HZ`.
  unfoldable pub init : ℕ → CodecBoard → Lines × W → Bool × (CodecBoard × (Lines × W))
  init tick_hz b l =
      if b.initialized || not io.profile_fits
      then (false, (b, l))
      else init_lines (S.default_config tick_hz) b l

  -- `sonar_speaker_board_begin`
  unfoldable pub begin : ℕ → CodecBoard → Lines × W → Bool × (CodecBoard × (Lines × W))
  begin now b l =
      let (s', begun, l') = S.begin codec_io b.speaker now l in
      if b.initialized then (begun, (record b { speaker = s' }, l')) else (false, (b, l))

  pub handle_event : Option CodecEvent → Speaker → ℕ → Lines × W → Speaker × (Lines × W)
  handle_event none s now l = (s, l)
  handle_event (some e) s now l = S.event codec_io s e.token e.acknowledged now l

  -- `sonar_speaker_board_poll` on an initialized board.
  unfoldable pub poll_speaker : ℕ → Speaker → Lines × W → Speaker × (Lines × W)
  poll_speaker now s l₀ =
      let (s', (l', w')) = S.poll codec_io s now l₀ in
      let (e, (bus'', w'')) = Bus.event io.iic (l'.bus, w') in
      handle_event e s' now (record l' { bus = bus'' }, w'')

  -- `sonar_speaker_board_poll`
  unfoldable pub poll : ℕ → CodecBoard → Lines × W → CodecBoard × (Lines × W)
  poll now b l =
      let (s', l') = poll_speaker now b.speaker l in
      if b.initialized then (record b { speaker = s' }, l') else (b, l)

  -- `sonar_speaker_board_enable`
  unfoldable pub enable : Bool → CodecBoard → Lines × W → Bool × (CodecBoard × (Lines × W))
  enable enabled b l =
      let (s', done, l') = S.enable codec_io b.speaker enabled l in
      if b.initialized then (done, (record b { speaker = s' }, l')) else (false, (b, l))
