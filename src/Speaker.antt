-- ===== src/Speaker.antt =====
-- firmware/src/sonar_codec_service.c: the configuration of the loudspeaker codec over its bus.
-- The callbacks of `sonar_speaker_io_t` act on a world `W`, which each call passes on.
pub mod Configured
pub mod Ownership
pub mod Progress
pub mod Sending
pub mod Writes
mod Tests
use air_born_sonar.Common.{
  ℕ, zero, suc, ◌+◌, ◌-◌, ◌*◌, ◌/◌, ◌%◌, ◌≤◌, ◌<◌, Bool, true, false, not, ◌&&◌, ◌||◌, List, [],
  ◌∷◌, Option, none, some, if◌then◌else◌, ◌==◌, ltb, leb, u8, u32, sub32, get_or, ◌>>=◌,
}
use air_born_sonar.Config.{ms_to_ticks}

abbrev pub codec_address : ℕ
codec_address = 0x1a

abbrev pub codec_writes : ℕ
codec_writes = 10

pub data SpeakerState : Type 0 where
  off configuring ready fault : SpeakerState

pub data SpeakerFault : Type 0 where
  ok mute_failed write_failed bus_error timeout cancelled : SpeakerFault

pub data SpeakerPhase : Type 0 where
  wait_power wait_ack wait_vmid : SpeakerPhase

-- `sonar_speaker_config_t`
pub record SpeakerConfig : Type 0 where
  pub powerup_ticks : ℕ
  pub vmid_ticks : ℕ
  pub write_timeout_ticks : ℕ
  pub volume : ℕ

-- `sonar_speaker_io_t`
pub record SpeakerIo (W : Type 0) : Type 0 where
  pub write : ℕ → List ℕ → ℕ → W → Bool × W
  pub abort : W → Bool × W
  pub enable : Bool → W → Bool × W

-- `sonar_speaker_t`; its `io` member is the parameter of the operations, and `cause` is `fault`.
pub record Speaker : Type 0 where
  pub config : SpeakerConfig
  pub state : SpeakerState
  pub cause : SpeakerFault
  pub phase : SpeakerPhase
  pub phase_tick : ℕ
  pub token : ℕ
  pub index : ℕ
  pub bus_owned : Bool
  pub output_enabled : Bool
  pub mute_confirmed : Bool

-- The static table `sequence`, as its two columns.
abbrev pub registers : List ℕ
registers = 0x0f ∷ 0x06 ∷ 0x02 ∷ 0x03 ∷ 0x04 ∷ 0x05 ∷ 0x07 ∷ 0x08 ∷ 0x09 ∷ 0x06 ∷ []

abbrev pub register_values : List ℕ
register_values = 0x000 ∷ 0x077 ∷ 0x17f ∷ 0x17f ∷ 0x010 ∷ 0x000 ∷ 0x002 ∷ 0x01c ∷ 0x001 ∷ 0x067 ∷ []

pub valid_ticks : ℕ → Bool
valid_ticks ticks = not (ticks == 0) && ltb ticks 0x80000000

-- `sonar_speaker_default_config`; `none` is the refusal.
unfoldable pub default_config : ℕ → Option SpeakerConfig
default_config tick_hz = do
  powerup ← ms_to_ticks 10 tick_hz
  vmid ← ms_to_ticks 80 tick_hz
  write_timeout ← ms_to_ticks 100 tick_hz
  some record {
    powerup_ticks = powerup;
    vmid_ticks = vmid;
    write_timeout_ticks = write_timeout;
    volume = 127;
  }

-- `sonar_speaker_encode`; `none` is the refusal, and the list the two bytes.
unfoldable pub encode : ℕ → ℕ → Option (List ℕ)
encode reg value =
    if ltb 127 reg || ltb 511 value
    then none
    else some (u8 (reg * 2 + value / 256) ∷ value % 256 ∷ [])

-- `sonar_speaker_init`; `none` is the refusal, which leaves the object alone.
unfoldable pub init : SpeakerConfig → Option Speaker
init config =
    if ltb 127 config.volume
      || not (valid_ticks config.powerup_ticks)
      || not (valid_ticks config.vmid_ticks)
      || not (valid_ticks config.write_timeout_ticks)
    then none
    else some record {
      config = config;
      state = off;
      cause = ok;
      phase = wait_power;
      phase_tick = 0;
      token = 0;
      index = 0;
      bus_owned = false;
      output_enabled = false;
      mute_confirmed = false;
    }

abbrev pub is_off : SpeakerState → Bool
is_off off = true
is_off _ = false

abbrev pub is_configuring : SpeakerState → Bool
is_configuring configuring = true
is_configuring _ = false

abbrev pub is_ready : SpeakerState → Bool
is_ready ready = true
is_ready _ = false

abbrev pub is_wait_ack : SpeakerPhase → Bool
is_wait_ack wait_ack = true
is_wait_ack _ = false

-- The ticks that a phase without a write lasts.
abbrev pub delay_of : SpeakerPhase → SpeakerConfig → ℕ
delay_of wait_power config = config.powerup_ticks
delay_of _ config = config.vmid_ticks

-- `!=` on `bool`.
abbrev pub same : Bool → Bool → Bool
same true b = b
same false b = not b

-- The value that `issue_write` writes, with the volume in its two registers.
abbrev pub value_at : SpeakerConfig → ℕ → ℕ
value_at config index =
    if index == 2 || index == 3 then 0x100 + config.volume else get_or register_values index 0

-- The bytes on the bus; a refusal by `encode` would leave them unset.
abbrev pub bytes_or : Option (List ℕ) → List ℕ
bytes_or none = []
bytes_or (some bytes) = bytes

abbrev pub bytes_at : SpeakerConfig → ℕ → List ℕ
bytes_at config index = bytes_or (encode (get_or registers index 0) (value_at config index))

abbrev pub next_token : ℕ → ℕ
next_token token = if u32 (token + 1) == 0 then u32 (u32 (token + 1) + 1) else u32 (token + 1)

module _ {W : Type 0} (io : SpeakerIo W) where
  unfoldable pub mute : Speaker → W → Speaker × Bool × W
  mute s w =
      let (muted, w') = io.enable false w in
      (
        record s {
          mute_confirmed = muted;
          output_enabled = if muted then false else s.output_enabled;
        },
        muted,
        w',
      )

  unfoldable pub fail : Speaker → SpeakerFault → W → Speaker × W
  fail s why w =
      let (s', muted, w₁) = mute (record s { state = fault; cause = why }) w in
      let (aborted, w₂) = io.abort w₁ in
      if s'.bus_owned then (record s' { bus_owned = not aborted }, w₂) else (s', w₁)

  unfoldable pub begin : Speaker → ℕ → W → Speaker × Bool × W
  begin s now w =
      let (s', muted, w') = mute s w in
      if not (is_off s.state)
      then (s, false, w)
      else if not muted
      then (record s' { state = fault; cause = mute_failed }, false, w')
      else (record s' { state = configuring; phase = wait_power; phase_tick = now }, true, w')

  unfoldable pub issue_write : Speaker → ℕ → W → Speaker × W
  issue_write s now w =
      let s' = record s {
        token = next_token s.token;
        phase = wait_ack;
        phase_tick = now;
        bus_owned = true;
      } in
      let (written, w') = io.write codec_address (bytes_at s.config s.index) s'.token w in
      if written then (s', w') else fail s' write_failed w'

  unfoldable pub poll : Speaker → ℕ → W → Speaker × W
  poll s now w =
      let elapsed = sub32 now s.phase_tick in
      if not (is_configuring s.state)
      then (s, w)
      else if is_wait_ack s.phase
      then (if leb s.config.write_timeout_ticks elapsed then fail s timeout w else (s, w))
      else (if leb (delay_of s.phase s.config) elapsed then issue_write s now w else (s, w))

  -- The end of `sonar_speaker_event`, for a write that was acknowledged.
  unfoldable pub acknowledge : Speaker → ℕ → W → Speaker × W
  acknowledge s₀ now w =
      let s = record s₀ { bus_owned = false; index = u8 (s₀.index + 1) } in
      if s.index == codec_writes
      then (record s { state = ready }, w)
      else if s.index == 8
      then (record s { phase = wait_vmid; phase_tick = now }, w)
      else issue_write s now w

  unfoldable pub event : Speaker → ℕ → Bool → ℕ → W → Speaker × W
  event s₀ token acknowledged now w₀ =
      let (s, w) = poll s₀ now w₀ in
      if not (is_configuring s₀.state) || not (is_wait_ack s₀.phase)
      then (s₀, w₀)
      else if not (is_configuring s.state) || not (token == s.token)
      then (s, w)
      else if not acknowledged
      then fail s bus_error w
      else acknowledge s now w

  unfoldable pub enable : Speaker → Bool → W → Speaker × Bool × W
  enable s enabled w =
      let (done, w') = io.enable enabled w in
      let (failed, w'') = fail s mute_failed w' in
      if not (is_ready s.state)
      then (s, false, w)
      else if same s.output_enabled enabled
      then (s, true, w)
      else if not done
      then (failed, false, w'')
      else (record s { output_enabled = enabled; mute_confirmed = not enabled }, true, w')

  unfoldable pub cancel : Speaker → W → Speaker × W
  cancel s w = if is_configuring s.state || is_ready s.state then fail s cancelled w else (s, w)
