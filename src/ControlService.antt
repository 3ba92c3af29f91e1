-- ===== src/ControlService.antt =====
-- firmware/src/sonar_control_service.c: the commands of TCP 5003 on the transmit settings.
-- The files it calls stand as they are modelled: firmware/src/sonar_waveform_upload.c by
-- WaveformUpload, firmware/src/sonar_identity.c by Identity, and firmware/src/sonar_experiment_config.c
-- by ExperimentConfig. The transmitter, firmware/src/sonar_tx_control.c, is an interface.
pub mod Sessions
pub mod Settings
mod Tests
use air_born_sonar.Common.{
  ℕ, ◌+◌, ◌-◌, Bool, true, false, not, ◌&&◌, ◌||◌, List, [], ◌∷◌, ◌++◌, Option, none, some,
  if◌then◌else◌, ◌==◌, ltb, leb, length, drop, has_bit, pos,
}
use air_born_sonar.ExperimentConfig.{
  audio_hz, capture_us, tx_start_margin_us, tx_max_samples, TxMode, generate, wav, ExperimentConfig,
  ChirpValues, calculate,
}
use air_born_sonar.ControlProtocol.{get_u32}
use air_born_sonar.ControlProtocol.Op
use air_born_sonar.ControlProtocol.Reply
use air_born_sonar.Identity.{Identity, set_boot, prepare_test, disarm, snapshot}
use air_born_sonar.Identity
use air_born_sonar.WavParser.{TxBram, Parser}
use air_born_sonar.WaveformUpload.{Upload, begin, append, commit, cancel, lock}
use air_born_sonar.WaveformUpload

-- The part of firmware/src/sonar_tx_control.h that the service calls.
pub record Chirp (W : Type 0) : Type 0 where
  pub capabilities : W → ℕ
  pub status : W → ℕ
  pub apply : ExperimentConfig → ChirpValues → W → Bool × W

-- The static variables of the file, and of the two files that only it writes.
pub record Service : Type 0 where
  pub active : ExperimentConfig
  pub pending : ExperimentConfig
  pub values : ChirpValues
  pub valid : Bool
  pub staged : Bool
  pub running : Bool
  pub owner : ℕ
  pub next_id : ℕ
  pub upload : Upload
  pub identity : Identity

abbrev pub no_config : ExperimentConfig
no_config = record {
  mode = generate;
  start_hz = 0;
  stop_hz = 0;
  duration_us = 0;
  amplitude_pct = 0;
  waveform_id = 0;
  config_id = 0;
}

abbrev pub no_values : ChirpValues
no_values = record {
  start_phase_inc = 0;
  phase_inc_step = pos 0;
  total_samples = 0;
  amplitude = 0;
  duration_us = 0;
}

abbrev pub zeroed : Service
zeroed = record {
  active = no_config;
  pending = no_config;
  values = no_values;
  valid = false;
  staged = false;
  running = false;
  owner = 0;
  next_id = 0;
  upload = WaveformUpload.zeroed;
  identity = Identity.zeroed;
}

abbrev pub is_wav : TxMode → Bool
is_wav generate = false
is_wav wav = true

-- The four words at an offset.
abbrev pub four_words : List ℕ → ℕ → List ℕ
four_words p i = get_u32 p i ∷ get_u32 p (i + 4) ∷ get_u32 p (i + 8) ∷ get_u32 p (i + 12) ∷ []

-- `sonar_experiment_can_start`
unfoldable pub can_start : Service → Bool
can_start s =
    s.valid
    && not s.staged
    && not s.upload.uploading
    && not s.running
    && (not (is_wav s.active.mode) || s.active.waveform_id == s.upload.current_id)

-- `sonar_experiment_running`
unfoldable pub set_running : Service → Bool → Service
set_running s value = record s { running = value; upload = lock s.upload value }

-- The fields of `sonar_experiment_reply` that come from the settings, in order, up to the identities.
unfoldable pub reply : {W : Type 0} → Chirp W → ℕ → ℕ → ℕ → Service → W → List ℕ
reply chirp capacity passband_hz error s w =
    let capabilities = chirp.capabilities w in
    (error
      ∷ capabilities
      ∷ (if s.valid then 1 else 0)
      ∷ s.active.config_id
      ∷ (if is_wav s.active.mode then 1 else 0)
      ∷ s.active.start_hz
      ∷ s.active.stop_hz
      ∷ s.values.duration_us
      ∷ s.active.amplitude_pct
      ∷ s.active.waveform_id
      ∷ s.values.total_samples
      ∷ s.upload.current_id
      ∷ s.upload.current_samples
      ∷ s.upload.parser.received
      ∷ audio_hz
      ∷ (if has_bit capabilities 1 then capacity else tx_max_samples)
      ∷ capture_us
      ∷ tx_start_margin_us
      ∷ s.upload.current_crc
      ∷ chirp.status w
      ∷ ((if s.staged then 1 else 0)
          + (if s.upload.uploading then 2 else 0)
          + (if s.running then 4 else 0))
      ∷ passband_hz
      ∷ [])
    ++ (snapshot s.identity).0
    ++ (snapshot s.identity).1

module _ {W : Type 0} (bram : TxBram W) (chirp : Chirp W) where
  unfoldable pub set_boot_id : Service → List ℕ → W → Service × ℕ × W
  set_boot_id s p w =
      let (identity', accepted) = set_boot s.identity (four_words p 0) in
      if not (length p == 16)
      then (s, Reply.bad_request, w)
      else (record s { identity = identity' }, if accepted then Reply.ok else Reply.range, w)

  unfoldable pub prepare : Service → List ℕ → W → Service × ℕ × W
  prepare s p w =
      let (identity', accepted) = prepare_test s.identity (four_words p 0) (four_words p 16) in
      if not (length p == 36)
        || not s.valid
        || s.staged
        || s.upload.uploading
        || not (get_u32 p 32 == s.active.config_id)
      then (s, Reply.bad_request, w)
      else (record s { identity = identity' }, if accepted then Reply.ok else Reply.range, w)

  -- What SET_GENERATED and SELECT_WAVEFORM do with a candidate.
  unfoldable pub stage : Service → ℕ → ExperimentConfig → Option ChirpValues → W → Service × ℕ × W
  stage s session candidate none w = (s, Reply.range, w)
  stage s session candidate (some calculated) w =
      (record s { pending = candidate; staged = true; owner = session }, Reply.ok, w)

  unfoldable pub set_generated : Service → ℕ → List ℕ → W → Service × ℕ × W
  set_generated s session p w =
      let candidate = record no_config {
        mode = generate;
        start_hz = get_u32 p 0;
        stop_hz = get_u32 p 4;
        duration_us = get_u32 p 8;
        amplitude_pct = get_u32 p 12;
      } in
      if not (length p == 16)
      then (s, Reply.bad_request, w)
      else stage s session candidate (calculate candidate 0) w

  unfoldable pub upload_begin : Service → ℕ → List ℕ → W → Service × ℕ × W
  upload_begin s session p w =
      let (upload', begun, w') = begin bram s.upload (get_u32 p 0) (get_u32 p 4) w in
      if not (length p == 8)
      then (s, Reply.bad_request, w)
      else if not (has_bit (chirp.capabilities w) 1)
      then (s, Reply.hardware, w)
      else if not begun
      then (record s { upload = upload' }, Reply.range, w')
      else (
        record s {
          upload = upload';
          valid = s.valid && not (is_wav s.active.mode);
          staged = false;
          owner = session;
        },
        Reply.ok,
        w',
      )

  unfoldable pub upload_data : Service → ℕ → List ℕ → W → Service × ℕ × W
  upload_data s session p w =
      let (upload', appended, w') = append bram s.upload (get_u32 p 0) (drop 4 p) w in
      if leb (length p) 4 || not (s.owner == session)
      then (s, Reply.bad_request, w)
      else (record s { upload = upload' }, if appended then Reply.ok else Reply.range, w')

  unfoldable pub upload_commit : Service → ℕ → List ℕ → W → Service × ℕ × W
  upload_commit s session p w =
      let (upload', committed, w') = commit bram s.upload w in
      if not (length p == 0) || not (s.owner == session)
      then (s, Reply.bad_request, w)
      else if not committed
      then (record s { upload = upload' }, Reply.checksum, w')
      else (
        record s { upload = upload'; valid = s.valid && not (is_wav s.active.mode) },
        Reply.ok,
        w',
      )

  unfoldable pub select_waveform : Service → ℕ → List ℕ → W → Service × ℕ × W
  select_waveform s session p w =
      let candidate = record no_config {
        mode = wav;
        waveform_id = get_u32 p 0;
        amplitude_pct = get_u32 p 4;
      } in
      if not (length p == 8)
      then (s, Reply.bad_request, w)
      else if candidate.waveform_id == 0 || not (candidate.waveform_id == s.upload.current_id)
      then (s, Reply.no_waveform, w)
      else stage s session candidate (calculate candidate s.upload.current_samples) w

  -- The case APPLY from the calculation on.
  unfoldable pub apply_calculated : Service → Option ChirpValues → W → Service × ℕ × W
  apply_calculated s none w = (s, Reply.range, w)
  apply_calculated s (some calculated) w =
      let id = s.next_id + 1 in
      let config = record s.pending { config_id = id } in
      let asked = record s {
        identity = disarm s.identity;
        next_id = id;
        pending = config;
        valid = false;
      } in
      let (applied, w') = chirp.apply config calculated w in
      if leb 65535 s.next_id
      then (s, Reply.sequence, w)
      else if not applied
      then (asked, Reply.hardware, w')
      else (
        record asked {
          active = record config { duration_us = calculated.duration_us };
          values = calculated;
          valid = true;
          staged = false;
        },
        Reply.ok,
        w',
      )

  unfoldable pub apply : Service → ℕ → List ℕ → W → Service × ℕ × W
  apply s session p w =
      if not (length p == 0) || not s.staged || not (s.owner == session)
      then (s, Reply.bad_request, w)
      else if s.upload.uploading
      then (s, Reply.busy, w)
      else if is_wav s.pending.mode && not (s.pending.waveform_id == s.upload.current_id)
      then (s, Reply.no_waveform, w)
      else apply_calculated s (calculate s.pending s.upload.current_samples) w

  unfoldable pub upload_cancel : Service → List ℕ → W → Service × ℕ × W
  upload_cancel s p w =
      if not (length p == 0)
      then (s, Reply.bad_request, w)
      else (record s { upload = cancel s.upload }, Reply.ok, w)

  unfoldable pub end_session : Service → ℕ → W → Service × ℕ × W
  end_session s session w = (
    if session == s.owner
        then record s { staged = false; owner = 0; upload = cancel s.upload }
        else s,
    Reply.ok,
    w,
  )

  -- The `switch` of `command`.
  unfoldable pub by_op : Service → ℕ → ℕ → List ℕ → W → Service × ℕ × W
  by_op s session op p w =
      if op == Op.set_boot_id
      then set_boot_id s p w
      else if op == Op.prepare_test
      then prepare s p w
      else if op == Op.set_generated
      then set_generated s session p w
      else if op == Op.upload_begin
      then upload_begin s session p w
      else if op == Op.upload_data
      then upload_data s session p w
      else if op == Op.upload_commit
      then upload_commit s session p w
      else if op == Op.select_waveform
      then select_waveform s session p w
      else if op == Op.apply
      then apply s session p w
      else if op == Op.upload_cancel
      then upload_cancel s p w
      else (s, Reply.bad_request, w)

  -- `command`; the list stands for the `n` bytes at `p`.
  unfoldable pub command : Service → ℕ → ℕ → List ℕ → Bool → W → Service × ℕ × W
  command s session op p mutable w =
      if op == Op.get_capabilities || op == Op.get_configuration
      then (s, if length p == 0 then Reply.ok else Reply.bad_request, w)
      else if op == Op.end_session
      then end_session s session w
      else if not mutable
          || s.running
          || session == 0
          || not (s.owner == 0) && not (s.owner == session)
      then (s, Reply.busy, w)
      else by_op s session op p w
