-- ===== src/ControlService/Settings.antt =====
-- What firmware/src/sonar_control_service.c offers to an experiment.
use air_born_sonar.Common.{
  ℕ, ◌+◌, ◌≤◌, ◌<◌, ◌≡◌, ◌≢◌, refl, Bool, true, List, [], ◌∷◌, Option, none, some, Option-cases,
  arith,
}
use air_born_sonar.ControlProtocol.{get_u32}
use air_born_sonar.ControlProtocol.Op
use air_born_sonar.ControlProtocol.Reply
use air_born_sonar.ExperimentConfig.{ExperimentConfig, ChirpValues, calculate}
use air_born_sonar.ExperimentConfig.Bounds.{InRange, calculate-InRange}
use air_born_sonar.WavParser.{TxBram}
use air_born_sonar.WaveformUpload.Integrity.{
  IsSound, begin-IsSound, append-IsSound, commit-IsSound, cancel-IsSound, lock-IsSound,
}
use air_born_sonar.ControlService.{
  Chirp, Service, can_start, set_running, set_boot_id, prepare, stage, set_generated, upload_begin,
  upload_data, upload_commit, select_waveform, apply_calculated, apply, upload_cancel, end_session,
  by_op, command,
}

-- The service between calls. Valid settings have values in the range of the hardware, and the latest
-- identity given out; staged settings have an owner; identities stay within 16 bits; and the upload is
-- sound.
pub record IsSettled (capacity : ℕ) (s : Service) : Type 0 where
  pub ranged : s.valid ≡ true → InRange s.values
  pub timed : s.valid ≡ true → s.active.duration_us ≡ s.values.duration_us
  pub latest : s.valid ≡ true → (s.active.config_id ≡ s.next_id) × (0 < s.next_id)
  pub owned : s.staged ≡ true → s.owner ≢ 0
  pub short : s.next_id ≤ 65535
  pub sound : IsSound capacity s.upload

module _ {W : Type 0} (bram : TxBram W) (chirp : Chirp W) where
  abbrev Keeps : Service × ℕ × W → Type 0
  Keeps r = IsSettled bram.capacity r.0

  set_boot_id-Keeps :
      (s : Service) (p : List ℕ) (w : W)
      → IsSettled bram.capacity s
      → Keeps (set_boot_id bram chirp s p w)
  unfolding set_boot_id
  set_boot_id-Keeps s p w v = ground arith

  prepare-Keeps :
      (s : Service) (p : List ℕ) (w : W)
      → IsSettled bram.capacity s
      → Keeps (prepare bram chirp s p w)
  unfolding prepare
  prepare-Keeps s p w v = ground arith

  stage-Keeps :
      (s : Service) (session : ℕ) (c : ExperimentConfig) (o : Option ChirpValues) (w : W)
      → session ≢ 0
      → IsSettled bram.capacity s
      → Keeps (stage bram chirp s session c o w)
  unfolding stage
  stage-Keeps s session c none w n v = v
  stage-Keeps s session c (some calculated) w n v = ground arith

  set_generated-Keeps :
      (s : Service) (session : ℕ) (p : List ℕ) (w : W)
      → session ≢ 0
      → IsSettled bram.capacity s
      → Keeps (set_generated bram chirp s session p w)
  unfolding set_generated
  set_generated-Keeps s session p w n v = grind (arith, stage-Keeps)

  upload_begin-Keeps :
      (s : Service) (session : ℕ) (p : List ℕ) (w : W)
      → IsSettled bram.capacity s
      → Keeps (upload_begin bram chirp s session p w)
  unfolding upload_begin
  upload_begin-Keeps s session p w v =
      ground (arith, begin-IsSound bram s.upload (get_u32 p 0) (get_u32 p 4) w)

  upload_data-Keeps :
      (s : Service) (session : ℕ) (p : List ℕ) (w : W)
      → IsSettled bram.capacity s
      → Keeps (upload_data bram chirp s session p w)
  unfolding upload_data
  upload_data-Keeps s session p w v = grind (arith, append-IsSound)

  upload_commit-Keeps :
      (s : Service) (session : ℕ) (p : List ℕ) (w : W)
      → IsSettled bram.capacity s
      → Keeps (upload_commit bram chirp s session p w)
  unfolding upload_commit
  upload_commit-Keeps s session p w v = ground (arith, commit-IsSound bram s.upload w)

  select_waveform-Keeps :
      (s : Service) (session : ℕ) (p : List ℕ) (w : W)
      → session ≢ 0
      → IsSettled bram.capacity s
      → Keeps (select_waveform bram chirp s session p w)
  unfolding select_waveform
  select_waveform-Keeps s session p w n v = grind (arith, stage-Keeps)

  apply_calculated-Keeps :
      (s : Service) (o : Option ChirpValues) (w : W)
      → calculate s.pending s.upload.current_samples ≡ o
      → IsSettled bram.capacity s
      → Keeps (apply_calculated bram chirp s o w)
  unfolding apply_calculated
  apply_calculated-Keeps s none w e v = v
  apply_calculated-Keeps s (some calculated) w e v =
      ground (arith, calculate-InRange s.pending s.upload.current_samples calculated e)

  apply-Keeps :
      (s : Service) (session : ℕ) (p : List ℕ) (w : W)
      → IsSettled bram.capacity s
      → Keeps (apply bram chirp s session p w)
  unfolding apply
  apply-Keeps s session p w v =
      ground
        (arith, apply_calculated-Keeps s (calculate s.pending s.upload.current_samples) w refl v)

  upload_cancel-Keeps :
      (s : Service) (p : List ℕ) (w : W)
      → IsSettled bram.capacity s
      → Keeps (upload_cancel bram chirp s p w)
  unfolding upload_cancel
  upload_cancel-Keeps s p w v = ground (arith, cancel-IsSound bram.capacity s.upload)

  end_session-Keeps :
      (s : Service) (session : ℕ) (w : W)
      → IsSettled bram.capacity s
      → Keeps (end_session bram chirp s session w)
  unfolding end_session
  end_session-Keeps s session w v = ground (arith, cancel-IsSound bram.capacity s.upload)

  by_op-Keeps :
      (s : Service) (session op : ℕ) (p : List ℕ) (w : W)
      → session ≢ 0
      → IsSettled bram.capacity s
      → Keeps (by_op bram chirp s session op p w)
  unfolding by_op
  by_op-Keeps s session op p w n v = ground (
    arith,
    set_boot_id-Keeps s p w v,
    prepare-Keeps s p w v,
    set_generated-Keeps s session p w n v,
    upload_begin-Keeps s session p w v,
    upload_data-Keeps s session p w v,
    upload_commit-Keeps s session p w v,
    select_waveform-Keeps s session p w n v,
    apply-Keeps s session p w v,
    upload_cancel-Keeps s p w v,
  )

  pub command-IsSettled :
      (s : Service) (session op : ℕ) (p : List ℕ) (mutable : Bool) (w : W)
      → IsSettled bram.capacity s
      → Keeps (command bram chirp s session op p mutable w)
  unfolding command
  command-IsSettled s session op p mutable w v =
      ground (arith, by_op-Keeps s session op p w, end_session-Keeps s session w v)

  -- An APPLY that is answered OK came from the owner of staged settings, whose values the transmitter
  -- has taken under the next identity; these settings are now the active ones, and an experiment can
  -- start with them.
  pub command_apply :
      (s : Service) (session : ℕ) (p : List ℕ) (mutable : Bool) (w : W)
      → (command bram chirp s session Op.apply p mutable w).1 ≡ Reply.ok
      → let s' = (command bram chirp s session Op.apply p mutable w).0 in
        let config = record s.pending { config_id = s.next_id + 1 } in
        (s.staged ≡ true)
        × (s.owner ≡ session)
        × (calculate s.pending s.upload.current_samples ≡ some s'.values)
        × ((chirp.apply config s'.values w).0 ≡ true)
        × (s'.active ≡ record config { duration_us = s'.values.duration_us })
        × (can_start s' ≡ true)
  unfolding command by_op apply apply_calculated can_start
  command_apply s session p mutable w h =
      ground (arith, Option-cases (calculate s.pending s.upload.current_samples))

-- What the experiment task calls.
pub data Call : Type 0 where
  command_call : ℕ → ℕ → List ℕ → Bool → Call
  running_call : Bool → Call

module _ {W : Type 0} (bram : TxBram W) (chirp : Chirp W) where
  abbrev pub step : Call → Service × W → Service × W
  step (command_call session op p mutable) (s, w) =
      let (s', error, w') = command bram chirp s session op p mutable w in (s', w')
  step (running_call value) (s, w) = (set_running s value, w)

  abbrev pub run : List Call → Service × W → Service × W
  run [] s = s
  run (e ∷ es) s = run es (step e s)

  step-IsSettled :
      (e : Call) (s : Service) (w : W)
      → IsSettled bram.capacity s
      → IsSettled bram.capacity (step e (s, w)).0
  unfolding set_running
  step-IsSettled (command_call session op p mutable) s w v =
      command-IsSettled bram chirp s session op p mutable w v
  step-IsSettled (running_call value) s w v =
      ground (arith, lock-IsSound bram.capacity s.upload value)

  -- Commands of any sessions, with any opcodes and payloads, and experiments that start and end in
  -- between, keep the service settled: valid settings have values in the range of the hardware and the
  -- latest identity, staged settings have an owner, identities stay within 16 bits, and the upload is
  -- sound.
  pub service_run-IsSettled :
      (es : List Call) (s : Service) (w : W)
      → IsSettled bram.capacity s
      → IsSettled bram.capacity (run es (s, w)).0
  service_run-IsSettled [] s w v = v
  service_run-IsSettled (e ∷ es) s w v =
      service_run-IsSettled es (step e (s, w)).0 (step e (s, w)).1 (step-IsSettled e s w v)
