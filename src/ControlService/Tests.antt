-- ===== src/ControlService/Tests.antt =====
-- A session that stages a chirp and applies it, on a transmitter that takes everything.
use air_born_sonar.Common.{
  ℕ, ◌+◌, ◌≡◌, ◌≢◌, ◌⊎◌, refl, true, some, List, [], ◌∷◌, ◌++◌, arith, le_bytes4,
}
use air_born_sonar.ControlProtocol.{get_u32}
use air_born_sonar.ControlProtocol.Op
use air_born_sonar.ControlProtocol.Reply
use air_born_sonar.ExperimentConfig.{calculate, rounded_step, phase_inc}
use air_born_sonar.WavParser.{TxBram}
use air_born_sonar.ControlService.{
  Chirp, Service, zeroed, no_config, can_start, command, by_op, set_generated, stage, apply,
  apply_calculated,
}
use air_born_sonar.ControlService.Sessions.{command_running}
use air_born_sonar.ControlService.Settings.{
  IsSettled, command_call, running_call, run, service_run-IsSettled, command_apply,
}

abbrev bram : TxBram ℕ
bram = record { capacity = 4704; init = λ w. (true, w); write = λ pair packed w. (true, w + 1) }

abbrev chirp : Chirp ℕ
chirp = record { capabilities = λ w. 3; status = λ w. 0; apply = λ config values w. (true, w + 1) }

-- 20 to 30 kHz in 10 ms at full amplitude.
abbrev sweep : List ℕ
sweep = le_bytes4 20000 ++ le_bytes4 30000 ++ le_bytes4 10000 ++ le_bytes4 100

abbrev staged : Service
staged = record zeroed {
  pending = record no_config {
    start_hz = 20000;
    stop_hz = 30000;
    duration_us = 10000;
    amplitude_pct = 100;
  };
  staged = true;
  owner = 7;
}

stages : command bram chirp zeroed 7 Op.set_generated sweep true 0 ≡ (staged, Reply.ok, 0)
unfolding command by_op set_generated stage calculate get_u32 rounded_step phase_inc
stages = refl

applies : (command bram chirp staged 7 Op.apply [] true 0).1 ≡ Reply.ok
unfolding command by_op apply apply_calculated calculate rounded_step phase_inc
applies = refl

command_apply_example :
    let s' = (command bram chirp staged 7 Op.apply [] true 0).0 in
    let config = record staged.pending { config_id = 1 } in
    (staged.staged ≡ true)
    × (staged.owner ≡ 7)
    × (calculate staged.pending 0 ≡ some s'.values)
    × ((chirp.apply config s'.values 0).0 ≡ true)
    × (s'.active ≡ record config { duration_us = s'.values.duration_us })
    × (can_start s' ≡ true)
command_apply_example = command_apply bram chirp staged 7 [] true 0 applies

zeroed-IsSettled : IsSettled 4704 zeroed
zeroed-IsSettled = ground arith

service_run-IsSettled_example :
    IsSettled 4704
      (run bram chirp
        (command_call 7 Op.set_generated sweep true
          ∷ command_call 7 Op.apply [] true
          ∷ running_call true
          ∷ command_call 8 Op.upload_begin sweep true
          ∷ [])
        (zeroed, 0)).0
service_run-IsSettled_example =
    service_run-IsSettled bram chirp
      (command_call 7 Op.set_generated sweep true
        ∷ command_call 7 Op.apply [] true
        ∷ running_call true
        ∷ command_call 8 Op.upload_begin sweep true
        ∷ [])
      zeroed 0 zeroed-IsSettled

seven : staged.owner ≢ 0
seven = ground arith

eight : 8 ≢ staged.owner
eight = ground arith

abbrev busy : Service
busy = record staged { running = true }

command_running_example :
    let (s', error, w') = command bram chirp busy 7 Op.apply [] true 0 in
    (w' ≡ 0)
    × (((s' ≡ busy)
          × ((error ≡ Reply.busy)
              ⊎ (Op.apply ≡ Op.get_capabilities)
              ⊎ (Op.apply ≡ Op.get_configuration)))
        ⊎ (Op.apply ≡ Op.end_session)
          × (error ≡ Reply.ok)
          × (s'.active ≡ busy.active)
          × (s'.values ≡ busy.values)
          × (s'.valid ≡ busy.valid)
          × (s'.running ≡ true)
          × (s'.identity ≡ busy.identity))
command_running_example = command_running bram chirp busy 7 Op.apply [] true 0 refl
