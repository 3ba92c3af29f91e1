-- ===== src/Transmitter/Tests.antt =====
-- Runs of the transmitter on hardware that never finishes, with a clock that counts the calls.
use air_born_sonar.Common.{ℕ, ◌+◌, ◌≡◌, refl, Bool, true, false, some, [], ◌∷◌, arith, u32}
use air_born_sonar.ExperimentConfig.{ExperimentConfig, ChirpValues}
use air_born_sonar.WaveformUpload.{Upload}
use air_born_sonar.Transmitter.{
  TxIo, Transmitter, zeroed, init, error, poll, capabilities, prepare, triggered, apply, done,
  abort,
}
use air_born_sonar.Transmitter.States.{
  IsValid, prepare_call, poll_call, trigger_call, run, tx_run-IsValid, tx_run_faulted,
}
use air_born_sonar.Transmitter.Draining.{KeepsTime, Ends, abort-Ends}

abbrev io : TxIo ℕ
io = record {
  player = record {
    write = λ at value w. w;
    mode_reg = 256;
    control_reg = 512;
    capacity = 4096;
    bram_init = λ w. (true, w);
    set_gain = λ samples pct w. (true, w);
  };
  status = λ w. (2, w);
  clock_us = λ w. (w, w);
  ticks = λ w. (u32 w, w);
  delay = λ w. w + 1;
  speaker_enable = λ on w. (true, w);
  profile_fits = true;
  status_base = 1024;
  status_width = 3;
  freq_base = 2048;
  gpio_base = 4096;
  io_ticks = 100;
}

abbrev set_up : Transmitter
set_up = record zeroed {
  initialized = true;
  applied = true;
  gpio = record { initialized = true; shadow = 0 };
  tx_timeout_us = 60000;
}

abbrev playing : Transmitter
playing = record set_up { running = true }

playing-IsValid : IsValid playing
playing-IsValid = ground arith

late :
    run io (poll_call ∷ prepare_call ∷ []) (playing, 70000)
    ≡ some (record set_up { fault = true; running = true; started_us = 0 }, 70000)
unfolding prepare poll
late = refl

tx_run-IsValid_example : IsValid (record set_up { fault = true; running = true; started_us = 0 })
tx_run-IsValid_example =
    tx_run-IsValid io (poll_call ∷ prepare_call ∷ []) playing 70000
      (record set_up { fault = true; running = true; started_us = 0 }, 70000) playing-IsValid late

abbrev failed : Transmitter
failed = record set_up { fault = true }

stays :
    run io (prepare_call ∷ trigger_call 5 ∷ poll_call ∷ []) (failed, 9)
    ≡ some (record failed { fault = true }, 9)
unfolding poll triggered prepare
stays = refl

tx_run_faulted_example :
    let s' = record failed { fault = true } in
    (s'.fault ≡ true)
    × (capabilities s' ≡ 0)
    × ((init io (s', 9)).0 ≡ false)
    × ((done io (s', 9)).0 ≡ false)
    × ((error io (s', 9)).0 ≡ true)
    × ((prepare io (s', 9)).0 ≡ false)
    × ((u : Upload) (c : ExperimentConfig) (v : ChirpValues) → (apply io u c v (s', 9)).0 ≡ false)
    × ((t : ℕ) → triggered t s' ≡ s')
    × ((fuel : ℕ) (ok : Bool) (x : Transmitter × ℕ)
        → s'.initialized ≡ true
        → abort io fuel (s', 9) ≡ some (ok, x)
        → ok ≡ false)
tx_run_faulted_example =
    tx_run_faulted io (prepare_call ∷ trigger_call 5 ∷ poll_call ∷ []) failed 9
      (record failed { fault = true }) 9 refl stays

io-KeepsTime : KeepsTime io (λ w. w) 1
io-KeepsTime = record {
  reads = λ w. refl;
  ticks = λ w. omega arith;
  delay = λ w. omega arith;
  status = λ w. omega arith;
  clock = λ w. omega arith;
  small = omega arith;
}

abort-Ends_example : Ends (abort io 101 (playing, 9))
abort-Ends_example = abort-Ends io (λ w. w) 1 io-KeepsTime 101 playing 9 (omega arith)
