-- ===== src/Coordinator/Tests.antt =====
-- Rounds of the task on a board whose parts do all that they are asked.
use air_born_sonar.Common.{
  ℕ, ◌+◌, ◌≡◌, ◌≢◌, ◌⊎◌, refl, true, false, none, some, List, [], ◌∷◌, arith, pos,
}
use air_born_sonar.Identity
use air_born_sonar.Identity.{test_ready}
use air_born_sonar.ControlService.{Chirp, Service, can_start}
use air_born_sonar.ControlService
use air_born_sonar.Scan360
use air_born_sonar.Frames.{zero_meta, zero_slot, filling, ready}
use air_born_sonar.Frames.Retention.{IsHeld}
use air_born_sonar.Mic.{MicIo, MicEvent}
use air_born_sonar.Mic
use air_born_sonar.Stepper.{TicIo, TicConfig, with_config}
use air_born_sonar.MeasurementCycle.{Cycle, idle, stopped, wait_buffer, start}
use air_born_sonar.Coordinator.{Board}
use air_born_sonar.Coordinator.Round.{
  Panel, Task, no_prompt, positions_key, number_key, run_key, start_run,
}
use air_born_sonar.Coordinator.Quiet.{IsOrdered, Act, round_act, take_act, finish_act, acts}
use air_born_sonar.Coordinator.Retaining.{acts-IsHeld}
use air_born_sonar.Coordinator.Starting.{start_run_lem}

-- The world counts the calls, which are the time too.
abbrev tic : TicIo ℕ
tic = record {
  write = λ address bytes w. (true, w + 1);
  read = λ address n w. (true, 10 ∷ 1 ∷ 0 ∷ 0 ∷ 0 ∷ 0 ∷ 0 ∷ 0 ∷ [], w + 1);
  clock = λ w. (w, w + 1);
}

abbrev mic_io : MicIo ℕ
mic_io = record {
  prepare = λ b s w. (true, w + 1);
  arm = λ b n g w. (true, w + 1);
  trigger = λ w. (true, w + 1);
  finish = λ b s w. (true, w + 1);
  abort = λ w. (true, w + 1);
}

abbrev board : Board ℕ
board = record {
  tic = tic;
  mic_io = mic_io;
  speaker_enable = λ on w. (true, w + 1);
  chirp_prepare = λ w. (true, w + 1);
  chirp_abort = λ w. (true, w + 1);
  ticks = λ w. (w, w + 1);
  trigger_us = λ w. w;
  stop_pending = λ w. false;
  address = λ i. 4096 + i;
  capture_ticks = 500;
}

abbrev panel : Panel ℕ
panel = record {
  board = board;
  queues = record {
    receive = λ w. (none, w + 1);
    send = λ r w. (true, w + 1);
    discard = λ w. w;
    ticks = λ w. (w, w + 1);
    rpc_ticks = 2000;
  };
  bram = record { capacity = 4704; init = λ w. (true, w); write = λ pair packed w. (true, w + 1) };
  chirp = record {
    capabilities = λ w. 3;
    status = λ w. 0;
    apply = λ config values w. (true, w + 1);
  };
  heartbeat = λ w. w;
  take_flags = λ w. ((false, false), w);
  inhibit = λ w. w;
  reset_keys = λ w. w;
  clock_us = λ w. (w, w + 1);
  take_event = λ w. (none, w);
  chirp_error = λ w. (false, w);
  chirp_done = λ w. (true, w);
  motor_ticks = 20;
}

abbrev tic_config : TicConfig
tic_config = record {
  address = 14;
  max_speed = 2000000;
  acceleration = 40000;
  deceleration = 40000;
  run_ticks = 100;
  operation_timeout_ticks = 5000;
  keepalive_ticks = 100;
  watchdog_ticks = 1000;
}

abbrev cycle : Cycle
cycle = record {
  config = record {
    tx_timeout_us = 60000;
    motor_start_us = 2000000;
    settle_us = 2000000;
    capture_timeout_us = 500000;
    motion_timeout_us = 300000000;
  };
  state = idle;
  since = 0;
  trigger = 0;
  last_poll = 0;
  fault_reason = none;
  fault_state = idle;
  cycle = 0;
  steps = pos 0;
  stopping = false;
  received = false;
  transmitted = false;
}

abbrev task : Task
task = record {
  cycle = cycle;
  lab = record {
    motor = with_config tic_config;
    mic = Mic.bad;
    frames = record { state = ready; frame = record zero_meta { sequence = 4 } } ∷ zero_slot ∷ [];
    filling = none;
    scan = Scan360.zeroed;
    metadata = zero_meta;
    motor_ready = true;
    waiting_for_buffer = false;
    service = record ControlService.zeroed {
      valid = true;
      identity = record Identity.zeroed { prepared = true };
    };
  };
  positions = pos 0;
  prompt = no_prompt;
  ok = true;
  last_motor = 0;
  fault_reported = false;
}

task-IsOrdered : IsOrdered task
task-IsOrdered = ground arith

-- Four positions, a run, and a transfer that fails and is repeated.
abbrev a_day : List Act
a_day =
    round_act (positions_key ∷ number_key (some (pos 4)) ∷ run_key ∷ [])
    ∷ take_act 9
    ∷ round_act []
    ∷ finish_act 0 false
    ∷ take_act 9
    ∷ round_act []
    ∷ []

held : IsHeld task.lab.frames 0 (record zero_meta { sequence = 4 })
held = ground arith

acts-IsHeld_example :
    IsHeld (acts panel a_day (task, 0)).0.lab.frames 0 (record zero_meta { sequence = 4 })
acts-IsHeld_example =
    acts-IsHeld panel a_day task 0 0 (record zero_meta { sequence = 4 })
      (tt, (tt, (tt, (tt, (tt, (tt, tt)))))) task-IsOrdered held

start_run_lem_example :
    let t = record task { positions = pos 4 } in
    let t' = (start_run panel false (t, 0)).0 in
    (false ≡ false)
      × (t.positions ≢ pos 0)
      × ((t.cycle.state ≡ idle) ⊎ (t.cycle.state ≡ stopped))
      × (can_start t.lab.service ≡ true)
      × (test_ready t.lab.service.identity ≡ true)
      × (t'.cycle.state ≡ wait_buffer)
      × (t'.cycle.steps ≡ t.positions)
      × (t'.lab.scan.moves_started ≡ 0)
      × (t'.lab.scan.positions ≡ t.lab.scan.positions)
      × (test_ready t'.lab.service.identity ≡ false)
      × (can_start t'.lab.service ≡ false)
    ⊎ ((false ≡ true)
        ⊎ ((t.positions ≡ pos 0)
            ⊎ ((t.cycle.state ≢ idle) × (t.cycle.state ≢ stopped)
                ⊎ ((can_start t.lab.service ≡ false)
                    ⊎ (test_ready t.lab.service.identity ≡ false)))))
      × (t' ≡ t)
start_run_lem_example = start_run_lem panel false (record task { positions = pos 4 }) 0

starts_run :
    (start_run panel false (record task { positions = pos 4 }, 0)).0.cycle.state ≡ wait_buffer
unfolding start_run can_start test_ready start
starts_run = refl
