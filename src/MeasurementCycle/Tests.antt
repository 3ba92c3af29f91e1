-- ===== src/MeasurementCycle/Tests.antt =====
-- Runs of the measurement cycle, with callbacks that count their calls.
use air_born_sonar.Common.{ℕ, ◌+◌, ◌≡◌, refl, true, false, none, some, [], ◌∷◌, List, arith, pos}
use air_born_sonar.MeasurementCycle.{
  idle, wait_buffer, acquire, pre_move, fault, CycleConfig, CycleIo, Cycle, init, start, halt, poll,
}
use air_born_sonar.MeasurementCycle.Transitions.{Edge, poll-Edge, IsValid}
use air_born_sonar.MeasurementCycle.Stopping.{
  Call, poll_call, start_call, IsHalted, OnlyStops, run, halt_final,
}

abbrev config : CycleConfig
config = record {
  tx_timeout_us = 60000;
  motor_start_us = 2000000;
  settle_us = 2000000;
  capture_timeout_us = 500000;
  motion_timeout_us = 300000000;
}

abbrev counting : CycleIo ℕ
counting = record {
  capture = λ n t w. (pos 1, t + 5, w + 1);
  move = λ s w. (true, w + 1);
  stop = λ w. (true, w + 1);
}

abbrev fresh : Cycle
fresh = record {
  config = config;
  state = idle;
  since = 0;
  trigger = 0;
  last_poll = 0;
  fault_reason = none;
  fault_state = idle;
  cycle = 0;
  steps = pos 0;
  stopping = false;
  received = false;
  transmitted = false;
}

abbrev acquiring : Cycle
acquiring = record fresh { state = acquire; trigger = 15; since = 15; last_poll = 10; cycle = 1 }

abbrev failed : Cycle
failed = record fresh {
  state = fault;
  fault_reason = some "CAPTURE_START";
  fault_state = wait_buffer;
}

init_fresh : init config ≡ some fresh
unfolding init
init_fresh = refl

abbrev one_position : List Call
one_position =
    start_call (pos 3) 0
    ∷ poll_call 10 false false false false
    ∷ poll_call 60010 true true false false
    ∷ poll_call 2000015 false false false false
    ∷ poll_call 3000000 false false true false
    ∷ poll_call 5000000 false false false false
    ∷ []

one_position_runs : (run counting one_position (fresh, 0)).0.state ≡ wait_buffer
unfolding start poll
one_position_runs = refl

abbrev waiting_to_move : Cycle
waiting_to_move = record acquiring { state = pre_move; received = true; transmitted = true }

poll-Edge_example :
    let (c', w') = poll counting waiting_to_move 2000015 false false false false 7 in
    Edge counting waiting_to_move 2000015 false false false false 7 pre_move c'.state w'
poll-Edge_example = poll-Edge counting waiting_to_move 2000015 false false false false 7

halt_final_example :
    let (c', done, w') = halt counting acquiring 20 0 in
    let (c'', w'') = run counting (poll_call 60020 true true false false ∷ []) (c', w') in
    IsHalted c'' × OnlyStops counting 0 w''
halt_final_example =
    halt_final counting acquiring 20 0 (poll_call 60020 true true false false ∷ []) (tt, tt)

fresh-IsValid : IsValid fresh
fresh-IsValid = ground arith
