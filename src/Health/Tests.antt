-- ===== src/Health/Tests.antt =====
-- Runs of the heartbeat monitor.
use air_born_sonar.Common.{◌≡◌, refl, true, List, [], ◌∷◌}
use air_born_sonar.Health.{waiting, running, Health, init, accept, poll}
use air_born_sonar.Health.Monitor.{Event, beat, poll_at, run}

abbrev started : Health
started = record {
  state = waiting;
  timeout = 1000;
  last_tick = 4294967290;
  next_sequence = 0;
  received = 0;
}

abbrev beats : List Event
beats =
    beat (record { sequence = 0; tick = 4294967295 }) 4294967295
    ∷ poll_at 50
    ∷ beat (record { sequence = 1; tick = 90 }) 95
    ∷ []

init_started : init 4294967290 1000 ≡ (started, true)
unfolding init
init_started = refl

beats-run : (run started beats).state ≡ running
unfolding accept poll
beats-run = refl
