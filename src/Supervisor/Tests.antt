-- ===== src/Supervisor/Tests.antt =====
-- Runs of the supervisor: two heartbeats, then a stall.
use air_born_sonar.Common.{◌+◌, ◌≡◌, refl, true, List, [], ◌∷◌, some}
use air_born_sonar.Config.{Timing, config_default, validate, ms_to_ticks, accept_timing}
use air_born_sonar.Health.{running, Health, init, accept, poll, queue_fault}
use air_born_sonar.Supervisor.{
  watching, heartbeat, supervise, started, begin_watch, watch_step, watch_round, monitored,
  accept_received,
}
use air_born_sonar.Supervisor.Order.{Event, beat, watch, run}
use air_born_sonar.Supervisor.Latch.{Outcome, supervise-Outcome}

abbrev timing : Timing
timing = record { heartbeat = 10; timeout = 100; report = 100 }

abbrev beats : List Event
beats =
    beat 4294967290 ∷ watch true 4294967290 ∷ watch true 4294967291 ∷ beat 10 ∷ watch true 11 ∷ []

abbrev alive : Health
alive = record { state = running; timeout = 100; last_tick = 10; next_sequence = 2; received = 2 }

runs : (run beats (started timing)).watch ≡ watching alive true 4294967291
unfolding heartbeat supervise begin_watch watch_step watch_round monitored accept_received init
    accept poll queue_fault
runs = refl

-- No heartbeat for 100 ticks.
stalls : (run (watch true 110 ∷ []) (run beats (started timing))).inhibited ≡ true
unfolding heartbeat supervise begin_watch watch_step watch_round monitored accept_received init
    accept poll queue_fault
stalls = refl

supervise-Outcome_example :
    let s = run beats (started timing) in
    ((supervise true 110 s).restarts ≡ s.restarts + 1) × Outcome s alive 110 (supervise true 110 s)
supervise-Outcome_example =
    supervise-Outcome true 110 (run beats (started timing)) alive true 4294967291 runs

validated : validate config_default 100 ≡ some timing
unfolding validate config_default ms_to_ticks accept_timing
validated = refl
