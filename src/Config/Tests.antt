-- ===== src/Config/Tests.antt =====
-- Runs of the conversions.
use air_born_sonar.Common.{◌+◌, ◌/◌, ◌≤◌, ◌≡◌, refl, ◌⊎◌, none, some, arith}
use air_born_sonar.Config.{Timing, config_default, ms_to_ticks, accept_timing, validate}
use air_born_sonar.Config.Ticks.{validate_default}

ten_ms : ms_to_ticks 10 333 ≡ some 4
unfolding ms_to_ticks
ten_ms = refl

abbrev at_100_hz : Timing
at_100_hz = record { heartbeat = 10; timeout = 100; report = 100 }

default_at_100_hz : validate config_default 100 ≡ some at_100_hz
unfolding validate config_default accept_timing ms_to_ticks
default_at_100_hz = refl

validate_default_example :
    (validate config_default 2 ≡ none) × (◌≤◌ 2 2)
    ⊎ (validate config_default 2
        ≡ some record { heartbeat = (2 + 9) / 10; timeout = 2; report = 2 })
      × (3 ≤ 2)
validate_default_example = validate_default 2 (omega arith) (omega arith)
