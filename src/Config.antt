-- ===== src/Config.antt =====
-- firmware/src/sonar_config.c and sonar_config.h: the supervision periods in scheduler ticks.
pub mod Ticks
mod Tests
use air_born_sonar.Common.{
  ℕ, ◌+◌, ◌*◌, ◌/◌, Bool, ◌||◌, Option, none, some, if◌then◌else◌, ◌==◌, ltb, leb, u32, u64,
  i32_max, ◌>>=◌,
}

-- `sonar_config_t`
pub record Config : Type 0 where
  pub heartbeat_ms : ℕ
  pub timeout_ms : ℕ
  pub report_ms : ℕ

-- `sonar_timing_t`
pub record Timing : Type 0 where
  pub heartbeat : ℕ
  pub timeout : ℕ
  pub report : ℕ

unfoldable pub config_default : Config
config_default = record { heartbeat_ms = 100; timeout_ms = 1000; report_ms = 1000 }

-- `none` is the refusal, which leaves `*ticks` alone. UINT32_MAX / 2U is 2^31 - 1.
unfoldable pub ms_to_ticks : ℕ → ℕ → Option ℕ
ms_to_ticks ms tick_hz =
    let rounded = u64 (ms * tick_hz + 999) / 1000 in
    if ms == 0 || tick_hz == 0
    then none
    else if rounded == 0 || ltb i32_max rounded
    then none
    else some (u32 rounded)

unfoldable pub accept_timing : Timing → Option Timing
accept_timing t =
    if leb t.timeout (2 * t.heartbeat) || ltb t.report t.heartbeat then none else some t

unfoldable pub validate : Config → ℕ → Option Timing
validate config tick_hz = do
  heartbeat ← ms_to_ticks config.heartbeat_ms tick_hz
  timeout ← ms_to_ticks config.timeout_ms tick_hz
  report ← ms_to_ticks config.report_ms tick_hz
  accept_timing record { heartbeat = heartbeat; timeout = timeout; report = report }
