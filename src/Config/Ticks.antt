-- ===== src/Config/Ticks.antt =====
-- What the conversions of firmware/src/sonar_config.c guarantee.
use air_born_sonar.Common.{
  ℕ, ◌+◌, ◌*◌, ◌/◌, ◌≤◌, ◌<◌, ◌≡◌, ◌⊎◌, none, some, arith, i32_max, u64, ◌≢◌, inl, inr,
}
use native.Mathlib.Decide.{ℕ_discrete, dec_lt}
use air_born_sonar.Config.{Config, Timing, config_default, ms_to_ticks, accept_timing, validate}

no_wrap :
    (ms tick_hz : ℕ)
    → ms < 4294967296
    → tick_hz < 4294967296
    → u64 (ms * tick_hz + 999) ≡ ms * tick_hz + 999
no_wrap ms tick_hz hm ht = grind (arith, below ms tick_hz hm ht)
  where
    below : (m t : ℕ) → m < 4294967296 → t < 4294967296 → m * t ≤ 4294967295 * 4294967295
    below m t p q = grind arith

product_pos : (ms tick_hz : ℕ) → ms ≢ 0 → tick_hz ≢ 0 → 0 < ms * tick_hz
product_pos ms tick_hz p q = grind (arith, one_le ms tick_hz)
  where
    one_le : (m t : ℕ) → m ≢ 0 → t ≢ 0 → 1 * 1 ≤ m * t
    one_le m t p q = grind arith

-- A conversion is refused exactly for zero arguments and for an interval of 2^31 ticks or more.
-- Otherwise it gives the ticks that the milliseconds need, rounded up: `r` ticks are long enough and
-- `r - 1` are not, and `r` lies in 1 .. 2^31 - 1.
pub ms_to_ticks_lem :
    (ms tick_hz : ℕ)
    → ms < 4294967296
    → tick_hz < 4294967296
    → (ms_to_ticks ms tick_hz ≡ none)
        × ((ms ≡ 0) ⊎ ((tick_hz ≡ 0) ⊎ (i32_max * 1000 < ms * tick_hz)))
      ⊎ ((r : ℕ) × (ms_to_ticks ms tick_hz ≡ some r)
          × (ms * tick_hz ≤ r * 1000)
          × (r * 1000 < ms * tick_hz + 1000)
          × (0 < r)
          × (r ≤ i32_max))
unfolding ms_to_ticks
ms_to_ticks_lem ms tick_hz hm ht = elim (ℕ_discrete ms 0) [
  | yes z ↦ inl (ground arith, inl z)
  | no n ↦ elim (ℕ_discrete tick_hz 0) [
    | yes z ↦ inl (ground arith, inr (inl z))
    | no m ↦ elim (dec_lt (i32_max * 1000) (ms * tick_hz)) [
      | yes big ↦ inl (ground (arith, no_wrap ms tick_hz hm ht), inr (inr big))
      | no small ↦ inr (
        (ms * tick_hz + 999) / 1000,
        ground (arith, no_wrap ms tick_hz hm ht, product_pos ms tick_hz n m),
        omega arith,
        omega arith,
        omega (arith, product_pos ms tick_hz n m),
        omega arith,
      )
    ]
  ]
]

-- The three periods that a validated configuration has.
pub record IsTiming (t : Timing) : Type 0 where
  pub heartbeat_pos : 0 < t.heartbeat
  pub outlasts : 2 * t.heartbeat < t.timeout
  pub reports : t.heartbeat ≤ t.report
  pub timeout_fits : t.timeout ≤ i32_max
  pub report_fits : t.report ≤ i32_max

ms_to_ticks-fits : (ms tick_hz r : ℕ) → ms_to_ticks ms tick_hz ≡ some r → (0 < r) × (r ≤ i32_max)
unfolding ms_to_ticks
ms_to_ticks-fits ms tick_hz r h = ground arith

-- The periods of an accepted configuration are the three conversions, and meet what the supervisor
-- needs: the timeout is longer than two heartbeats, a report is not more frequent than a heartbeat,
-- and every period is positive and wrap-safe.
pub validate-IsTiming :
    (config : Config) (tick_hz : ℕ) (t : Timing)
    → validate config tick_hz ≡ some t
    → IsTiming t
      × (ms_to_ticks config.heartbeat_ms tick_hz ≡ some t.heartbeat)
      × (ms_to_ticks config.timeout_ms tick_hz ≡ some t.timeout)
      × (ms_to_ticks config.report_ms tick_hz ≡ some t.report)
unfolding validate accept_timing
validate-IsTiming config tick_hz t h = ground (
  arith,
  ms_to_ticks-fits config.heartbeat_ms tick_hz t.heartbeat,
  ms_to_ticks-fits config.timeout_ms tick_hz t.timeout,
  ms_to_ticks-fits config.report_ms tick_hz t.report,
)

-- The default configuration is accepted at every tick rate of 3 Hz to 1 kHz, and refused at 1 Hz and
-- 2 Hz, where one timeout is not longer than two heartbeats of a tick each.
pub validate_default :
    (tick_hz : ℕ)
    → 0 < tick_hz
    → tick_hz ≤ 1000
    → (validate config_default tick_hz ≡ none) × (tick_hz ≤ 2)
      ⊎ (validate config_default tick_hz
          ≡ some record { heartbeat = (tick_hz + 9) / 10; timeout = tick_hz; report = tick_hz })
        × (3 ≤ tick_hz)
unfolding validate config_default accept_timing ms_to_ticks
validate_default tick_hz p q = ground arith
