-- ===== src/I2c/Tests.antt =====
-- The start-up at 111 MHz and 100 kHz, and a transfer on a bus that stays busy.
use air_born_sonar.Common.{ℕ, ◌+◌, ◌/◌, ◌≤◌, ◌<◌, ◌≡◌, refl, false, some, [], ◌∷◌, arith, u32}
use air_born_sonar.I2c.{I2cIo, I2c, rate_error, divider_of, search, init, transfer}
use air_born_sonar.I2c.Divider.{i2c_init_lem}
use air_born_sonar.I2c.Ending.{KeepsTime, Ends, transfer-Ends}

abbrev io : I2cIo ℕ
io = record {
  read = λ at w. (0, w + 1);
  write = λ at value w. w + 1;
  now = λ w. (w, w + 1);
  wait = λ w. w + 1;
}

abbrev bus : I2c
bus = record { divider = 12800; timeout_ticks = 100; last_irq = 0; quarantined = false }

starts : (init io 111111115 100000 100 0).0 ≡ some bus
unfolding init search rate_error
starts = refl

i2c_init_lem_example :
    ((i : ℕ) × (i < 256)
      × (bus.divider ≡ divider_of i)
      × (rate_error 111111115 100000 i ≤ 100000 / 20)
      × ((j : ℕ) → j < 256 → rate_error 111111115 100000 i ≤ rate_error 111111115 100000 j))
    × (bus.timeout_ticks ≡ 100)
    × (0 < 100)
    × (100 < 0x80000000)
    × (bus.quarantined ≡ false)
i2c_init_lem_example = i2c_init_lem io 111111115 100000 100 0 bus starts

abbrev timed : I2cIo ℕ
timed = record {
  read = λ at w. (0x100, w);
  write = λ at value w. w;
  now = λ w. (u32 w, w);
  wait = λ w. w + 1;
}

timed-KeepsTime : KeepsTime timed (λ w. w) 1 100
timed-KeepsTime = record {
  reads = λ w. refl;
  now = λ w. omega arith;
  read = λ at w. omega arith;
  write = λ at v w. omega arith;
  wait = λ w. omega arith;
  small = omega arith;
}

transfer-Ends_example : Ends (transfer timed 101 14 (0x83 ∷ []) false (bus, 7))
transfer-Ends_example =
    transfer-Ends timed (λ w. w) 1 100 timed-KeepsTime 101 14 (0x83 ∷ []) false bus 7 refl
      (omega arith)
