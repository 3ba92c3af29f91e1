-- ===== src/I2c/Register.antt =====
-- The offsets PS_I2C_… of firmware/src/sonar_ps_i2c.h.
use air_born_sonar.Common.{ℕ}

abbrev pub cr : ℕ
cr = 0x0

abbrev pub sr : ℕ
sr = 0x4

abbrev pub addr : ℕ
addr = 0x8

abbrev pub data_reg : ℕ
data_reg = 0xc

abbrev pub isr : ℕ
isr = 0x10

abbrev pub size : ℕ
size = 0x14

abbrev pub timeout : ℕ
timeout = 0x1c

abbrev pub idr : ℕ
idr = 0x28
