-- ===== src/CodecBus/Register.antt =====
-- The offsets CODEC_… of firmware/src/sonar_codec_bus.h.
use air_born_sonar.Common.{ℕ}

abbrev pub gier : ℕ
gier = 0x1c

abbrev pub isr : ℕ
isr = 0x20

abbrev pub ier : ℕ
ier = 0x28

abbrev pub reset : ℕ
reset = 0x40

abbrev pub cr : ℕ
cr = 0x100

abbrev pub sr : ℕ
sr = 0x104

abbrev pub tx : ℕ
tx = 0x108

abbrev pub rx_depth : ℕ
rx_depth = 0x120
