-- ===== src/ControlProtocol/Reply.antt =====
-- The error codes CTRL_… of firmware/src/sonar_control_protocol.h.
use air_born_sonar.Common.{ℕ}

abbrev pub ok : ℕ
ok = 0

abbrev pub bad_request : ℕ
bad_request = 1

abbrev pub busy : ℕ
busy = 2

abbrev pub range : ℕ
range = 3

abbrev pub checksum : ℕ
checksum = 4

abbrev pub no_waveform : ℕ
no_waveform = 5

abbrev pub hardware : ℕ
hardware = 6

abbrev pub timeout : ℕ
timeout = 7

abbrev pub sequence : ℕ
sequence = 8
