-- ===== src/ControlProtocol/Op.antt =====
-- The opcodes CTRL_… of firmware/src/sonar_control_protocol.h.
use air_born_sonar.Common.{ℕ}

abbrev pub get_capabilities : ℕ
get_capabilities = 1

abbrev pub set_generated : ℕ
set_generated = 2

abbrev pub upload_begin : ℕ
upload_begin = 3

abbrev pub upload_data : ℕ
upload_data = 4

abbrev pub upload_commit : ℕ
upload_commit = 5

abbrev pub select_waveform : ℕ
select_waveform = 6

abbrev pub apply : ℕ
apply = 7

abbrev pub get_configuration : ℕ
get_configuration = 8

abbrev pub upload_cancel : ℕ
upload_cancel = 9

abbrev pub set_boot_id : ℕ
set_boot_id = 10

abbrev pub prepare_test : ℕ
prepare_test = 11

abbrev pub end_session : ℕ
end_session = 65535
