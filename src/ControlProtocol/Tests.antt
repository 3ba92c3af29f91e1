-- ===== src/ControlProtocol/Tests.antt =====
-- Runs of the request header.
use air_born_sonar.Common.{◌≡◌, [], ◌∷◌, some, arith}
use air_born_sonar.Crc32.{crc32}
use air_born_sonar.ControlProtocol.{header, decode}
use air_born_sonar.ControlProtocol.RoundTrip.{decode-header}

decode-header_example :
    decode (header 5 70000 (1 ∷ 2 ∷ 3 ∷ []) 3)
    ≡ some record { opcode = 5; request = 70000; bytes = 3; crc = crc32 (1 ∷ 2 ∷ 3 ∷ []) 3 }
decode-header_example =
    decode-header 5 70000 (1 ∷ 2 ∷ 3 ∷ []) 3 (omega arith) (omega arith) (omega arith)
