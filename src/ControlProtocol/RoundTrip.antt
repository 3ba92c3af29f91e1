-- ===== src/ControlProtocol/RoundTrip.antt =====
-- Encoding and decoding of the request header of firmware/src/sonar_control_protocol.c.
use air_born_sonar.Common.{
  ℕ, ◌%◌, ◌/◌, ◌≤◌, ◌<◌, ◌≡◌, refl, List, [], ◌∷◌, ◌++◌, some, arith, le_bytes4, le_bytes4_sum,
}
use air_born_sonar.Crc32.{crc32, crc32-lt, crc32-take}
use air_born_sonar.ControlProtocol.{header, decode, max_payload}

-- The first 24 bytes of a header.
abbrev pub body : ℕ → ℕ → ℕ → ℕ → List ℕ
body op id bytes crc =
    0x41
    ∷ 0x53
    ∷ 0x43
    ∷ 0x32
    ∷ 2
    ∷ 0
    ∷ 28
    ∷ 0
    ∷ op % 256
    ∷ op / 256 % 256
    ∷ op / 65536 % 256
    ∷ op / 16777216 % 256
    ∷ id % 256
    ∷ id / 256 % 256
    ∷ id / 65536 % 256
    ∷ id / 16777216 % 256
    ∷ bytes % 256
    ∷ bytes / 256 % 256
    ∷ bytes / 65536 % 256
    ∷ bytes / 16777216 % 256
    ∷ crc % 256
    ∷ crc / 256 % 256
    ∷ crc / 65536 % 256
    ∷ crc / 16777216 % 256
    ∷ []

-- What the host receives for a request is what was put in: decoding an encoded header gives the
-- opcode, the request number and the length, and the CRC of the payload, for every payload of at most
-- 1024 bytes.
pub decode-header :
    (op id : ℕ) (payload : List ℕ) (bytes : ℕ)
    → op < 4294967296
    → id < 4294967296
    → bytes ≤ max_payload
    → decode (header op id payload bytes)
      ≡ some record { opcode = op; request = id; bytes = bytes; crc = crc32 payload bytes }
unfolding decode header
decode-header op id payload bytes ho hi hb =
    let c = crc32 payload bytes in
    let b = body op id bytes c in
    let d = crc32 (b ++ (0 ∷ 0 ∷ 0 ∷ 0 ∷ [])) 24 in
    ground (
      arith,
      crc32-take (b ++ le_bytes4 d) (b ++ (0 ∷ 0 ∷ 0 ∷ 0 ∷ [])) 24 refl,
      le_bytes4_sum op ho,
      le_bytes4_sum id hi,
      le_bytes4_sum bytes (omega arith),
      le_bytes4_sum c (crc32-lt payload bytes),
      le_bytes4_sum d (crc32-lt (b ++ (0 ∷ 0 ∷ 0 ∷ 0 ∷ [])) 24),
    )
