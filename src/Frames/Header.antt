-- ===== src/Frames/Header.antt =====
-- The fields of a recorded frame's header, read back from its 112 bytes.
use air_born_sonar.Common.{
  ℕ, ◌+◌, ◌*◌, ◌<◌, ◌≡◌, refl, List, ◌∙◌, arith, get_or, le_word4, length, unsigned32, unsigned64,
}
use air_born_sonar.Crc32.{crc32, crc32-lt, crc32-take}
use air_born_sonar.Frames.{FrameMeta, frame_body, frame_header}

-- A word of two bytes at an offset of a buffer.
abbrev pub le_word2 : List ℕ → ℕ → ℕ
le_word2 p i = get_or p i 0 + get_or p (i + 1) 0 * 256

-- A word of eight bytes at an offset of a buffer.
abbrev pub le_word8 : List ℕ → ℕ → ℕ
le_word8 p i = le_word4 p i + le_word4 p (i + 4) * 4294967296

-- The four words of an identity.
abbrev pub WordsFit : List ℕ → Type 0
WordsFit id =
    (get_or id 0 0 < 4294967296)
    × (get_or id 1 0 < 4294967296)
    × (get_or id 2 0 < 4294967296)
    × (get_or id 3 0 < 4294967296)

abbrev pub IdentityAt : List ℕ → ℕ → List ℕ → Type 0
IdentityAt h i id =
    (le_word4 h i ≡ get_or id 0 0)
    × (le_word4 h (i + 4) ≡ get_or id 1 0)
    × (le_word4 h (i + 8) ≡ get_or id 2 0)
    × (le_word4 h (i + 12) ≡ get_or id 3 0)

-- The ranges that the C types of the fields give.
pub record FitsWords (m : FrameMeta) (bytes crc : ℕ) : Type 0 where
  pub bytes_in : bytes < 4294967296
  pub crc_in : crc < 4294967296
  pub sequence_in : m.sequence < 4294967296
  pub flags_in : m.flags < 4294967296
  pub divisor_in : m.divisor < 4294967296
  pub duration_in : m.tx_duration_us < 4294967296
  pub trigger_in : m.trigger_us < 18446744073709551616
  pub completion_in : m.completion_us < 18446744073709551616
  pub boot_in : WordsFit m.boot_id
  pub test_in : WordsFit m.test_id

-- What a host reads in the header.
pub record HasFields (m : FrameMeta) (bytes crc : ℕ) (h : List ℕ) : Type 0 where
  pub whole : length h ≡ 112
  pub magic : le_word4 h 0 ≡ 0x334e5341
  pub version : le_word2 h 4 ≡ 2
  pub header_size : le_word2 h 6 ≡ 112
  pub payload_bytes : le_word4 h 8 ≡ bytes
  pub sequence : le_word4 h 12 ≡ m.sequence
  pub sequence_again : le_word4 h 16 ≡ m.sequence
  pub flags : le_word4 h 20 ≡ m.flags
  pub channels : le_word4 h 24 ≡ 16
  pub pdm_hz : le_word4 h 28 ≡ 2400000
  pub trigger : le_word8 h 32 ≡ m.trigger_us
  pub completion : le_word8 h 40 ≡ m.completion_us
  pub position : le_word8 h 48 ≡ unsigned64 m.position
  pub steps : le_word4 h 56 ≡ unsigned32 m.steps
  pub divisor : le_word4 h 60 ≡ m.divisor
  pub tx_duration : le_word4 h 64 ≡ m.tx_duration_us
  pub rx_duration : le_word4 h 68 ≡ 50000
  pub payload_crc : le_word4 h 72 ≡ crc
  pub boot_id : IdentityAt h 76 m.boot_id
  pub test_id : IdentityAt h 92 m.test_id
  pub header_crc : le_word4 h 108 ≡ crc32 h 108

last_word :
    (m : FrameMeta) (bytes crc : ℕ)
    → le_word4 (frame_header m bytes crc) 108 ≡ crc32 (frame_header m bytes crc) 108
unfolding frame_header
last_word m bytes crc =
    let d = crc32 (frame_body m bytes crc) 108 in
    let read : le_word4 (frame_header m bytes crc) 108 ≡ d =
      omega (arith, crc32-lt (frame_body m bytes crc) 108) in
    read ∙ crc32-take (frame_body m bytes crc) (frame_header m bytes crc) 108 refl

-- Every field of a header that `frame_header` builds reads back as the value that was put in, for
-- values that fit their C types, the version, the size of the header, the number of channels and the PDM
-- rate are the fixed ones, and the last word is the CRC of the 108 bytes before it.
pub frame_header-HasFields :
    (m : FrameMeta) (bytes crc : ℕ)
    → FitsWords m bytes crc
    → HasFields m bytes crc (frame_header m bytes crc)
unfolding frame_header
frame_header-HasFields m bytes crc f = record {
  whole = refl;
  magic = refl;
  version = refl;
  header_size = refl;
  payload_bytes = omega arith;
  sequence = omega arith;
  sequence_again = omega arith;
  flags = omega arith;
  channels = refl;
  pdm_hz = refl;
  trigger = omega arith;
  completion = omega arith;
  position = omega arith;
  steps = omega arith;
  divisor = omega arith;
  tx_duration = omega arith;
  rx_duration = refl;
  payload_crc = omega arith;
  boot_id = omega (arith, f.boot_in);
  test_id = omega (arith, f.test_in);
  header_crc = last_word m bytes crc;
}
