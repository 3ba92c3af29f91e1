-- ===== src/ControlProtocol.antt =====
-- firmware/src/sonar_control_protocol.c: the 28-byte request header of TCP 5003.
pub mod RoundTrip
pub mod Op
pub mod Reply
mod Tests
use air_born_sonar.Common.{
  ℕ, ◌+◌, Bool, true, false, not, ◌&&◌, ◌||◌, List, [], ◌∷◌, Option, none, some, if◌then◌else◌,
  ◌==◌, ltb, get_or, set, take, replicate, write_at, le_bytes4, le_word4,
}
use air_born_sonar.Crc32.{crc32}

abbrev pub header_bytes : ℕ
header_bytes = 28

abbrev pub max_payload : ℕ
max_payload = 1024

-- "ASC2"
abbrev pub magic : List ℕ
magic = 0x41 ∷ 0x53 ∷ 0x43 ∷ 0x32 ∷ []

-- `sonar_get_u32(p + i)`
unfoldable pub get_u32 : List ℕ → ℕ → ℕ
get_u32 p i = le_word4 p i

-- `sonar_put_u32(p + i, n)`
unfoldable pub put_u32 : List ℕ → ℕ → ℕ → List ℕ
put_u32 p i n = write_at i (le_bytes4 n) p

-- `sonar_control_header`
unfoldable pub header : ℕ → ℕ → List ℕ → ℕ → List ℕ
unfolding put_u32
header op id payload bytes =
    let h = write_at 0 magic (replicate header_bytes 0) in
    let h = set (set h 4 2) 6 header_bytes in
    let h = put_u32 (put_u32 (put_u32 h 8 op) 12 id) 16 bytes in
    let h = put_u32 h 20 (crc32 payload bytes) in put_u32 h 24 (crc32 h 24)

-- What `sonar_control_decode` writes through its pointers.
pub record Request : Type 0 where
  pub opcode : ℕ
  pub request : ℕ
  pub bytes : ℕ
  pub crc : ℕ

-- `memcmp(h, "ASC2", 4) == 0`
is_magic : List ℕ → Bool
is_magic h =
    get_or h 0 0 == 0x41 && get_or h 1 0 == 0x53 && get_or h 2 0 == 0x43 && get_or h 3 0 == 0x32

-- `sonar_control_decode`; `none` is the refusal.
unfoldable pub decode : List ℕ → Option Request
unfolding get_u32 is_magic
decode h =
    if not (is_magic h)
      || not (get_or h 4 0 == 2)
      || not (get_or h 5 0 == 0)
      || not (get_or h 6 0 == header_bytes)
      || not (get_or h 7 0 == 0)
      || not (get_u32 h 24 == crc32 h 24)
      || ltb max_payload (get_u32 h 16)
    then none
    else some record {
      opcode = get_u32 h 8;
      request = get_u32 h 12;
      bytes = get_u32 h 16;
      crc = get_u32 h 20;
    }
