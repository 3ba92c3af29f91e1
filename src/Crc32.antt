-- ===== src/Crc32.antt =====
-- The CRC-32 of firmware/src/sonar_frames.c (`sonar_crc32`), whose inner loop is also the `crc_byte`
-- of firmware/src/sonar_waveform_upload.c.
use Prim.Native.Nat.{bit_and, bit_xor}
use air_born_sonar.Common.{
  ℕ, zero, suc, ◌/◌, ◌<◌, ◌≡◌, refl, List, [], ◌∷◌, ◌++◌, arith, take, sub32, not32, u32_max,
}

-- `crc = (crc >> 1) ^ (0xedb88320U & (0U - (crc & 1U)))`
crc_bit : ℕ → ℕ
crc_bit crc = bit_xor (crc / 2) (bit_and 0xedb88320 (sub32 0 (bit_and crc 1)))

crc_bits : ℕ → ℕ → ℕ
crc_bits zero crc = crc
crc_bits (suc n) crc = crc_bits n (crc_bit crc)

-- One byte: `crc ^= b` and eight rounds.
unfoldable pub crc_byte : ℕ → ℕ → ℕ
unfolding crc_bits crc_bit
crc_byte crc b = crc_bits 8 (bit_xor crc b)

unfoldable pub crc_bytes : ℕ → List ℕ → ℕ
crc_bytes crc [] = crc
crc_bytes crc (b ∷ bs) = crc_bytes (crc_byte crc b) bs

-- `sonar_crc32(p, n)`
unfoldable pub crc32 : List ℕ → ℕ → ℕ
unfolding crc_byte crc_bytes
crc32 p n = not32 (crc_bytes u32_max (take n p))

pub crc32-lt : (p : List ℕ) (n : ℕ) → crc32 p n < 4294967296
unfolding crc32
crc32-lt p n = omega arith

-- Only the first `n` bytes count.
pub crc32-take : (p q : List ℕ) (n : ℕ) → take n p ≡ take n q → crc32 p n ≡ crc32 q n
unfolding crc32
crc32-take p q n h = rw h

-- Feeding bytes in pieces gives what feeding them at once gives.
pub crc_bytes-append :
    (crc : ℕ) (xs ys : List ℕ) → crc_bytes crc (xs ++ ys) ≡ crc_bytes (crc_bytes crc xs) ys
unfolding crc_bytes
crc_bytes-append crc [] ys = refl
crc_bytes-append crc (x ∷ xs) ys = crc_bytes-append (crc_byte crc x) xs ys

-- The check value of CRC-32: the CRC of the text "123456789".
check_value :
    crc32 (0x31 ∷ 0x32 ∷ 0x33 ∷ 0x34 ∷ 0x35 ∷ 0x36 ∷ 0x37 ∷ 0x38 ∷ 0x39 ∷ []) 9 ≡ 0xcbf43926
unfolding crc32
check_value = refl
