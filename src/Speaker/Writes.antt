-- ===== src/Speaker/Writes.antt =====
-- The register writes of firmware/src/sonar_codec_service.c.
use air_born_sonar.Common.{ℕ, ◌+◌, ◌*◌, ◌/◌, ◌%◌, ◌≤◌, ◌<◌, ◌≡◌, ◌⊎◌, [], ◌∷◌, none, some, arith}
use air_born_sonar.Speaker.{encode}

-- A register and its value are read back from the two bytes on the bus, as the codec reads them: seven
-- bits of register and nine of value. `encode` refuses exactly what does not fit.
pub encode_lem :
    (reg value : ℕ)
    → (reg ≤ 127)
        × (value ≤ 511)
        × (encode reg value ≡ some ((reg * 2 + value / 256) ∷ value % 256 ∷ []))
        × (reg * 2 + value / 256 < 256)
        × ((reg * 2 + value / 256) / 2 ≡ reg)
        × ((reg * 2 + value / 256) % 2 * 256 + value % 256 ≡ value)
      ⊎ ((127 < reg) ⊎ (511 < value)) × (encode reg value ≡ none)
unfolding encode
encode_lem reg value = ground arith
