-- ===== src/TxMemory/Tests.antt =====
-- Gains of a short memory.
use air_born_sonar.Common.{◌≡◌, refl, true, [], ◌∷◌, arith}
use air_born_sonar.TxMemory.{TxMemory, doubled, set_gain}
use air_born_sonar.TxMemory.Gain.{AreUploaded, set_gain_full}

-- The samples 100, -100 and 32767.
abbrev memory : TxMemory
memory = record { initialized = true; words = doubled 100 ∷ doubled 65436 ∷ doubled 32767 ∷ [] }

memory-AreUploaded : AreUploaded memory.words
memory-AreUploaded = ((omega arith, refl), ((omega arith, refl), ((omega arith, refl), tt)))

accepted : (set_gain true 2 7 memory).1 ≡ true
unfolding set_gain
accepted = refl

set_gain_full_example : (set_gain true 2 100 (set_gain true 2 7 memory).0).0 ≡ memory
set_gain_full_example = set_gain_full true 2 7 memory memory-AreUploaded accepted
