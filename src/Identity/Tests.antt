-- ===== src/Identity/Tests.antt =====
-- Runs of the identity store.
use air_born_sonar.Common.{ℕ, ◌≡◌, refl, true, false, List, [], ◌∷◌}
use air_born_sonar.Identity.{Identity, zeroed, nonzero, set_boot, prepare_test}

abbrev boot : List ℕ
boot = 1 ∷ 2 ∷ 3 ∷ 4 ∷ []

abbrev test : List ℕ
test = 0 ∷ 0 ∷ 0 ∷ 7 ∷ []

abbrev booted : Identity
booted = record { boot_id = boot; test_id = 0 ∷ 0 ∷ 0 ∷ 0 ∷ []; prepared = false }

boot_set : set_boot zeroed boot ≡ (booted, true)
unfolding set_boot nonzero
boot_set = refl

test_not_repeated : (prepare_test (prepare_test booted boot test).0 boot test).1 ≡ false
unfolding prepare_test nonzero
test_not_repeated = refl
