-- ===== src/IntegerParser/Tests.antt =====
-- The number -42, typed with a mistake that is erased.
use air_born_sonar.Common.{ℕ, ◌≡◌, refl, negsuc, true, List, [], ◌∷◌}
use air_born_sonar.IntegerParser.{Strtol, zeroed, number_feed}
use air_born_sonar.IntegerParser.Lines.{typed}

-- A `strtol` that reads this text only.
abbrev strtol : Strtol
strtol text = (negsuc 41, true, true)

abbrev keys : List ℕ
keys = 45 ∷ 52 ∷ 51 ∷ 8 ∷ 50 ∷ []

erases : (typed strtol zeroed keys).text ≡ 45 ∷ 52 ∷ 50 ∷ []
unfolding typed number_feed
erases = refl
