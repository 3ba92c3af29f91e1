-- ===== src/ConsoleBuffer/Tests.antt =====
-- A line read from the console ring.
use air_born_sonar.Common.{
  ℕ, ◌+◌, ◌≤◌, ◌<◌, ◌≡◌, ◌⊎◌, refl, List, [], ◌∷◌, arith, drop, length, take,
}
use air_born_sonar.ConsoleBuffer.{buffer_bytes, zeroed, put_byte, copy_out, read}
use air_born_sonar.ConsoleBuffer.History.{put_all, read-put_all}

abbrev line : List ℕ
line = 97 ∷ 98 ∷ 10 ∷ 99 ∷ []

rest_of_line :
    read (put_all line zeroed) 1 100 10 ≡ record { out = 98 ∷ 10 ∷ []; cursor = 3; lost = 0 }
unfolding read put_byte copy_out
rest_of_line = refl

read-put_all_example :
    let b = put_all line zeroed in
    let r = read b 1 100 10 in
    (4 ≤ 1 + buffer_bytes)
      × (r.out ≡ take (length r.out) (drop 1 line))
      × (r.cursor ≡ 1 + length r.out)
      × (length r.out ≤ 10)
      × ((length r.out ≡ 0) ⊎ (r.cursor ≤ 100))
      × (r.lost ≡ 0)
      × ((1 < b.complete) → (1 < 100) → (0 < 10) → 0 < length r.out)
    ⊎ (r.out ≡ []) × (0 < r.lost) × (r.cursor ≡ 1 + r.lost) × (r.cursor + buffer_bytes ≡ 4)
read-put_all_example = read-put_all line 1 100 10 (omega arith)
