-- ===== src/Scan360/Tests.antt =====
-- Runs of the scan.
use air_born_sonar.Common.{◌≡◌, refl, pos, negsuc, true, arith}
use air_born_sonar.Scan360.{
  Scan, revolution_steps, zeroed, configure, begin, next_delta, mark_move_started, complete,
}
use air_born_sonar.Scan360.Moves.{IsConfigured, walk, advance, along, revolution}

first_third : next_delta (configure zeroed (pos 3)).0 ≡ pos 29333
unfolding configure next_delta
first_third = refl

first_back : next_delta (configure zeroed (negsuc 2)).0 ≡ negsuc 29332
unfolding configure next_delta
first_back = refl

second_back : next_delta (mark_move_started (configure zeroed (negsuc 2)).0) ≡ negsuc 29333
unfolding configure next_delta mark_move_started
second_back = refl

abbrev three_back : Scan
three_back = record { positions = 3; moves_started = 1; direction = negsuc 0 }

three_back-IsConfigured : IsConfigured three_back
three_back-IsConfigured = ground arith

revolution_example :
    (walk 3 (begin three_back) ≡ along (negsuc 0) revolution_steps)
    × (complete (advance 3 (begin three_back)) ≡ true)
revolution_example = revolution three_back three_back-IsConfigured
