-- ===== src/Scan360.antt =====
-- firmware/src/sonar_scan360.c: the relative motor moves of one revolution of the sensor plate.
pub mod Moves
mod Tests
use air_born_sonar.Common.{
  ℕ, ◌+◌, ◌-◌, ◌*◌, ◌/◌, Bool, true, false, ◌||◌, ◌&&◌, not, ◌==◌, ltb, leb, if◌then◌else◌, u32,
  u64, sub32, ℤ, pos, negsuc, ltb_ℤ, neg_ℤ, pos_part, neg_part, signed32,
}

abbrev pub revolution_steps : ℕ
revolution_steps = 88000

abbrev pub max_positions : ℕ
max_positions = 1000

-- `sonar_scan360_t`
pub record Scan : Type 0 where
  pub positions : ℕ  -- uint32_t
  pub moves_started : ℕ  -- uint32_t
  pub direction : ℤ  -- int8_t

-- The state of the static object before any configuration.
abbrev pub zeroed : Scan
zeroed = record { positions = 0; moves_started = 0; direction = pos 0 }

-- The range -1000 .. 1000 rules out the overflow of `-signed_positions`.
unfoldable pub configure : Scan → ℤ → Scan × Bool
configure scan signed_positions =
    if (pos_part signed_positions == 0 && neg_part signed_positions == 0)
      || ltb_ℤ signed_positions (negsuc 999)
      || ltb_ℤ (pos max_positions) signed_positions
    then (scan, false)
    else (
      record {
        positions =
            if ltb_ℤ signed_positions (pos 0)
            then pos_part (neg_ℤ signed_positions)
            else pos_part signed_positions;
        moves_started = 0;
        direction = if ltb_ℤ signed_positions (pos 0) then negsuc 0 else pos 1;
      },
      true,
    )

unfoldable pub begin : Scan → Scan
begin scan = record scan { moves_started = 0 }

unfoldable pub capture_index : Scan → ℕ
capture_index scan =
    if scan.positions == 0 || leb scan.positions scan.moves_started
    then 0
    else u32 (scan.moves_started + 1)

-- A cumulative target, rounded to nearest: `(uint32_t)(((uint64_t)k * STEPS + n / 2U) / n)`.
pub target : ℕ → ℕ → ℕ
target n k = u32 (u64 (k * revolution_steps + n / 2) / n)

unfoldable pub next_delta : Scan → ℤ
unfolding target
next_delta scan =
    if scan.positions == 0 || leb scan.positions scan.moves_started
    then pos 0
    else let n = scan.positions in
      let k = u32 (scan.moves_started + 1) in
      let previous = target n (sub32 k 1) in
      let next = target n k in
      let delta = signed32 (sub32 next previous) in
      if ltb_ℤ scan.direction (pos 0) then neg_ℤ delta else delta

unfoldable pub mark_move_started : Scan → Scan
mark_move_started scan =
    if ltb scan.moves_started scan.positions
    then record scan { moves_started = u32 (scan.moves_started + 1) }
    else scan

unfoldable pub complete : Scan → Bool
complete scan = not (scan.positions == 0) && leb scan.positions scan.moves_started
