-- ===== src/Scan360/Moves.antt =====
-- The moves of firmware/src/sonar_scan360.c add up to one revolution.
use native.Mathlib.Nat.{
  div-eq_of_lt, mul-add-div, le-div_iff_mul-le, div-lt_iff_lt-mul, div-mul-le_self, div-le_self,
  lt-div-mul-add,
}
use air_born_sonar.Common.{
  ℕ, zero, suc, ◌+◌, ◌-◌, ◌*◌, ◌/◌, ◌≤◌, ◌<◌, ◌≡◌, ◌∙◌, ap, ◌⊎◌, arith, ℤ, pos, negsuc, neg_ℤ, ◌+ℤ◌,
  ◌≤ℤ◌, u32, u64, if◌then◌else◌, ltb_ℤ, true, false, ◌≢◌,
}
use air_born_sonar.Scan360.{
  Scan, revolution_steps, max_positions, configure, begin, target, next_delta, mark_move_started,
  complete,
}

-- What `configure` establishes, and the other operations keep.
pub record IsConfigured (s : Scan) : Type 0 where
  pub some_position : 0 < s.positions
  pub few : s.positions ≤ max_positions
  pub signed : (s.direction ≡ pos 1) ⊎ (s.direction ≡ negsuc 0)

pub exact_target : ℕ → ℕ → ℕ
exact_target n k = (k * revolution_steps + n / 2) / n

exact_target_zero : (n : ℕ) → 0 < n → exact_target n 0 ≡ 0
unfolding exact_target
exact_target_zero n h = div-eq_of_lt (omega arith)

exact_target_last : (n : ℕ) → 0 < n → exact_target n n ≡ revolution_steps
unfolding exact_target
exact_target_last n h =
    mul-add-div h revolution_steps (n / 2)
    ∙ omega (arith, div-eq_of_lt {n = n / 2} {m = n} (omega arith))

exact_target-step_ge :
    (n k : ℕ) → 0 < n → exact_target n k + revolution_steps / n ≤ exact_target n (suc k)
unfolding exact_target
exact_target-step_ge n k h = (le-div_iff_mul-le h).1 (
    grind
      (arith, div-mul-le_self (k * revolution_steps + n / 2) n, div-mul-le_self revolution_steps n))

exact_target-step_le :
    (n k : ℕ) → 0 < n → exact_target n (suc k) < exact_target n k + revolution_steps / n + 2
unfolding exact_target
exact_target-step_le n k h = (div-lt_iff_lt-mul {x = suc k * revolution_steps + n / 2} h).1 (
    grind (
      arith,
      lt-div-mul-add {a = k * revolution_steps + n / 2} h,
      lt-div-mul-add {a = revolution_steps} h,
    ))

exact_target-le : (n k : ℕ) → 0 < n → k ≤ n → exact_target n k ≤ revolution_steps
unfolding exact_target
exact_target-le n k h k_le = omega (
  arith,
  (div-lt_iff_lt-mul {x = k * revolution_steps + n / 2} {y = revolution_steps + 1} h).1
      (grind arith),
)

target-eq-exact : (n k : ℕ) → 0 < n → n ≤ max_positions → k ≤ n → target n k ≡ exact_target n k
unfolding target exact_target
target-eq-exact n k h few k_le =
    ap (λ (x : ℕ). u32 (x / n)) whole ∙ omega (arith, div-le_self (k * revolution_steps + n / 2) n)
  where
    whole : u64 (k * revolution_steps + n / 2) ≡ k * revolution_steps + n / 2
    whole = omega arith

-- The sign of the direction put on a number of steps.
abbrev pub along : ℤ → ℕ → ℤ
along d steps = if ltb_ℤ d (pos 0) then neg_ℤ (pos steps) else pos steps

-- One move, as the difference of two rounded targets.
next_delta-along :
    (s : Scan) (k : ℕ)
    → IsConfigured s
    → s.moves_started ≡ k
    → k < s.positions
    → next_delta s
      ≡ along s.direction (exact_target s.positions (suc k) - exact_target s.positions k)
unfolding next_delta
next_delta-along s k c e lt = ground (
  arith,
  target-eq-exact s.positions k,
  target-eq-exact s.positions (suc k),
  exact_target-step_ge s.positions k,
  exact_target-le s.positions (suc k),
)

-- The moves that `move_motor` asks for in `m` calls, added up, and the scan after them.
abbrev pub walk : ℕ → Scan → ℤ
walk zero s = pos 0
walk (suc m) s = next_delta s +ℤ walk m (mark_move_started s)

abbrev pub advance : ℕ → Scan → Scan
advance zero s = s
advance (suc m) s = advance m (mark_move_started s)

mark-eq :
    (s : Scan)
    → s.moves_started < s.positions
    → s.positions ≤ max_positions
    → mark_move_started s ≡ record s { moves_started = suc s.moves_started }
unfolding mark_move_started
mark-eq s lt few = ground arith

IsConfigured-moved :
    (s : Scan) (k : ℕ) → IsConfigured s → IsConfigured (record s { moves_started = k })
IsConfigured-moved s k c = ground arith

along-+ℤ : (d : ℤ) (a b : ℕ) → along d a +ℤ along d b ≡ along d (a + b)
unfolding ◌+ℤ◌
along-+ℤ d a b = ground arith

-- The moves still to come add up to the difference of the last target and the present one.
walk-along :
    (m : ℕ) (s : Scan)
    → IsConfigured s
    → s.moves_started + m ≡ s.positions
    → walk m s ≡ along s.direction (revolution_steps - exact_target s.positions s.moves_started)
walk-along zero s c e = ground (arith, exact_target_last s.positions)
walk-along (suc m) s c e =
    let s' = record s { moves_started = suc s.moves_started } in
    ground (
      arith,
      next_delta-along s s.moves_started c,
      mark-eq s,
      walk-along m s' (IsConfigured-moved s _ c) (omega arith),
      along-+ℤ s.direction
          (exact_target s.positions (suc s.moves_started)
            - exact_target s.positions s.moves_started)
          (revolution_steps - exact_target s.positions (suc s.moves_started)),
      exact_target-step_ge s.positions s.moves_started,
      exact_target-le s.positions (suc s.moves_started),
    )

complete_last : (s : Scan) → IsConfigured s → s.moves_started ≡ s.positions → complete s ≡ true
unfolding complete
complete_last s c e = ground arith

complete-advance :
    (m : ℕ) (s : Scan)
    → IsConfigured s
    → s.moves_started + m ≡ s.positions
    → complete (advance m s) ≡ true
complete-advance zero s c e = complete_last s c (omega arith)
complete-advance (suc m) s c e =
    let s' = record s { moves_started = suc s.moves_started } in
    rw (mark-eq s (omega arith) c.few, advance)
      (complete-advance m s' (IsConfigured-moved s _ c) (omega arith))

-- After `begin`, asking for `next_delta` and marking it started once per position gives moves whose
-- sum is exactly one revolution of 88000 steps in the direction of the scan, and the scan is then
-- complete.
pub revolution :
    (s : Scan)
    → IsConfigured s
    → (walk s.positions (begin s) ≡ along s.direction revolution_steps)
      × (complete (advance s.positions (begin s)) ≡ true)
unfolding begin
revolution s c =
    let s' = record s { moves_started = 0 } in
    (
      ground (
        arith,
        walk-along s.positions s' (IsConfigured-moved s 0 c),
        exact_target_zero s.positions,
      ),
      complete-advance s.positions s' (IsConfigured-moved s 0 c) (omega arith),
    )

-- Every single move of a scan that is not complete differs from 88000 / positions by less than one
-- step, and so is never zero, has the direction of the scan and fits an int32_t.
pub next_delta_even :
    (s : Scan)
    → IsConfigured s
    → s.moves_started < s.positions
    → (d : ℕ) × (next_delta s ≡ along s.direction d)
      × (revolution_steps / s.positions ≤ d)
      × (d ≤ revolution_steps / s.positions + 1)
      × (0 < d)
next_delta_even s c lt = (
  exact_target s.positions (suc s.moves_started) - exact_target s.positions s.moves_started,
  next_delta-along s s.moves_started c (omega arith) lt,
  omega (arith, exact_target-step_ge s.positions s.moves_started c.some_position),
  omega (arith, exact_target-step_le s.positions s.moves_started c.some_position),
  omega (
    arith,
    exact_target-step_ge s.positions s.moves_started c.some_position,
    (le-div_iff_mul-le {x = 1} {y = revolution_steps} c.some_position).1 (omega arith),
  ),
)

-- `configure` accepts exactly the counts -1000 .. -1 and 1 .. 1000: it then leaves a configured scan
-- with no move started, with the magnitude and the sign of the count. Any other count is refused
-- and the scan stays as it was.
pub configure-IsConfigured :
    (s : Scan) (n : ℤ)
    → ((configure s n).1 ≡ true)
        × IsConfigured (configure s n).0
        × ((configure s n).0.moves_started ≡ 0)
        × (along (configure s n).0.direction (configure s n).0.positions ≡ n)
        × (n ≢ pos 0)
        × (negsuc 999 ≤ℤ n)
        × (n ≤ℤ pos max_positions)
      ⊎ ((configure s n).1 ≡ false)
        × ((configure s n).0 ≡ s)
        × ((n ≡ pos 0) ⊎ ((n ≤ℤ negsuc 1000) ⊎ (pos 1001 ≤ℤ n)))
unfolding configure
configure-IsConfigured s (pos n) = ground arith
configure-IsConfigured s (negsuc n) = ground arith
