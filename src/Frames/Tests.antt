-- ===== src/Frames/Tests.antt =====
-- Runs of the frame pool and of the header.
use air_born_sonar.Common.{
  ℕ, ◌≡◌, refl, ◌⊎◌, inl, true, false, none, some, List, [], ◌∷◌, arith, negsuc,
}
use air_born_sonar.Frames.{
  FrameMeta, zero_meta, filling, ready, sending, Frames, zero_slot, set_state, first_free, choose,
  acquire, frames_take, frame_header,
}
use air_born_sonar.Frames.Pool.{IsOldest, NoneEligible, frames_take_lem}
use air_born_sonar.Frames.Retention.{
  Op, acquire_op, publish_op, take_op, finish_op, discard_op, run, IsHeld, run-IsHeld,
}
use air_born_sonar.Frames.Header.{HasFields, frame_header-HasFields}

abbrev frame : ℕ → FrameMeta
frame n = record zero_meta { sequence = n }

abbrev pool : Frames
pool =
    record { state = ready; frame = frame 9 }
    ∷ record { state = ready; frame = frame 4 }
    ∷ record { state = filling; frame = zero_meta }
    ∷ zero_slot
    ∷ []

takes_oldest : (frames_take pool 9).1 ≡ some 1
unfolding frames_take choose
takes_oldest = refl

acquires_free : (acquire pool).1 ≡ some 3
unfolding acquire first_free
acquires_free = refl

frames_take_lem_example :
    (frames_take pool 9 ≡ (pool, none)) × NoneEligible pool 9
    ⊎ ((i : ℕ) × (frames_take pool 9 ≡ (set_state pool i sending, some i)) × IsOldest pool 9 i)
frames_take_lem_example = frames_take_lem pool 9

abbrev ops : List Op
ops =
    discard_op 2
    ∷ acquire_op
    ∷ take_op 9
    ∷ finish_op 1 false
    ∷ take_op 9
    ∷ finish_op 0 true
    ∷ publish_op 2 (frame 11)
    ∷ []

held : IsHeld pool 1 (frame 4)
held = record { inside = omega arith; held = inl refl; same = refl }

run-IsHeld_example : IsHeld (run pool ops) 1 (frame 4)
run-IsHeld_example =
    run-IsHeld ops pool 1 (frame 4) (refl, (tt, (tt, (tt, (tt, (tt, (tt, tt)))))))
      (tt, (tt, (tt, (tt, (tt, ((λ e. absurd (omega arith)), (tt, tt))))))) held

abbrev moved : FrameMeta
moved = record (frame 9) {
  steps = negsuc 2;
  position = negsuc 88000;
  trigger_us = 5000000000;
  test_id = 1 ∷ 2 ∷ 3 ∷ 4 ∷ [];
}

frame_header-HasFields_example : HasFields moved 153644 77 (frame_header moved 153644 77)
frame_header-HasFields_example = frame_header-HasFields moved 153644 77 (omega arith)
