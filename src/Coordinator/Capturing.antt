-- ===== src/Coordinator/Capturing.antt =====
-- The slot that firmware/src/sonar_experiment_coordinator.c fills, and the state of its cycle.
use air_born_sonar.Common.{
  ℕ, ◌+◌, ◌<◌, ◌≡◌, ◌≢◌, ◌⊎◌, inl, inr, Bool, true, false, Option, none, some, arith, length,
  length-set, ℤ, pos, negsuc, u32,
}
use air_born_sonar.Frames.{Frames, FrameMeta, Slot, slot_at, free, filling, discard, set_state}
use air_born_sonar.Frames as F
use air_born_sonar.Frames.Pool.{acquire_lem}
use air_born_sonar.Frames.Retention.{slot_at-set}
use air_born_sonar.Mic.{Mic, capturing}
use air_born_sonar.Mic
use air_born_sonar.MeasurementCycle.{
  Cycle, wait_buffer, pre_move, moving, settling, fault, start, halt, poll, fail,
}
use air_born_sonar.MeasurementCycle as M
use air_born_sonar.Coordinator.{
  Board, Lab, mic_config, acq_span, stop_outputs, move_motor, record_capture, capture_slot,
  capture_into, capture, callbacks,
}

-- The slot `i` of the pool is there and FILLING.
abbrev pub IsFilled : Frames → ℕ → Type 0
IsFilled p i = (i < length p) × ((slot_at p i).state ≡ filling)

-- The number of a slot; -1 is not one.
abbrev pub slot_of : Option ℕ → ℕ
slot_of none = 0
slot_of (some i) = i

-- The cycle and what its callbacks share. A slot that is being filled is FILLING in the pool, and there
-- is one only in ACQUIRE, before the recording is received, or in FAULT. The microphones record only
-- into such a slot.
pub record Fits (c : Cycle) (l : Lab) : Type 0 where
  pub slot : l.filling ≢ none → IsFilled l.frames (slot_of l.filling)
  pub early : l.filling ≢ none → (c.state ≡ M.acquire) × (c.received ≡ false) ⊎ (c.state ≡ M.fault)
  pub listening : l.mic.state ≡ capturing → l.filling ≢ none

module _ {H : Type 0} (board : Board H) where
  -- What the callbacks leave of the recording.
  abbrev pub SameRecording : Lab → Lab → Type 0
  SameRecording l l' = (l'.frames ≡ l.frames) × (l'.filling ≡ l.filling) × (l'.mic ≡ l.mic)

  pub stop_outputs_lem : (l : Lab) (h : H) → SameRecording l (stop_outputs board (l, h)).1.0
  unfolding stop_outputs
  stop_outputs_lem l h = ground arith

  pub move_motor_lem : (n : ℤ) (l : Lab) (h : H) → SameRecording l (move_motor board n (l, h)).1.0
  unfolding move_motor
  move_motor_lem n l h = ground arith

  abbrev IsSilent : Mic → Type 0
  IsSilent m = m.state ≢ capturing

  -- What `capture` leaves, from a state where nothing is filled: the frames of the pool are as many, and
  -- a slot that it fills is FILLING. Without a recording nothing is filled.
  abbrev IsCaptured : Lab → ℤ × ℕ × (Lab × H) → Type 0
  IsCaptured l (result, trigger, (l', h')) =
      (l'.filling ≢ none → IsFilled l'.frames (slot_of l'.filling))
      × ((result ≡ pos 0) × (l'.filling ≡ none) ⊎ ((result ≡ pos 1) ⊎ (result ≡ negsuc 0)))
      × (l'.mic.state ≡ capturing → l'.filling ≢ none)

  record_capture_lem :
      (sequence trigger i : ℕ) (l : Lab) (h : H)
      → l.filling ≡ some i
      → IsFilled l.frames i
      → IsCaptured l (record_capture board sequence trigger l h)
  unfolding record_capture
  record_capture_lem sequence trigger i l h e f = ground arith

  capture_slot_lem :
      (sequence trigger i : ℕ) (l : Lab) (h : H)
      → l.filling ≡ some i
      → IsFilled l.frames i
      → IsCaptured l (capture_slot board i sequence trigger l h)
  unfolding capture_slot
  capture_slot_lem sequence trigger i l h e f =
      let l' = record l { mic = (Mic.init (mic_config board) (board.address i) acq_span).0 } in
      ground (arith, record_capture_lem sequence trigger i l' (board.speaker_enable true h).1 e f)

  capture_into_lem :
      (slot : Option ℕ) (sequence trigger : ℕ) (l : Lab) (h : H)
      → IsSilent l.mic
      → (slot ≢ none → IsFilled l.frames (slot_of slot))
      → IsCaptured l (capture_into board slot sequence trigger l h)
  unfolding capture_into
  capture_into_lem none sequence trigger l h m f = ground arith
  capture_into_lem (some i) sequence trigger l h m f =
      let l' = record l { filling = some i; waiting_for_buffer = false } in
      let h' = (board.chirp_prepare h).1 in
      ground (arith, capture_slot_lem sequence trigger i l' h')

  pub acquire-IsFilled :
      (p : Frames) → (F.acquire p).1 ≢ none → IsFilled (F.acquire p).0 (slot_of (F.acquire p).1)
  acquire-IsFilled p e = elim (acquire_lem p) [
    | inl (q, all) ↦ ground arith
    | inr (k, q, found) ↦
        let v = record (slot_at p k) { state = filling } in
        ground (arith, found.inside, length-set p k v, slot_at-set p k k v found.inside)
  ]

  capture_lem :
      (sequence trigger : ℕ) (l : Lab) (h : H)
      → IsSilent l.mic
      → IsCaptured l (capture board sequence trigger (l, h))
  unfolding capture
  capture_lem sequence trigger l h m =
      capture_into_lem (F.acquire l.frames).1 sequence trigger
        (record l { frames = (F.acquire l.frames).0 }) h m (acquire-IsFilled l.frames)

  pub start-Fits : (c : Cycle) (n : ℤ) (now : ℕ) (l : Lab) → Fits c l → Fits (start c n now).0 l
  unfolding start
  start-Fits c n now l v = ground arith

  pub halt-Fits :
      (c : Cycle) (now : ℕ) (l : Lab) (h : H)
      → Fits c l
      → let (c', fine, (l', h')) = halt (callbacks board) c now (l, h) in Fits c' l'
  unfolding halt
  halt-Fits c now l h v = ground (arith, stop_outputs_lem l h)

  pub poll-Fits :
      (c : Cycle) (now : ℕ) (captured sent done faulty : Bool) (l : Lab) (h : H)
      → Fits c l
      → (captured ≡ true → l.filling ≡ none)
      → let (c', (l', h')) = poll (callbacks board) c now captured sent done faulty (l, h) in
        Fits c' l'
  unfolding poll fail
  poll-Fits c now captured sent done faulty l h v k =
      let (result, trigger, (l₁, h₁)) = capture board (u32 (c.cycle + 1)) now (l, h) in
      ground (
        arith,
        stop_outputs_lem l h,
        stop_outputs_lem l₁ h₁,
        stop_outputs_lem (move_motor board c.steps (l, h)).1.0
            (move_motor board c.steps (l, h)).1.1,
        move_motor_lem c.steps l h,
        capture_lem (u32 (c.cycle + 1)) now l h,
      )
