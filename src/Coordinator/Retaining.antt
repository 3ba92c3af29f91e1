-- ===== src/Coordinator/Retaining.antt =====
-- Rounds of the task of firmware/src/sonar_experiment_coordinator.c keep what was published.
use air_born_sonar.Common.{
  ℕ, ◌≡◌, ◌≢◌, refl, ◌||◌, Bool, true, false, List, [], ◌∷◌, ◌∙◌, ◌+◌, Option, none, some, arith,
  u32,
}
use air_born_sonar.Frames.{
  Frames, FrameMeta, Slot, slot_at, free, filling, ready, frames_take, finish, publish, discard,
}
use air_born_sonar.Frames as F
use air_born_sonar.Frames.Retention.{
  acquire-IsHeld, IsHeld, take_op, finish_op, set-IsHeld, step-IsHeld,
}
use air_born_sonar.MeasurementCycle.{Cycle, CycleState, halt, poll, fail}
use air_born_sonar.Coordinator.{
  Board, Lab, callbacks, move_motor, record_capture, capture_slot, capture_into, capture,
}
use air_born_sonar.Coordinator.Capturing.{
  IsFilled, slot_of, stop_outputs_lem, move_motor_lem, acquire-IsFilled,
}
use air_born_sonar.Coordinator.Round.{
  Panel, Task, Key, Prompt, stop_cycle, take_stop, serve_control, start_run, set_positions,
  set_divisor, obey, obey_all, poll_motor, poll_mic, keep_recording, finish_recording, poll_cycle,
  after_cycle, report_fault, conclude, round,
}
use air_born_sonar.Coordinator.Quiet.{
  IsOrdered, take_stop-Orders, serve_control-Orders, obey_all-Orders, poll_motor-Orders,
  poll_mic-Orders, Act, round_act, take_act, finish_act, act, acts, act-IsOrdered,
}

module _ {H : Type 0} (board : Board H) (j : ℕ) (m : FrameMeta) where
  capture_into-IsHeld :
      (slot : Option ℕ) (sequence trigger : ℕ) (l : Lab) (h : H)
      → (slot ≢ none → IsFilled l.frames (slot_of slot))
      → IsHeld l.frames j m
      → IsHeld (capture_into board slot sequence trigger l h).2.0.frames j m
  unfolding capture_into capture_slot record_capture discard
  capture_into-IsHeld none sequence trigger l h f k = k
  capture_into-IsHeld (some i) sequence trigger l h f k =
      ground (arith, f, set-IsHeld l.frames i j m (record (slot_at l.frames i) { state = free }) k)

  capture-IsHeld :
      (sequence trigger : ℕ) (l : Lab) (h : H)
      → IsHeld l.frames j m
      → IsHeld (capture board sequence trigger (l, h)).2.0.frames j m
  unfolding capture
  capture-IsHeld sequence trigger l h k =
      capture_into-IsHeld (F.acquire l.frames).1 sequence trigger
        (record l { frames = (F.acquire l.frames).0 }) h (acquire-IsFilled board l.frames)
        (acquire-IsHeld l.frames j m k)

  poll-IsHeld :
      (c : Cycle) (now : ℕ) (captured sent done faulty : Bool) (l : Lab) (h : H)
      → IsHeld l.frames j m
      → IsHeld (poll (callbacks board) c now captured sent done faulty (l, h)).1.0.frames j m
  unfolding poll fail
  poll-IsHeld c now captured sent done faulty l h k =
      let (result, trigger, (l₁, h₁)) = capture board (u32 (c.cycle + 1)) now (l, h) in
      let (moved, (l₂, h₂)) = move_motor board c.steps (l, h) in
      ground (
        arith,
        stop_outputs_lem board l h,
        stop_outputs_lem board l₁ h₁,
        stop_outputs_lem board l₂ h₂,
        move_motor_lem board c.steps l h,
        capture-IsHeld (u32 (c.cycle + 1)) now l h k,
      )

finish_recording-IsHeld :
    (slot : Option ℕ) (done failed : Bool) (t : Task) (j : ℕ) (m : FrameMeta)
    → t.lab.filling ≡ slot
    → IsOrdered t
    → IsHeld t.lab.frames j m
    → IsHeld (finish_recording slot done failed t).0.lab.frames j m
unfolding finish_recording keep_recording publish discard
finish_recording-IsHeld none done failed t j m e v k = k
finish_recording-IsHeld (some i) done failed t j m e v k = ground (
  arith,
  set-IsHeld t.lab.frames i j m (record (slot_at t.lab.frames i) { state = free }) k,
  set-IsHeld t.lab.frames i j m (record { state = ready; frame = t.lab.metadata }) k,
)

module _ {H : Type 0} (panel : Panel H) where
  abbrev Frames_of : Task × H → Frames
  Frames_of s = s.0.lab.frames

  stop_cycle_lem : (t : Task) (h : H) → (stop_cycle panel (t, h)).0.lab.frames ≡ t.lab.frames
  unfolding stop_cycle halt
  stop_cycle_lem t h = ground (arith, stop_outputs_lem panel.board t.lab (panel.clock_us h).1)

  take_stop_lem :
      (stop : Bool) (t : Task) (h : H) → (take_stop panel stop (t, h)).0.lab.frames ≡ t.lab.frames
  unfolding take_stop
  take_stop_lem stop t h = ground (arith, stop_cycle_lem t h)

  serve_control_lem :
      (stop fatal : Bool) (t : Task) (h : H)
      → (serve_control panel stop fatal (t, h)).0.lab.frames ≡ t.lab.frames
  unfolding serve_control
  serve_control_lem stop fatal t h = ground arith

  obey_lem :
      (fatal : Bool) (p : Prompt) (k : Key) (t : Task) (h : H)
      → (obey panel fatal p k (t, h)).0.lab.frames ≡ t.lab.frames
  unfolding obey set_positions set_divisor start_run
  obey_lem fatal p k t h = ground arith

  obey_all_lem :
      (fatal : Bool) (ks : List Key) (t : Task) (h : H)
      → (obey_all panel fatal ks (t, h)).0.lab.frames ≡ t.lab.frames
  unfolding obey_all
  obey_all_lem fatal [] t h = refl
  obey_all_lem fatal (k ∷ ks) t h =
      obey_all_lem fatal ks (obey panel fatal t.prompt k (t, h)).0
        (obey panel fatal t.prompt k (t, h)).1
      ∙ obey_lem fatal t.prompt k t h

  poll_motor_lem : (t : Task) (h : H) → (poll_motor panel (t, h)).0.lab.frames ≡ t.lab.frames
  unfolding poll_motor
  poll_motor_lem t h = ground arith

  poll_mic_lem : (t : Task) (h : H) → (poll_mic panel (t, h)).0.lab.frames ≡ t.lab.frames
  unfolding poll_mic
  poll_mic_lem t h = ground arith

  after_cycle_lem :
      (before : CycleState) (t : Task) (h : H)
      → (after_cycle panel before (t, h)).0.lab.frames ≡ t.lab.frames
  unfolding after_cycle
  after_cycle_lem before t h = grind (arith, stop_cycle_lem)

  report_fault_lem : (t : Task) (h : H) → (report_fault panel (t, h)).0.lab.frames ≡ t.lab.frames
  unfolding report_fault
  report_fault_lem t h = ground arith

  conclude-IsHeld :
      (fatal : Bool) (t : Task) (h : H) (j : ℕ) (m : FrameMeta)
      → IsOrdered t
      → IsHeld t.lab.frames j m
      → IsHeld (conclude panel fatal (t, h)).0.lab.frames j m
  unfolding conclude poll_cycle
  conclude-IsHeld fatal t h j m v k =
      let (tx_fault, h₁) = panel.chirp_error h in
      let (tx_done, h₂) = panel.chirp_done h₁ in
      let (t₁, captured, refused) = finish_recording t.lab.filling tx_done tx_fault t in
      let k₁ = finish_recording-IsHeld t.lab.filling tx_done tx_fault t j m refl v k in
      let (t₂, h₃) = poll_cycle panel captured tx_done tx_fault (fatal || refused) (t₁, h₂) in
      let k₂ = poll-IsHeld panel.board j m t₁.cycle _ captured tx_done _ _ t₁.lab _ k₁ in
      let (t₃, h₄) = after_cycle panel t₁.cycle.state (t₂, h₃) in
      rw (report_fault_lem t₃ h₄ ∙ after_cycle_lem t₁.cycle.state t₂ h₃) k₂

  round-IsHeld :
      (ks : List Key) (t : Task) (h : H) (j : ℕ) (m : FrameMeta)
      → IsOrdered t
      → IsHeld t.lab.frames j m
      → IsHeld (round panel ks (t, h)).0.lab.frames j m
  unfolding round
  round-IsHeld ks t h j m v k =
      let ((stop, fatal), h₁) = panel.take_flags (panel.heartbeat h) in
      let (t₂, h₂) = take_stop panel stop (t, h₁) in
      let v₂ = take_stop-Orders panel stop t h₁ v in
      let (t₃, h₃) = serve_control panel stop fatal (t₂, h₂) in
      let v₃ = serve_control-Orders panel stop fatal t₂ h₂ v₂ in
      let (t₄, h₄) = obey_all panel fatal ks (t₃, h₃) in
      let v₄ = obey_all-Orders panel fatal ks t₃ h₃ v₃ in
      let (t₅, h₅) = poll_motor panel (t₄, h₄) in
      let v₅ = poll_motor-Orders panel t₄ h₄ v₄ in
      let (t₆, h₆) = poll_mic panel (t₅, h₅) in
      let v₆ = poll_mic-Orders panel t₅ h₅ v₅ in
      let same : t₆.lab.frames ≡ t.lab.frames =
        poll_mic_lem t₅ h₅
        ∙ poll_motor_lem t₄ h₄
        ∙ obey_all_lem fatal ks t₃ h₃
        ∙ serve_control_lem stop fatal t₂ h₂
        ∙ take_stop_lem stop t h₁ in
      conclude-IsHeld fatal t₆ h₆ j m v₆ (rw same k)

-- The network task does not acknowledge slot `j`.
abbrev pub KeepsSlot : ℕ → Act → Type 0
KeepsSlot j (finish_act i true) = i ≢ j
KeepsSlot j _ = Unit

abbrev pub KeepsSlots : ℕ → List Act → Type 0
KeepsSlots j [] = Unit
KeepsSlots j (a ∷ as') = KeepsSlot j a × KeepsSlots j as'

module _ {H : Type 0} (panel : Panel H) where
  act-IsHeld :
      (a : Act) (t : Task) (h : H) (j : ℕ) (m : FrameMeta)
      → KeepsSlot j a
      → IsOrdered t
      → IsHeld t.lab.frames j m
      → IsHeld (act panel a (t, h)).0.lab.frames j m
  act-IsHeld (round_act ks) t h j m n v k = round-IsHeld panel ks t h j m v k
  act-IsHeld (take_act through) t h j m n v k =
      step-IsHeld t.lab.frames (take_op through) j m tt tt k
  act-IsHeld (finish_act i true) t h j m n v k =
      step-IsHeld t.lab.frames (finish_op i true) j m tt n k
  act-IsHeld (finish_act i false) t h j m n v k =
      step-IsHeld t.lab.frames (finish_op i false) j m tt tt k

  -- No recording is lost by the experiment, from a state where the cycle and its objects fit: a published
  -- frame stays in its slot, with its metadata,
  -- through any rounds of the task, with any keys, faults and stops, and any transfers, until the network
  -- task finishes that slot with an acknowledgement.
  pub acts-IsHeld :
      (as' : List Act) (t : Task) (h : H) (j : ℕ) (m : FrameMeta)
      → KeepsSlots j as'
      → IsOrdered t
      → IsHeld t.lab.frames j m
      → IsHeld (acts panel as' (t, h)).0.lab.frames j m
  acts-IsHeld [] t h j m n v k = k
  acts-IsHeld (a ∷ as') t h j m n v k =
      acts-IsHeld as' (act panel a (t, h)).0 (act panel a (t, h)).1 j m n.1
        (act-IsOrdered panel a t h v) (act-IsHeld a t h j m n.0 v k)
