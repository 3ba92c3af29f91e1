-- ===== src/Coordinator/Quiet.antt =====
-- Rounds of the task of firmware/src/sonar_experiment_coordinator.c keep recording and motion apart.
use air_born_sonar.Common.{
  ℕ, ◌+◌, ◌≡◌, refl, inl, inr, ◌||◌, Bool, true, false, List, [], ◌∷◌, Option, none, some, arith,
  length-set, u32, if◌then◌else◌,
}
use air_born_sonar.ExperimentConfig.{tx_start_margin_us}
use air_born_sonar.Frames.{
  Frames, slot_at, free, filling, ready, sending, frames_take, finish, publish,
}
use air_born_sonar.Frames.Pool.{frames_take_lem}
use air_born_sonar.Frames.Retention.{slot_at-set}
use air_born_sonar.Mic.{Mic, MicEvent}
use air_born_sonar.Mic
use air_born_sonar.MeasurementCycle.{CycleState}
use air_born_sonar.Coordinator.Round.{
  Panel, Task, Key, Prompt, tx_timeout_margin_us, stop_cycle, take_stop, serve_control, start_run,
  set_positions, set_divisor, obey, obey_all, poll_motor, poll_mic, keep_recording,
  finish_recording, poll_cycle, after_cycle, report_fault, conclude, round,
}
use air_born_sonar.Coordinator.Capturing.{Fits, IsFilled, slot_of, start-Fits, halt-Fits, poll-Fits}

abbrev pub IsOrdered : Task → Type 0
IsOrdered t = Fits t.cycle t.lab

pub finish_recording_lem :
    (slot : Option ℕ) (done failed : Bool) (t : Task)
    → t.lab.filling ≡ slot
    → IsOrdered t
    → let (t', captured, refused) = finish_recording slot done failed t in
      Fits t'.cycle t'.lab × (captured ≡ true → t'.lab.filling ≡ none) × (refused ≡ false)
unfolding finish_recording keep_recording publish Mic.release
finish_recording_lem none done failed t e v = ground arith
finish_recording_lem (some i) done failed t e v = ground arith

module _ {H : Type 0} (panel : Panel H) where
  abbrev pub Orders : Task × H → Type 0
  Orders s = IsOrdered s.0

  pub stop_cycle-Orders : (t : Task) (h : H) → IsOrdered t → Orders (stop_cycle panel (t, h))
  unfolding stop_cycle
  stop_cycle-Orders t h v =
      let (now, h₁) = panel.clock_us h in halt-Fits panel.board t.cycle now t.lab h₁ v

  pub take_stop-Orders :
      (stop : Bool) (t : Task) (h : H) → IsOrdered t → Orders (take_stop panel stop (t, h))
  unfolding take_stop
  take_stop-Orders stop t h v = ground (arith, stop_cycle-Orders t h v)

  pub serve_control-Orders :
      (stop fatal : Bool) (t : Task) (h : H)
      → IsOrdered t
      → Orders (serve_control panel stop fatal (t, h))
  unfolding serve_control
  serve_control-Orders stop fatal t h v = ground arith

  start_run-Orders :
      (fatal : Bool) (t : Task) (h : H) → IsOrdered t → Orders (start_run panel fatal (t, h))
  unfolding start_run
  start_run-Orders fatal t h v =
      let timed = record t.cycle {
        config = record t.cycle.config {
          tx_timeout_us =
              u32 (t.lab.service.values.duration_us + tx_start_margin_us + tx_timeout_margin_us);
        };
      } in
      ground (arith, start-Fits panel.board timed t.positions (panel.clock_us h).0 t.lab)

  obey-Orders :
      (fatal : Bool) (p : Prompt) (k : Key) (t : Task) (h : H)
      → IsOrdered t
      → Orders (obey panel fatal p k (t, h))
  unfolding obey set_positions set_divisor
  obey-Orders fatal p k t h v = ground (arith, start_run-Orders fatal t h v)

  pub obey_all-Orders :
      (fatal : Bool) (ks : List Key) (t : Task) (h : H)
      → IsOrdered t
      → Orders (obey_all panel fatal ks (t, h))
  unfolding obey_all
  obey_all-Orders fatal [] t h v = v
  obey_all-Orders fatal (k ∷ ks) t h v =
      obey_all-Orders fatal ks (obey panel fatal t.prompt k (t, h)).0
        (obey panel fatal t.prompt k (t, h)).1 (obey-Orders fatal t.prompt k t h v)

  pub poll_motor-Orders : (t : Task) (h : H) → IsOrdered t → Orders (poll_motor panel (t, h))
  unfolding poll_motor
  poll_motor-Orders t h v = ground arith

  pub poll_mic-Orders : (t : Task) (h : H) → IsOrdered t → Orders (poll_mic panel (t, h))
  unfolding poll_mic
  poll_mic-Orders t h v = ground arith

  pub poll_cycle-Orders :
      (captured sent failed fatal : Bool) (t : Task) (h : H)
      → IsOrdered t
      → (captured ≡ true → t.lab.filling ≡ none)
      → Orders (poll_cycle panel captured sent failed fatal (t, h))
  unfolding poll_cycle
  poll_cycle-Orders captured sent failed fatal t h v k =
      poll-Fits panel.board t.cycle _ captured sent _ _ t.lab _ v k

  after_cycle-Orders :
      (before : CycleState) (t : Task) (h : H)
      → IsOrdered t
      → Orders (after_cycle panel before (t, h))
  unfolding after_cycle
  after_cycle-Orders before t h v = grind (arith, stop_cycle-Orders)

  report_fault-Orders : (t : Task) (h : H) → IsOrdered t → Orders (report_fault panel (t, h))
  unfolding report_fault Mic.cancel
  report_fault-Orders t h v = ground arith

  conclude-Orders :
      (fatal : Bool) (t : Task) (h : H) → IsOrdered t → Orders (conclude panel fatal (t, h))
  unfolding conclude
  conclude-Orders fatal t h v =
      let (tx_fault, h₁) = panel.chirp_error h in
      let (tx_done, h₂) = panel.chirp_done h₁ in
      let (t₁, captured, refused) = finish_recording t.lab.filling tx_done tx_fault t in
      let (fits, none_left, taken) = finish_recording_lem t.lab.filling tx_done tx_fault t refl v in
      let (t₂, h₃) = poll_cycle panel captured tx_done tx_fault (fatal || refused) (t₁, h₂) in
      let polled =
        poll_cycle-Orders captured tx_done tx_fault (fatal || refused) t₁ h₂ fits none_left in
      let (t₃, h₄) = after_cycle panel t₁.cycle.state (t₂, h₃) in
      report_fault-Orders t₃ h₄ (after_cycle-Orders t₁.cycle.state t₂ h₃ polled)

  round-Orders : (ks : List Key) (t : Task) (h : H) → IsOrdered t → Orders (round panel ks (t, h))
  unfolding round
  round-Orders ks t h v =
      let ((stop, fatal), h₁) = panel.take_flags (panel.heartbeat h) in
      let (t₂, h₂) = take_stop panel stop (t, h₁) in
      let (t₃, h₃) = serve_control panel stop fatal (t₂, h₂) in
      let (t₄, h₄) = obey_all panel fatal ks (t₃, h₃) in
      let (t₅, h₅) = poll_motor panel (t₄, h₄) in
      let (t₆, h₆) = poll_mic panel (t₅, h₅) in
      conclude-Orders fatal t₆ h₆ (
        poll_mic-Orders t₅ h₅ (
          poll_motor-Orders t₄ h₄ (
            obey_all-Orders fatal ks t₃ h₃
              (serve_control-Orders stop fatal t₂ h₂ (take_stop-Orders stop t h₁ v)))))

-- What may happen to the objects of the task: a round of the task, or a call of the network task, which
-- takes a frame to send it and finishes it.
pub data Act : Type 0 where
  round_act : List Key → Act
  take_act : ℕ → Act
  finish_act : ℕ → Bool → Act

abbrev pub with_frames : Task → Frames → Task
with_frames t p = record t { lab = record t.lab { frames = p } }

abbrev IsKept : Frames → Frames → ℕ → Type 0
IsKept p p' i = IsFilled p i → IsFilled p' i

take-IsKept : (p : Frames) (through i : ℕ) → IsKept p (frames_take p through).0 i
take-IsKept p through i f = elim (frames_take_lem p through) [
  | inl (e, all) ↦ ground arith
  | inr (k, e, oldest) ↦
      let v = record (slot_at p k) { state = sending } in
      ground (arith, oldest.eligible, length-set p k v, slot_at-set p k i v f.0)
]

finish-IsKept : (p : Frames) (k : ℕ) (ack : Bool) (i : ℕ) → IsKept p (finish p k ack).0 i
unfolding finish
finish-IsKept p k ack i f =
    let v = record (slot_at p k) { state = if ack then free else ready } in
    ground (arith, length-set p k v, slot_at-set p k i v f.0)

module _ {H : Type 0} (panel : Panel H) where
  abbrev pub act : Act → Task × H → Task × H
  act (round_act ks) (t, h) = round panel ks (t, h)
  act (take_act through) (t, h) = (with_frames t (frames_take t.lab.frames through).0, h)
  act (finish_act i ack) (t, h) = (with_frames t (finish t.lab.frames i ack).0, h)

  abbrev pub acts : List Act → Task × H → Task × H
  acts [] s = s
  acts (a ∷ as') s = acts as' (act a s)

  pub act-IsOrdered : (a : Act) (t : Task) (h : H) → IsOrdered t → IsOrdered (act a (t, h)).0
  act-IsOrdered (round_act ks) t h v = round-Orders panel ks t h v
  act-IsOrdered (take_act through) t h v =
      ground (arith, take-IsKept t.lab.frames through (slot_of t.lab.filling))
  act-IsOrdered (finish_act i ack) t h v =
      ground (arith, finish-IsKept t.lab.frames i ack (slot_of t.lab.filling))
