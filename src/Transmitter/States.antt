-- ===== src/Transmitter/States.antt =====
-- The states of firmware/src/sonar_tx_control.c over a sequence of calls.
use air_born_sonar.Common.{
  ℕ, zero, suc, ◌≡◌, ◌≢◌, refl, ◌⊎◌, Bool, true, false, List, [], ◌∷◌, Option, none, some, arith,
}
use air_born_sonar.ExperimentConfig.{ExperimentConfig, ChirpValues}
use air_born_sonar.WaveformUpload.{Upload}
use air_born_sonar.PlGpio as Gpio
use air_born_sonar.Transmitter.{
  TxIo, pl_trigger, Transmitter, toggle, is_done, is_active, poll, init, init_outputs, capabilities,
  apply, apply_outputs, prepare, triggered, done, error, drain, finish_abort, abort,
}

-- What is prepared or running belongs to an initialized transmitter with settings, is not finished, and
-- is one of the two only.
pub record IsValid (s : Transmitter) : Type 0 where
  pub ready :
      (s.prepared ≡ true) ⊎ (s.running ≡ true)
      → (s.initialized ≡ true) × (s.applied ≡ true) × (s.completed ≡ false) × (s.aborted ≡ false)
  pub exclusive : s.prepared ≡ true → s.running ≡ false
  pub once : s.completed ≡ true → s.aborted ≡ false

pub data Call : Type 0 where
  init_call prepare_call poll_call : Call
  apply_call : Upload → ExperimentConfig → ChirpValues → Call
  trigger_call : ℕ → Call
  abort_call : ℕ → Call

-- A fault stays.
abbrev pub Latches : Transmitter → Transmitter → Type 0
Latches s s' = s.fault ≡ true → s'.fault ≡ true

module _ {W : Type 0} (io : TxIo W) where
  -- What every operation keeps.
  abbrev pub Keeps : Transmitter → Transmitter × W → Type 0
  Keeps s (s', w') = (IsValid s → IsValid s') × Latches s s'

  pub poll-Keeps : (s : Transmitter) (w : W) → Keeps s (poll io (s, w))
  unfolding poll
  poll-Keeps s w = ground arith

  init-Keeps : (s : Transmitter) (w : W) → Keeps s (init io (s, w)).1
  unfolding init init_outputs
  init-Keeps s w = ground arith

  apply_outputs-Keeps :
      (c : ExperimentConfig) (v : ChirpValues) (s : Transmitter) (w : W)
      → s.prepared ≡ false
      → s.running ≡ false
      → Keeps s (apply_outputs io c v s w).1
  unfolding apply_outputs
  apply_outputs-Keeps c v s w p r = ground arith

  apply-Keeps :
      (u : Upload) (c : ExperimentConfig) (v : ChirpValues) (s : Transmitter) (w : W)
      → Keeps s (apply io u c v (s, w)).1
  unfolding apply
  apply-Keeps u c v s w =
      let (s', w₁) = poll io (s, w) in
      let (status, w₂) = io.status w₁ in
      ground (arith, poll-Keeps s w, apply_outputs-Keeps c v s' w₂)

  prepare-Keeps : (s : Transmitter) (w : W) → Keeps s (prepare io (s, w)).1
  unfolding prepare
  prepare-Keeps s w = ground (arith, poll-Keeps s w)

  triggered-Keeps : (t : ℕ) (s : Transmitter) (w : W) → Keeps s (triggered t s, w)
  unfolding triggered
  triggered-Keeps t s w = ground arith

  poll_prepared : (s : Transmitter) (w : W) → (poll io (s, w)).0.prepared ≡ s.prepared
  unfolding poll
  poll_prepared s w = ground arith

  -- The loop of `abort` keeps the same, leaves nothing prepared, and ends early only without a run.
  abbrev Drains : Transmitter → Bool → Transmitter × W → Type 0
  Drains s stopped s' =
      Keeps s s'
      × (s.prepared ≡ false → s'.0.prepared ≡ false)
      × (stopped ≡ true → s'.0.running ≡ false)

  drain-Drains :
      (fuel begun : ℕ) (s : Transmitter) (w : W) (stopped : Bool) (s' : Transmitter × W)
      → drain io fuel begun (s, w) ≡ some (stopped, s')
      → Drains s stopped s'
  unfolding drain
  drain-Drains zero begun s w stopped s' e = cc
  drain-Drains (suc fuel) begun s w stopped s' e =
      let (now, w') = io.ticks w in
      let (s₁, w₁) = poll io (s, io.delay w') in
      ground (
        arith,
        poll_prepared s (io.delay w'),
        poll-Keeps s (io.delay w'),
        drain-Drains fuel begun s₁ w₁ stopped s',
      )

  finish_abort-Keeps :
      (drained : Option (Bool × (Transmitter × W))) (s : Transmitter) (ok : Bool)
      (s' : Transmitter × W)
      → s.prepared ≡ false
      → ((stopped : Bool) (r : Transmitter × W) → drained ≡ some (stopped, r) → Drains s stopped r)
      → finish_abort io drained ≡ some (ok, s')
      → Keeps s s'
  unfolding finish_abort
  finish_abort-Keeps none s ok s' p d e = cc
  finish_abort-Keeps (some (stopped, r)) s ok s' p d e = ground (arith, d stopped r refl)

  abort-Keeps :
      (fuel : ℕ) (s : Transmitter) (w : W) (ok : Bool) (s' : Transmitter × W)
      → abort io fuel (s, w) ≡ some (ok, s')
      → Keeps s s'
  unfolding abort
  abort-Keeps fuel s w ok s' e =
      let (muted, w₁) = io.speaker_enable false w in
      let (gpio', low, w₂) = Gpio.update io.player.write io.gpio_base pl_trigger 0 s.gpio w₁ in
      let s₁ = record s { gpio = gpio'; prepared = false } in
      let (begun, w₃) = io.ticks w₂ in
      let (s₂, w₄) = poll io (s₁, w₃) in
      ground (
        arith,
        poll-Keeps s₁ w₃,
        poll_prepared s₁ w₃,
        finish_abort-Keeps (drain io fuel begun (s₂, w₄)) s₂ ok s' (poll_prepared s₁ w₃)
            (drain-Drains fuel begun s₂ w₄),
      )

  abbrev pub result : Option (Bool × (Transmitter × W)) → Option (Transmitter × W)
  result none = none
  result (some (ok, s)) = some s

  -- A call; `none` is an abort that needs more rounds.
  abbrev pub step : Call → Transmitter × W → Option (Transmitter × W)
  step init_call s = some (init io s).1
  step prepare_call s = some (prepare io s).1
  step poll_call s = some (poll io s)
  step (apply_call u c v) s = some (apply io u c v s).1
  step (trigger_call t) (s, w) = some (triggered t s, w)
  step (abort_call fuel) s = result (abort io fuel s)

  abbrev pub and_then :
      (Transmitter × W → Option (Transmitter × W))
      → Option (Transmitter × W)
      → Option (Transmitter × W)
  and_then f none = none
  and_then f (some s) = f s

  abbrev pub run : List Call → Transmitter × W → Option (Transmitter × W)
  run [] s = some s
  run (c ∷ cs) s = and_then (λ s'. run cs s') (step c s)

  result-Keeps :
      (r : Option (Bool × (Transmitter × W))) (s : Transmitter) (s' : Transmitter × W)
      → ((ok : Bool) (x : Transmitter × W) → r ≡ some (ok, x) → Keeps s x)
      → result r ≡ some s'
      → Keeps s s'
  result-Keeps none s s' f e = cc
  result-Keeps (some (ok, x)) s s' f e = ground (arith, f ok x refl)

  step-Keeps :
      (c : Call) (s : Transmitter) (w : W) (s' : Transmitter × W)
      → step c (s, w) ≡ some s'
      → Keeps s s'
  step-Keeps init_call s w s' e = ground (arith, init-Keeps s w)
  step-Keeps prepare_call s w s' e = ground (arith, prepare-Keeps s w)
  step-Keeps poll_call s w s' e = ground (arith, poll-Keeps s w)
  step-Keeps (apply_call u c v) s w s' e = ground (arith, apply-Keeps u c v s w)
  step-Keeps (trigger_call t) s w s' e = ground (arith, triggered-Keeps t s w)
  step-Keeps (abort_call fuel) s w s' e =
      result-Keeps (abort io fuel (s, w)) s s' (abort-Keeps fuel s w) e

  rest-Keeps :
      (f : Transmitter × W → Option (Transmitter × W)) (r : Option (Transmitter × W))
      (s : Transmitter) (s' : Transmitter × W)
      → ((x : Transmitter × W) → r ≡ some x → Keeps s x)
      → ((x : Transmitter × W) → f x ≡ some s' → Keeps x.0 s')
      → and_then f r ≡ some s'
      → Keeps s s'
  rest-Keeps f none s s' k j e = cc
  rest-Keeps f (some x) s s' k j e = ground (arith, k x refl, j x e)

  run-Keeps :
      (cs : List Call) (s : Transmitter) (w : W) (s' : Transmitter × W)
      → run cs (s, w) ≡ some s'
      → Keeps s s'
  run-Keeps [] s w s' e = ground arith
  run-Keeps (c ∷ cs) s w s' e =
      rest-Keeps (λ x. run cs x) (step c (s, w)) s s' (step-Keeps c s w)
        (λ x. run-Keeps cs x.0 x.1 s') e

  -- Whatever is called, in whatever order, of a transmitter in a valid state leaves it in one: what is
  -- prepared or running has settings, is not both, and is neither completed nor aborted.
  pub tx_run-IsValid :
      (cs : List Call) (s : Transmitter) (w : W) (s' : Transmitter × W)
      → IsValid s
      → run cs (s, w) ≡ some s'
      → IsValid s'.0
  tx_run-IsValid cs s w s' v e = (run-Keeps cs s w s' e).0 v

  finish_abort_faulted :
      (drained : Option (Bool × (Transmitter × W))) (ok : Bool) (s' : Transmitter × W)
      → ((stopped : Bool) (r : Transmitter × W) → drained ≡ some (stopped, r) → r.0.fault ≡ true)
      → finish_abort io drained ≡ some (ok, s')
      → ok ≡ false
  unfolding finish_abort
  finish_abort_faulted none ok s' f e = cc
  finish_abort_faulted (some (stopped, r)) ok s' f e = ground (arith, f stopped r refl)

  -- An abort with a fault does not succeed.
  abort_faulted :
      (fuel : ℕ) (s : Transmitter) (w : W) (ok : Bool) (s' : Transmitter × W)
      → s.fault ≡ true
      → s.initialized ≡ true
      → abort io fuel (s, w) ≡ some (ok, s')
      → ok ≡ false
  unfolding abort
  abort_faulted fuel s w ok s' f i e =
      let (muted, w₁) = io.speaker_enable false w in
      let (gpio', low, w₂) = Gpio.update io.player.write io.gpio_base pl_trigger 0 s.gpio w₁ in
      let s₁ = record s { gpio = gpio'; prepared = false } in
      let (begun, w₃) = io.ticks w₂ in
      let (s₂, w₄) = poll io (s₁, w₃) in
      let kept = (poll-Keeps s₁ w₃).1 f in
      let faulted =
        finish_abort_faulted (drain io fuel begun (s₂, w₄)) ok s'
          (λ stopped r d. (drain-Drains fuel begun s₂ w₄ stopped r d).0.1 kept) in
      ground (arith, faulted)

  -- A fault of the transmitter is final and blocks every operation, whatever is called meanwhile: after it
  -- nothing can be initialized, applied or prepared, a trigger starts nothing, no transmission is reported
  -- as done, no capability is offered, an abort of an initialized transmitter does not succeed, and the
  -- error is reported.
  pub tx_run_faulted :
      (cs : List Call) (s : Transmitter) (w : W) (s' : Transmitter) (w' : W)
      → s.fault ≡ true
      → run cs (s, w) ≡ some (s', w')
      → (s'.fault ≡ true)
        × (capabilities s' ≡ 0)
        × ((init io (s', w')).0 ≡ false)
        × ((done io (s', w')).0 ≡ false)
        × ((error io (s', w')).0 ≡ true)
        × ((prepare io (s', w')).0 ≡ false)
        × ((u : Upload) (c : ExperimentConfig) (v : ChirpValues)
            → (apply io u c v (s', w')).0 ≡ false)
        × ((t : ℕ) → triggered t s' ≡ s')
        × ((fuel : ℕ) (ok : Bool) (x : Transmitter × W)
            → s'.initialized ≡ true
            → abort io fuel (s', w') ≡ some (ok, x)
            → ok ≡ false)
  unfolding capabilities init done error prepare apply triggered
  tx_run_faulted cs s w s' w' f e =
      let f' = (run-Keeps cs s w (s', w') e).1 f in
      let g = (poll-Keeps s' w').1 f' in
      (
        f',
        ground arith,
        ground arith,
        ground arith,
        ground arith,
        ground arith,
        λ u c v. ground arith,
        λ t. ground arith,
        λ fuel ok x i a. abort_faulted fuel s' w' ok x f' i a,
      )

  -- A transmission that runs, neither completed nor aborted, is reported as done only when the hardware
  -- says so: its completion bit has flipped since the preparation, its sticky bit is set and it is not
  -- active. Time never completes it.
  done_lem :
      (s : Transmitter) (w : W)
      → s.running ≡ true
      → (s.completed ≡ false) × (s.aborted ≡ false)
      → let status = (io.status w).0 in
        ((done io (s, w)).0 ≡ true
          → (toggle status ≢ s.completion_baseline)
            × (is_done status ≡ true)
            × (is_active status ≡ false)
            × (s.fault ≡ false))
        × ((s.initialized ≡ true)
              × (s.fault ≡ false)
              × (toggle status ≢ s.completion_baseline)
              × (is_done status ≡ true)
              × (is_active status ≡ false)
            → ((done io (s, w)).0 ≡ true) × ((done io (s, w)).1.0.running ≡ false))
  unfolding done poll
  done_lem s w r n = ground arith
