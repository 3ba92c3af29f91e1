-- ===== src/Coordinator/Round.antt =====
-- One round of the loop of `experiment_task` in firmware/src/sonar_experiment_coordinator.c.
-- The digits of a number are read by firmware/src/sonar_integer_parser.c, whose result is an input
-- here; the messages are left out.
use air_born_sonar.Common.{
  ℕ, ◌+◌, Bool, true, false, not, ◌&&◌, ◌||◌, Option, none, some, List, [], ◌∷◌, if◌then◌else◌, leb,
  sub32, u32, ℤ, pos, is_zero_ℤ, eq_ℤ,
}
use air_born_sonar.ExperimentConfig.{tx_start_margin_us}
use air_born_sonar.Identity.{test_ready, consume_test}
use air_born_sonar.WavParser.{TxBram}
use air_born_sonar.ControlService.{Chirp, can_start, set_running}
use air_born_sonar.ControlServer.{Queues, control_poll}
use air_born_sonar.Scan360.{configure, complete}
use air_born_sonar.Scan360
use air_born_sonar.Frames.{publish, discard}
use air_born_sonar.Mic.{Mic, MicEvent, is_capturing, is_ready, is_fault}
use air_born_sonar.Mic
use air_born_sonar.Stepper.{is_done}
use air_born_sonar.Stepper
use air_born_sonar.MeasurementCycle.{
  Cycle, CycleState, idle, wait_buffer, acquire, settling, stopped, fault, is_state, start, halt,
  poll,
}
use air_born_sonar.Coordinator.{Board, Lab, callbacks}

-- `SONAR_TX_TIMEOUT_MARGIN_US`
abbrev pub tx_timeout_margin_us : ℕ
tx_timeout_margin_us = 10000

-- What the loop uses beside the callbacks: the transmitter, the clock, the flags and the events of the
-- other tasks.
pub record Panel (H : Type 0) : Type 0 where
  pub board : Board H
  pub queues : Queues H
  pub bram : TxBram H
  pub chirp : Chirp H
  pub heartbeat : H → H
  pub take_flags : H → (Bool × Bool) × H  -- `stop_requested`, taken, and `inhibited`
  pub inhibit : H → H
  pub reset_keys : H → H
  pub clock_us : H → ℕ × H
  pub take_event : H → Option MicEvent × H
  pub chirp_error : H → Bool × H
  pub chirp_done : H → Bool × H
  pub motor_ticks : ℕ  -- `pdMS_TO_TICKS(20)`

-- The variable `prompt`: 0, 'n' or 'v'.
pub data Prompt : Type 0 where
  no_prompt positions_prompt divisor_prompt : Prompt

-- The variables of the task.
pub record Task : Type 0 where
  pub cycle : Cycle
  pub lab : Lab
  pub positions : ℤ  -- `requested_positions`
  pub prompt : Prompt
  pub ok : Bool
  pub last_motor : ℕ
  pub fault_reported : Bool

-- A key, or the end of a number: `none` for NUMBER_INVALID. While a prompt is open the other keys are
-- parts of the number.
pub data Key : Type 0 where
  positions_key divisor_key run_key other_key : Key
  number_key : Option ℤ → Key

abbrev pub is_idle : Cycle → Bool
is_idle c = is_state c.state idle || is_state c.state stopped

abbrev pub is_none : Option ℕ → Bool
is_none none = true
is_none (some i) = false

-- A number at the prompt `n`.
unfoldable pub set_positions : Option ℤ → Task → Task
set_positions none t = t
set_positions (some n) t =
    let (scan', accepted) = configure t.lab.scan n in
    if accepted then record t { lab = record t.lab { scan = scan' }; positions = n } else t

abbrev pub open_prompt : Prompt → Task → Task
open_prompt p t = if is_idle t.cycle then record t { prompt = p } else t

-- A finished recording, in slot `i`: the state, and whether the pool refused it.
unfoldable pub keep_recording : ℕ → Task → Task × Bool
keep_recording i t =
    let (frames', published) = publish t.lab.frames i t.lab.metadata in
    let lab = record t.lab { mic = (Mic.release t.lab.mic).0; filling = none } in
    if t.cycle.stopping
    then (record t { lab = record lab { frames = discard t.lab.frames i } }, false)
    else (record t { lab = record lab { frames = frames' } }, not published)

-- The state, whether a recording was captured, and whether the pool refused it.
unfoldable pub finish_recording : Option ℕ → Bool → Bool → Task → Task × Bool × Bool
finish_recording none tx_done tx_fault t = (t, false, false)
finish_recording (some i) tx_done tx_fault t =
    let (t', refused) = keep_recording i t in
    if is_ready t.lab.mic.state && tx_done && not tx_fault
    then (t', true, refused)
    else (t, false, false)

module _ {H : Type 0} (panel : Panel H) where
  unfoldable pub stop_cycle : Task × H → Task × H
  stop_cycle (t, h) =
      let (now, h₁) = panel.clock_us h in
      let (cycle', fine, (lab', h₂)) = halt (callbacks panel.board) t.cycle now (t.lab, h₁) in
      (record t { cycle = cycle'; lab = lab' }, h₂)

  unfoldable pub take_stop : Bool → Task × H → Task × H
  take_stop stop (t, h) =
      let (t', h') = stop_cycle (t, h) in
      if stop then (record t' { prompt = no_prompt }, panel.reset_keys h') else (t, h)

  -- Up to the control connection.
  unfoldable pub serve_control : Bool → Bool → Task × H → Task × H
  serve_control stop fatal (t, h) =
      let still = is_idle t.cycle && is_none t.lab.filling in
      let service = if still then set_running t.lab.service false else t.lab.service in
      let (service', h') =
        control_poll panel.queues panel.bram panel.chirp (t.ok && not fatal && not stop && still)
          service h in
      (record t { lab = record t.lab { service = service' } }, h')

  -- The key `r`.
  unfoldable pub start_run : Bool → Task × H → Task × H
  start_run fatal (t, h) =
      let lab = t.lab in
      let timed = record t.cycle {
        config = record t.cycle.config {
          tx_timeout_us =
              u32 (lab.service.values.duration_us + tx_start_margin_us + tx_timeout_margin_us);
        };
      } in
      let lab₁ = record lab { scan = Scan360.begin lab.scan } in
      let (now, h') = panel.clock_us h in
      let (cycle', started) = start timed t.positions now in
      let service₁ = record lab.service { identity = consume_test lab.service.identity } in
      let lab₂ = record lab₁ { service = set_running service₁ true } in
      if fatal
        || is_zero_ℤ t.positions
        || not (is_idle t.cycle)
        || not (can_start lab.service)
        || not (test_ready lab.service.identity)
      then (t, h)
      else (record t { cycle = cycle'; lab = if started then lab₂ else lab₁ }, h')

  -- A number at the prompt `v`.
  unfoldable pub set_divisor : Option ℤ → Task × H → Task × H
  set_divisor none (t, h) = (t, h)
  set_divisor (some n) (t, h) =
      let (motor', set, h') = Stepper.mode panel.board.tic t.lab.motor 8 h in
      if eq_ℤ n (pos 8) then (record t { lab = record t.lab { motor = motor' } }, h') else (t, h)

  -- One key, at a prompt.
  unfoldable pub obey : Bool → Prompt → Key → Task × H → Task × H
  obey fatal no_prompt positions_key (t, h) = (open_prompt positions_prompt t, h)
  obey fatal no_prompt divisor_key (t, h) = (open_prompt divisor_prompt t, h)
  obey fatal no_prompt run_key (t, h) = start_run fatal (t, h)
  obey fatal positions_prompt (number_key n) (t, h) =
      (record (set_positions n t) { prompt = no_prompt }, h)
  obey fatal divisor_prompt (number_key n) (t, h) =
      let (t', h') = set_divisor n (t, h) in (record t' { prompt = no_prompt }, h')
  obey fatal p k s = s

  unfoldable pub obey_all : Bool → List Key → Task × H → Task × H
  obey_all fatal [] s = s
  obey_all fatal (k ∷ ks) s = obey_all fatal ks (obey fatal s.0.prompt k s)

  -- `sonar_stepper_poll` at most every 20 ms.
  unfoldable pub poll_motor : Task × H → Task × H
  poll_motor (t, h) =
      let (tick, h₁) = panel.board.ticks h in
      let (motor', h₂) = Stepper.poll panel.board.tic t.lab.motor h₁ in
      if t.lab.motor_ready && leb panel.motor_ticks (sub32 tick t.last_motor)
      then (record t { lab = record t.lab { motor = motor' }; last_motor = tick }, h₂)
      else (t, h₁)

  abbrev pub hear : Option MicEvent → Mic → ℕ → H → Mic × H
  hear none m tick h = (m, h)
  hear (some e) m tick h = Mic.handle panel.board.mic_io m e tick h

  -- The event of the recording and its deadline.
  unfoldable pub poll_mic : Task × H → Task × H
  poll_mic (t, h) =
      let (tick, h₁) = panel.board.ticks h in
      let (e, h₂) = panel.take_event h₁ in
      let (m₁, h₃) = hear e t.lab.mic tick h₂ in
      let (m₂, h₄) = Mic.poll panel.board.mic_io m₁ tick h₃ in
      let (now, h₅) = panel.clock_us h₄ in
      if is_none t.lab.filling || not (is_capturing t.lab.mic.state)
      then (t, h₁)
      else if is_ready m₂.state
      then (
        record t {
          lab = record t.lab { mic = m₂; metadata = record t.lab.metadata { completion_us = now } };
        },
        h₅,
      )
      else (record t { lab = record t.lab { mic = m₂ } }, h₄)

  unfoldable pub poll_cycle : Bool → Bool → Bool → Bool → Task × H → Task × H
  poll_cycle captured tx_done tx_fault fatal (t, h) =
      let lab = t.lab in
      let (now, h₁) = panel.clock_us h in
      let faulty =
        fatal
        || tx_fault
        || not t.ok
        || Stepper.is_fault lab.motor.state
        || is_fault lab.mic.state in
      let (cycle', (lab', h₂)) =
        poll (callbacks panel.board) t.cycle now captured tx_done (is_done lab.motor.state) faulty
          (lab, h₁) in
      (record t { cycle = cycle'; lab = lab' }, h₂)

  -- What follows from the change of the cycle, which was in state `before`.
  unfoldable pub after_cycle : CycleState → Task × H → Task × H
  after_cycle before (t, h) =
      let (muted, h₁) = panel.board.speaker_enable false h in
      let h' =
        if is_state before acquire && not (is_state t.cycle.state acquire)
        then (if muted then h₁ else panel.inhibit h₁)
        else h in
      let stopped = stop_cycle (t, h') in
      if is_state before settling && is_state t.cycle.state wait_buffer && complete t.lab.scan
      then stopped
      else (t, h')

  unfoldable pub report_fault : Task × H → Task × H
  report_fault (t, h) =
      let (mic', h') = Mic.cancel panel.board.mic_io t.lab.mic h in
      if is_state t.cycle.state fault && not t.fault_reported
      then (if is_capturing t.lab.mic.state
          then (record t { lab = record t.lab { mic = mic' }; fault_reported = true }, h')
          else (record t { fault_reported = true }, h))
      else (t, h)

  -- From the state of the transmitter to the end of the round.
  unfoldable pub conclude : Bool → Task × H → Task × H
  conclude fatal (t, h) =
      let (tx_fault, h₁) = panel.chirp_error h in
      let (tx_done, h₂) = panel.chirp_done h₁ in
      let (t', captured, refused) = finish_recording t.lab.filling tx_done tx_fault t in
      report_fault (
        after_cycle t'.cycle.state
          (poll_cycle captured tx_done tx_fault (fatal || refused) (t', h₂)))

  -- One round of the loop, in which the keys `ks` are received.
  unfoldable pub round : List Key → Task × H → Task × H
  round ks (t, h) =
      let ((stop, fatal), h') = panel.take_flags (panel.heartbeat h) in
      conclude fatal (
        poll_mic
          (poll_motor (obey_all fatal ks (serve_control stop fatal (take_stop stop (t, h'))))))
