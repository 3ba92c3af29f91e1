-- ===== src/ControlServer.antt =====
-- firmware/src/sonar_control_server.c: requests that wait in a queue for the experiment task.
-- The queues of FreeRTOS and the tick counter are an interface.
pub mod Answers
pub mod Connection
mod Tests
use air_born_sonar.Common.{
  ℕ, Bool, true, false, not, ◌&&◌, List, [], ◌∷◌, Option, none, some, if◌then◌else◌, ◌==◌, leb,
  sub32,
}
use air_born_sonar.ControlProtocol.Op
use air_born_sonar.ControlProtocol.Reply
use air_born_sonar.WavParser.{TxBram}
use air_born_sonar.ControlService.{Chirp, Service, command, reply}

-- `SONAR_RX_PASSBAND_HZ` of firmware/src/sonar_pdm_decimator.h
abbrev pub passband_hz : ℕ
passband_hz = 46000

-- `request_t`; the list stands for the first `bytes` bytes of the member `data`.
pub record Request : Type 0 where
  pub token : ℕ
  pub session : ℕ
  pub opcode : ℕ
  pub payload : List ℕ
  pub submitted : ℕ

-- `response_t`
pub record Response : Type 0 where
  pub token : ℕ
  pub session : ℕ
  pub words : List ℕ

-- The two queues, without waiting, and the tick counter; `rpc_ticks` is `pdMS_TO_TICKS(RPC_MS)`.
pub record Queues (W : Type 0) : Type 0 where
  pub receive : W → Option Request × W
  pub send : Response → W → Bool × W
  pub discard : W → W
  pub ticks : W → ℕ × W
  pub rpc_ticks : ℕ

module _ {W : Type 0} (queues : Queues W) (bram : TxBram W) (chirp : Chirp W) where
  -- The words of an answer, as `sonar_experiment_reply` fills them in.
  abbrev pub words : ℕ → Service → W → List ℕ
  words error s w = reply chirp bram.capacity passband_hz error s w

  -- Whether the caller has given up; the tick counter is read only if the opcode is not internal.
  pub is_stale : Request → W → Bool × W
  is_stale q w =
      let (now, w') = queues.ticks w in
      if q.opcode == Op.end_session
      then (false, w)
      else (leb queues.rpc_ticks (sub32 now q.submitted), w')

  -- `xQueueSend(responses, …)`, a second time after one answer is discarded if the queue is full.
  pub deliver : Response → W → W
  deliver r w =
      let (sent, w') = queues.send r w in if sent then w' else (queues.send r (queues.discard w')).1

  pub respond : Request → ℕ → Service → W → Service × W
  respond q error s w =
      (s, deliver (record { token = q.token; session = q.session; words = words error s w }) w)

  pub execute : Request → Bool → Service → W → Service × W
  execute q mutable s w =
      let (stale, w₁) = is_stale q w in
      let (s', error, w₂) = command bram chirp s q.session q.opcode q.payload mutable w₁ in
      if stale then respond q Reply.timeout s w₁ else respond q error s' w₂

  abbrev pub execute_received : Option Request → Bool → Service → W → Service × W
  execute_received none mutable s w = (s, w)
  execute_received (some q) mutable s w = execute q mutable s w

  -- `sonar_control_poll`
  unfoldable pub control_poll : Bool → Service → W → Service × W
  control_poll mutable s w =
      let (received, w') = queues.receive w in execute_received received mutable s w'
