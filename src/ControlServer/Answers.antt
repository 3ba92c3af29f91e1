-- ===== src/ControlServer/Answers.antt =====
-- What firmware/src/sonar_control_server.c does with a request that it receives.
use air_born_sonar.Common.{
  ℕ, ◌≤◌, ◌≡◌, ◌≢◌, Bool, true, false, Option, none, some, arith, sub32, if◌then◌else◌,
}
use air_born_sonar.ControlProtocol.Op
use air_born_sonar.ControlProtocol.Reply
use air_born_sonar.WavParser.{TxBram}
use air_born_sonar.WaveformUpload.{cancel}
use air_born_sonar.ControlService.{Chirp, Service, end_session, command}
use air_born_sonar.ControlService.Settings.{IsSettled, command-IsSettled}
use air_born_sonar.ControlServer.{
  Queues, Request, is_stale, respond, execute, execute_received, control_poll,
}

module _ {W : Type 0} (queues : Queues W) (bram : TxBram W) (chirp : Chirp W) where
  -- A connection that ends gives up what it owned, however late its last request is read and whether or
  -- not an experiment runs: the session is no longer the owner, nothing is staged and nothing is being
  -- uploaded.
  pub control_poll_ends :
      (mutable : Bool) (s : Service) (w : W) (q : Request)
      → (queues.receive w).0 ≡ some q
      → q.opcode ≡ Op.end_session
      → q.session ≡ s.owner
      → let s' = (control_poll queues bram chirp mutable s w).0 in
        (s'.owner ≡ 0)
        × (s'.staged ≡ false)
        × (s'.upload.uploading ≡ false)
        × (s'.active ≡ s.active)
  unfolding control_poll execute is_stale respond command end_session cancel
  control_poll_ends mutable s w q r o e = ground arith

  -- A request whose caller has given up changes nothing.
  pub control_poll_stale :
      (mutable : Bool) (s : Service) (w : W) (q : Request)
      → (queues.receive w).0 ≡ some q
      → q.opcode ≢ Op.end_session
      → queues.rpc_ticks ≤ sub32 (queues.ticks (queues.receive w).1).0 q.submitted
      → (control_poll queues bram chirp mutable s w).0 ≡ s
  unfolding control_poll execute is_stale respond
  control_poll_stale mutable s w q r o e = ground arith

  either-IsSettled :
      (b : Bool) (x y : Service × W)
      → IsSettled bram.capacity x.0
      → IsSettled bram.capacity y.0
      → let z : Service × W = if b then x else y in IsSettled bram.capacity z.0
  either-IsSettled true x y p q = p
  either-IsSettled false x y p q = q

  respond-IsSettled :
      (q : Request) (error : ℕ) (s : Service) (w : W)
      → IsSettled bram.capacity s
      → IsSettled bram.capacity (respond queues bram chirp q error s w).0
  unfolding respond
  respond-IsSettled q error s w v = v

  execute_received-IsSettled :
      (received : Option Request) (mutable : Bool) (s : Service) (w : W)
      → IsSettled bram.capacity s
      → IsSettled bram.capacity (execute_received queues bram chirp received mutable s w).0
  unfolding execute
  execute_received-IsSettled none mutable s w v = v
  execute_received-IsSettled (some q) mutable s w v =
      let (stale, w₁) = is_stale queues bram chirp q w in
      let (s', error, w₂) = command bram chirp s q.session q.opcode q.payload mutable w₁ in
      let v' = command-IsSettled bram chirp s q.session q.opcode q.payload mutable w₁ v in
      either-IsSettled stale (respond queues bram chirp q Reply.timeout s w₁)
        (respond queues bram chirp q error s' w₂) (respond-IsSettled q Reply.timeout s w₁ v)
        (respond-IsSettled q error s' w₂ v')

  -- Whatever is received, the service stays settled.
  pub control_poll-IsSettled :
      (mutable : Bool) (s : Service) (w : W)
      → IsSettled bram.capacity s
      → IsSettled bram.capacity (control_poll queues bram chirp mutable s w).0
  unfolding control_poll
  control_poll-IsSettled mutable s w v =
      let (received, w') = queues.receive w in execute_received-IsSettled received mutable s w' v
