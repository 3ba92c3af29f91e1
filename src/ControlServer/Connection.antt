-- ===== src/ControlServer/Connection.antt =====
-- firmware/src/sonar_control_server.c: the task of TCP 5003, which reads requests, hands them to the
-- experiment task and sends the answers. The connection and the two queues are an interface.
pub mod Wire
mod Sessions
mod Tests
use Prim.Native.Nat.{bit_or}
use air_born_sonar.Common.{
  ℕ, zero, suc, ◌+◌, ◌*◌, Bool, true, false, not, ◌&&◌, ◌||◌, List, [], ◌∷◌, Option, none, some,
  if◌then◌else◌, ◌==◌, leb, ltb, sub32, u32, u32_max, get_or, replicate,
}
use air_born_sonar.Crc32.{crc32}
use air_born_sonar.ControlProtocol
use air_born_sonar.ControlProtocol.Op
use air_born_sonar.ControlProtocol.Reply
use air_born_sonar.Socket.{SocketIo, Transferred, transfer, is_done}
use air_born_sonar.ControlServer.{Request, Response}

-- `accept` waits for a connection, the one that all the others are about until it is closed.
-- `submit` waits for room in the queue of requests, and `answer` for an answer, for a bounded time.
-- `rpc_ticks` and `limit` are `pdMS_TO_TICKS` of `RPC_MS` and of `SOCKET_MS`.
pub record Link (W : Type 0) : Type 0 where
  pub socket : SocketIo W
  pub nonblocking : W → Bool × W
  pub submit : Request → W → Bool × W
  pub answer : W → Option Response × W
  pub accept : W → Bool × W
  pub close : W → W
  pub pause : W → W  -- 20 ms
  pub rpc_ticks : ℕ
  pub limit : ℕ

-- How a round of `serve` ends: with the last id and the token of the next one, or by a `break`.
-- `stuck` is an inner loop that goes on after its fuel.
pub data Round (W : Type 0) : Type 0 where
  goes_on : ℕ → ℕ → W → Round W
  breaks : ℕ → W → Round W
  stuck : Round W

abbrev pub reply_words : ℕ
reply_words = 30

-- `SONAR_CONTROL_RESPONSE`
abbrev pub response_bit : ℕ
response_bit = 0x80000000

abbrev pub is_answer : Request → Option Response → Bool
is_answer q none = false
is_answer q (some r) = r.token == q.token && r.session == q.session

pub put_words : ℕ → ℕ → List ℕ → List ℕ → List ℕ
put_words zero i words p = p
put_words (suc n) i words p =
    put_words n (i + 1) words (ControlProtocol.put_u32 p (4 * i) (get_or words i 0))

-- The words of an answer that this task makes itself.
abbrev pub error_words : ℕ → List ℕ
error_words error = error ∷ replicate 29 0

-- What the wire client may not ask for: another opcode, an old id, or one request too many.
abbrev pub is_refused : ℕ → ℕ → ControlProtocol.Request → Bool
is_refused last token q =
    ltb q.opcode Op.get_capabilities
    || ltb Op.prepare_test q.opcode
    || q.request == 0
    || leb q.request last
    || token == u32_max

abbrev pub ending : ℕ → ℕ → Request
ending session token = record {
  token = u32 (token + 1);
  session = session;
  opcode = Op.end_session;
  payload = [];
  submitted = 0;
}

abbrev pub request_of : ℕ → ℕ → ControlProtocol.Request → List ℕ → Request
request_of session token q payload = record {
  token = token;
  session = session;
  opcode = q.opcode;
  payload = payload;
  submitted = 0;
}

module _ {W : Type 0} (link : Link W) where
  -- The loop of `rpc`; `none` is a loop that goes on after `fuel` rounds.
  pub rpc_wait : ℕ → Request → W → Option (Option Response × W)
  rpc_wait zero q w = none
  rpc_wait (suc fuel) q w =
      let (now, w₁) = link.socket.ticks w in
      let (r, w₂) = link.answer w₁ in
      let rest = rpc_wait fuel q w₂ in
      if leb link.rpc_ticks (sub32 now q.submitted)
      then some (none, w₁)
      else if is_answer q r
      then some (r, w₂)
      else rest

  unfoldable pub rpc : ℕ → Request → W → Option (Option Response × W)
  rpc fuel q w =
      let (now, w₁) = link.socket.ticks w in
      let q' = record q { submitted = now } in
      let (queued, w₂) = link.submit q' w₁ in
      let waited = rpc_wait fuel q' w₂ in if queued then waited else some (none, w₂)

  -- `io`
  unfoldable pub control_io : ℕ → Bool → List ℕ → W → Option (Transferred W)
  control_io fuel sending bytes w =
      let (began, w₁) = link.socket.ticks w in
      transfer link.socket (λ v. v) fuel sending began link.limit bytes 0 w₁

  abbrev pub payload_sent : Option (Transferred W) → Option (Bool × W)
  payload_sent none = none
  payload_sent (some r) = some (is_done r.status, r.world)

  abbrev pub header_sent : (W → Option (Transferred W)) → Option (Transferred W) → Option (Bool × W)
  header_sent rest none = none
  header_sent rest (some r) =
      let sent = payload_sent (rest r.world) in
      if is_done r.status then sent else some (false, r.world)

  -- `respond`
  unfoldable pub send_answer : ℕ → ControlProtocol.Request → List ℕ → W → Option (Bool × W)
  send_answer fuel q words w =
      let payload = put_words reply_words 0 words (replicate (4 * reply_words) 0) in
      let header =
        ControlProtocol.header (bit_or q.opcode response_bit) q.request payload (4 * reply_words) in
      header_sent (λ v. control_io fuel true payload v) (control_io fuel true header w)

  -- After the answer of a round.
  pub answered : ℕ → ControlProtocol.Request → Option (Bool × W) → Round W
  answered token q none = stuck
  answered token q (some (sent, w)) = if sent then goes_on q.request token w else breaks token w

  pub timed_out : ℕ → Option (Bool × W) → Round W
  timed_out token none = stuck
  timed_out token (some (sent, w)) = breaks token w

  -- After the experiment task was asked.
  pub executed : ℕ → ℕ → ControlProtocol.Request → Option (Option Response × W) → Round W
  executed fuel token q none = stuck
  executed fuel token q (some (none, w)) =
      timed_out token (send_answer fuel q (error_words Reply.timeout) w)
  executed fuel token q (some (some r, w)) = answered token q (send_answer fuel q r.words w)

  -- After the payload of a request.
  pub payload_read : ℕ → ℕ → ℕ → ControlProtocol.Request → Option (Transferred W) → Round W
  payload_read fuel session token q none = stuck
  payload_read fuel session token q (some r) =
      let rejected = answered token q (send_answer fuel q (error_words Reply.checksum) r.world) in
      let asked = executed fuel token q (rpc fuel (request_of session token q r.bytes) r.world) in
      if not (is_done r.status)
      then breaks token r.world
      else if not (crc32 r.bytes q.bytes == q.crc)
      then rejected
      else asked

  -- After the header of a request. The buffer of the payload is read only if it was filled.
  pub decoded : ℕ → ℕ → ℕ → ℕ → Option ControlProtocol.Request → W → Round W
  decoded fuel session last token none w = breaks token w
  decoded fuel session last token (some q) w =
      let read =
        payload_read fuel session (token + 1) q (control_io fuel false (replicate q.bytes 0) w) in
      if is_refused last token q then breaks token w else read

  pub header_read : ℕ → ℕ → ℕ → ℕ → Option (Transferred W) → Round W
  header_read fuel session last token none = stuck
  header_read fuel session last token (some r) =
      let next = decoded fuel session last token (ControlProtocol.decode r.bytes) r.world in
      if is_done r.status then next else breaks token r.world

  -- A round of the loop of `serve`.
  unfoldable pub serve_round : ℕ → ℕ → ℕ → ℕ → W → Round W
  serve_round fuel session last token w =
      header_read fuel session last token
        (control_io fuel false (replicate ControlProtocol.header_bytes 0) w)

  pub after_round : (ℕ → ℕ → W → Option (ℕ × W)) → Round W → Option (ℕ × W)
  after_round next (goes_on last token w) = next last token w
  after_round next (breaks token w) = some (token, w)
  after_round next stuck = none

  -- The loop, with the token that it ends with.
  pub serve_rounds : ℕ → ℕ → ℕ → ℕ → ℕ → W → Option (ℕ × W)
  serve_rounds zero fuel session last token w = none
  serve_rounds (suc rounds) fuel session last token w =
      after_round (λ last' token' v. serve_rounds rounds fuel session last' token' v)
        (serve_round fuel session last token w)

  pub cleaned_up : Option (Option Response × W) → Option W
  cleaned_up none = none
  cleaned_up (some (r, w)) = some w

  pub clean_up : ℕ → ℕ → Option (ℕ × W) → Option W
  clean_up fuel session none = none
  clean_up fuel session (some (token, w)) = cleaned_up (rpc fuel (ending session token) w)

  -- `serve`
  unfoldable pub serve : ℕ → ℕ → ℕ → W → Option W
  serve rounds fuel session w =
      let (set, w') = link.nonblocking w in
      let served = clean_up fuel session (serve_rounds rounds fuel session 0 0 w') in
      if set then served else some w'

  pub connection_closed : ℕ → Option W → Option (ℕ × W)
  connection_closed session none = none
  connection_closed session (some w) = some (session, link.close w)

  -- A round of the loop of `server`, with the number of the last session; there is none after 2^32 - 1.
  unfoldable pub server_round : ℕ → ℕ → ℕ → W → Option (ℕ × W)
  server_round rounds fuel session w =
      let (accepted, w') = link.accept w in
      let served = connection_closed (session + 1) (serve rounds fuel (session + 1) w') in
      if not accepted
      then some (session, link.pause w')
      else if session == u32_max
      then some (session, link.close w')
      else served
