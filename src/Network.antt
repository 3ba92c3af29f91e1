-- ===== src/Network.antt =====
-- firmware/src/sonar_ethernet.c: batches of recordings to a receiver, and the discovery of the board.
-- The connection, the clocks, the datagrams and the conversion of a recording are an interface; the
-- messages, and the start of the interface and its tasks, are left out.
pub mod Records
pub mod Batches
mod Tests
use Prim.Native.Nat.{bit_or}
use air_born_sonar.Common.{
  ℕ, zero, suc, ◌+◌, ◌-◌, Bool, true, false, not, ◌&&◌, ◌||◌, List, [], ◌∷◌, ◌++◌, Option, none,
  some, if◌then◌else◌, ◌==◌, leb, ltb, sub32, u32, length, take, drop, replicate,
}
use air_born_sonar.Crc32.{crc32}
use air_born_sonar.Identity.{same_words}
use air_born_sonar.Frames.{
  Frames, FrameMeta, zero_meta, slot_at, wire_header, frame_header, frames_take, finish, latest,
}
use air_born_sonar.Socket.{
  Attempt, moved, failed, SocketStatus, SocketIo, Transferred, transfer, is_done, would_block,
}

-- `SONAR_FRAME_FLAG_WAV_PCM16` of firmware/src/sonar_wav_writer.h
abbrev pub frame_flag_wav_pcm16 : ℕ
frame_flag_wav_pcm16 = 0x100

-- A datagram and its sender.
pub record Datagram : Type 0 where
  pub bytes : List ℕ
  pub peer : ℕ

-- `deadline` and `batch_ticks` are `pdMS_TO_TICKS` of the deadline of a record and of the time between
-- batches. `others` is what the other tasks do with the pool while a record is sent.
pub record NetIo (W : Type 0) : Type 0 where
  pub socket : SocketIo W
  pub nonblocking : W → Bool × W
  pub peek : W → Attempt × W
  pub pause : W → W  -- 50 ms
  pub clock_us : W → ℕ × W
  pub make_wav : ℕ → W → Option (List ℕ) × W
  pub recvfrom : W → Option Datagram × W
  pub sendto : Datagram → W → W
  pub others : Frames → W → Frames
  pub has_discovery : Bool
  pub deadline : ℕ
  pub batch_ticks : ℕ

-- The answer to a datagram of the discovery, if it is a request.
unfoldable pub discovery_reply : Datagram → Option Datagram
discovery_reply d =
    let reply = 0x53 ∷ 0x4f ∷ 0x4e ∷ 0x41 ∷ 0x52 ∷ 0x49 ∷ 0x50 ∷ 0x32 ∷ take 8 (drop 8 d.bytes) in
    if length d.bytes == 16
      && same_words (take 8 d.bytes) (0x53 ∷ 0x4f ∷ 0x4e ∷ 0x41 ∷ 0x52 ∷ 0x57 ∷ 0x48 ∷ 0x4f ∷ [])
    then some (record d { bytes = reply })
    else none

-- The metadata, the payload and its CRC of a record; a record of no slot marks the start of a batch.
pub record Content : Type 0 where
  pub frame : FrameMeta
  pub payload : List ℕ
  pub crc : ℕ

abbrev pub empty_record : ℕ → Content
empty_record batch_us = record {
  frame = record zero_meta { trigger_us = batch_us };
  payload = [];
  crc = 0;
}

abbrev pub slot_record : FrameMeta → List ℕ → Content
slot_record m payload = record {
  frame = record m { flags = bit_or m.flags frame_flag_wav_pcm16 };
  payload = payload;
  crc = crc32 payload (length payload);
}

-- The acknowledgement that a header wants: ACK3, its sequence number and its CRC of the payload.
unfoldable pub expected_ack : List ℕ → List ℕ
expected_ack header =
    0x41 ∷ 0x43 ∷ 0x4b ∷ 0x33 ∷ (take 4 (drop 12 header) ++ take 4 (drop 72 header))

abbrev pub header_of : Content → List ℕ
header_of c = frame_header c.frame (length c.payload) c.crc

-- The slots that a batch sent and whether the connection lives, with the pool.
pub record Batch (W : Type 0) : Type 0 where
  pub alive : Bool
  pub saved : List ℕ  -- `sent` is their number
  pub pool : Frames
  pub world : W

abbrev pub with_saved : {W : Type 0} → ℕ → Option (Batch W) → Option (Batch W)
with_saved i none = none
with_saved i (some b) = some (record b { saved = i ∷ b.saved })

abbrev pub gone : {W : Type 0} → Frames → W → Batch W
gone p w = record { alive = false; saved = []; pool = p; world = w }

abbrev pub compare_ack : {W : Type 0} → List ℕ → Option (Transferred W) → Option (Bool × W)
compare_ack header none = none
compare_ack header (some r) =
    some (is_done r.status && same_words r.bytes (expected_ack header), r.world)

abbrev pub when_sent :
    {W : Type 0} → (W → Option (Bool × W)) → Option (Transferred W) → Option (Bool × W)
when_sent rest none = none
when_sent rest (some r) = if is_done r.status then rest r.world else some (false, r.world)

module _ {W : Type 0} (io : NetIo W) where
  pub answer : Option Datagram → W → W
  answer none w = w
  answer (some reply) w = io.sendto reply w

  -- `discovery_poll`, of which at most `budget` datagrams are left.
  pub discovery_rounds : ℕ → W → W
  discovery_rounds zero w = w
  discovery_rounds (suc budget) w =
      let (d, w') = io.recvfrom w in
      elim d [
        | none ↦ w'
        | some request ↦ discovery_rounds budget (answer (discovery_reply request) w')
      ]

  unfoldable pub discovery_poll : W → W
  discovery_poll w = if io.has_discovery then discovery_rounds 4 w else w

  -- `transfer`; `none` is a transfer that goes on after `fuel` rounds.
  abbrev pub net_transfer : ℕ → Bool → ℕ → List ℕ → W → Option (Transferred W)
  net_transfer fuel sending began bytes w =
      transfer io.socket discovery_poll fuel sending began io.deadline bytes 0 w

  -- The last part of `send_record`, from the acknowledgement on.
  abbrev pub read_ack : ℕ → ℕ → List ℕ → W → Option (Bool × W)
  read_ack fuel began header w =
      compare_ack header (net_transfer fuel false began (replicate 12 0) w)

  -- A part that is sent before the rest of a record.
  abbrev pub send_part : ℕ → ℕ → List ℕ → (W → Option (Bool × W)) → W → Option (Bool × W)
  send_part fuel began bytes rest w = when_sent rest (net_transfer fuel true began bytes w)

  -- `send_record` from the header on; the payload is sent for a slot only.
  unfoldable pub send_content : ℕ → Bool → Content → W → Option (Bool × W)
  send_content fuel has_slot c w =
      let header = header_of c in
      let (began, w') = io.socket.ticks w in
      let ack = λ (v : W). read_ack fuel began header v in
      let rest = λ (v : W). if has_slot then send_part fuel began c.payload ack v else ack v in
      send_part fuel began header rest w'

  pub send_wav : ℕ → FrameMeta → Option (List ℕ) × W → Option (Bool × W)
  send_wav fuel m (none, w) = some (false, w)
  send_wav fuel m (some payload, w) = send_content fuel true (slot_record m payload) w

  -- `send_record`; `none` of the slot is -1.
  unfoldable pub send_record : ℕ → Option ℕ → ℕ → Frames → W → Option (Bool × W)
  send_record fuel none batch_us p w = send_content fuel false (empty_record batch_us) w
  send_record fuel (some i) batch_us p w = send_wav fuel (slot_at p i).frame (io.make_wav i w)

  -- After a record of slot `i`; `next` is the rest of the loop.
  pub record_sent :
      (Frames → W → Option (Batch W)) → ℕ → Frames → Option (Bool × W) → Option (Batch W)
  record_sent next i p none = none
  record_sent next i p (some (ok, w)) =
      let p' = (finish (io.others p w) i ok).0 in
      if ok then with_saved i (next p' w) else some (gone p' w)

  -- A round of the loop, for the slot that was taken.
  pub send_taken :
      (Frames → W → Option (Batch W)) → ℕ → ℕ → Frames → Option ℕ → W → Option (Batch W)
  send_taken next fuel batch_us p none w =
      some (record { alive = true; saved = []; pool = p; world = w })
  send_taken next fuel batch_us p (some i) w =
      record_sent next i p (send_record fuel (some i) batch_us p w)

  -- The loop of a batch over the READY slots up to `through`; `none` is a loop that goes on after
  -- `rounds`.
  pub send_slots : ℕ → ℕ → ℕ → ℕ → Frames → W → Option (Batch W)
  send_slots zero fuel through batch_us p w = none
  send_slots (suc rounds) fuel through batch_us p w =
      let (p', slot) = frames_take p through in
      send_taken (λ q v. send_slots rounds fuel through batch_us q v) fuel batch_us p' slot w

  -- Whether a peek finds the receiver silent and there.
  abbrev pub is_quiet : Attempt → Bool
  is_quiet (moved n) = false
  is_quiet (failed error) = would_block io.socket error

  -- The wait for the next batch: whether the receiver is still there. `none` is a loop that goes on after
  -- `fuel` rounds.
  unfoldable pub wait_batch : ℕ → ℕ → W → Option (Bool × W)
  wait_batch zero wake w = none
  wait_batch (suc fuel) wake w =
      let (now, w₁) = io.socket.ticks w in
      let (a, w₂) = io.peek (discovery_poll w₁) in
      let rest = wait_batch fuel wake (io.pause w₂) in
      if not (ltb (sub32 now wake) io.batch_ticks)
      then some (true, w₁)
      else if is_quiet a
      then rest
      else some (false, w₂)

  -- The rest of a batch, after its empty record.
  pub batch_begun : ℕ → ℕ → ℕ → ℕ → Frames → Option (Bool × W) → Option (Batch W)
  batch_begun rounds fuel through batch_us p none = none
  batch_begun rounds fuel through batch_us p (some (ok, w)) =
      let p' = io.others p w in
      if ok then send_slots rounds fuel through batch_us p' w else some (gone p' w)

  -- A batch, after the wait for it.
  pub batch_start : ℕ → ℕ → Frames → Option (Bool × W) → Option (Batch W)
  batch_start rounds fuel p none = none
  batch_start rounds fuel p (some (there, w)) =
      let p' = io.others p w in
      let (batch_us, w₁) = io.clock_us w in
      let batch =
        batch_begun rounds fuel (latest p') batch_us p' (send_record fuel none batch_us p' w₁) in
      if there then batch else some (gone p' w)

  -- A round of the outer loop of `serve`.
  unfoldable pub serve_batch : ℕ → ℕ → ℕ → Frames → W → Option (Batch W)
  serve_batch rounds fuel wake p w = batch_start rounds fuel p (wait_batch fuel wake w)

  -- The time of the batch after one that was due at `wake`; missed ones are skipped.
  unfoldable pub next_wake : ℕ → W → ℕ × W
  next_wake wake w =
      let due = u32 (wake + io.batch_ticks) in
      let (now, w₁) = io.socket.ticks w in
      let (later, w₂) = io.socket.ticks w₁ in
      if leb io.batch_ticks (sub32 now due) then (later, w₂) else (due, w₁)

  abbrev pub hello : List ℕ
  hello = 0x53 ∷ 0x4f ∷ 0x4e ∷ 0x41 ∷ 0x52 ∷ 0x33 ∷ 0x0d ∷ 0x0a ∷ []

  abbrev pub ready_reply : List ℕ
  ready_reply = 0x52 ∷ 0x45 ∷ 0x41 ∷ 0x44 ∷ 0x59 ∷ 0x33 ∷ 0x0d ∷ 0x0a ∷ []

  -- The beginning of `serve`: whether the receiver is one.
  unfoldable pub handshake : ℕ → W → Option (Bool × W)
  handshake fuel w =
      let (began, w₁) = io.socket.ticks w in
      let (set, w₂) = io.nonblocking w₁ in
      let greeted : Option (Bool × W) = elim (net_transfer fuel false began (replicate 8 0) w₂) [
        | none ↦ none
        | some r ↦
            let reply = send_part fuel began ready_reply (λ v. some (true, v)) r.world in
            if is_done r.status && same_words r.bytes hello then reply else some (false, r.world)
      ] in
      if set then greeted else some (false, w₂)
