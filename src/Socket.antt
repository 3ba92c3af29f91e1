-- ===== src/Socket.antt =====
-- firmware/src/sonar_socket.c: transfers over a nonblocking socket under one deadline.
-- The sockets of lwIP and the clock of FreeRTOS are an interface.
pub mod Streams
pub mod Ending
pub mod Keeping
pub mod Example
mod Tests
use air_born_sonar.Common.{
  ℕ, zero, suc, ◌+◌, ◌-◌, Bool, true, false, not, ◌&&◌, ◌||◌, List, Option, none, some,
  if◌then◌else◌, ◌==◌, leb, ltb, sub32, length, take, drop, write_at,
}

-- What `lwip_send` or `lwip_recv` returns: the number of bytes, or an error number.
pub data Attempt : Type 0 where
  moved : ℕ → Attempt
  failed : ℕ → Attempt

-- `sonar_socket_status_t`
pub data SocketStatus : Type 0 where
  done closed failure timeout : SocketStatus

-- `recv n` reads at most `n` bytes; the list is what it wrote into the buffer.
pub record SocketIo (W : Type 0) : Type 0 where
  pub send : List ℕ → W → Attempt × W
  pub recv : ℕ → W → Attempt × List ℕ × W
  pub ticks : W → ℕ × W
  pub delay : W → W
  pub eagain : ℕ
  pub ewouldblock : ℕ
  pub eintr : ℕ

-- The result of a transfer: the status, the bytes that were moved, and the buffer.
pub record Transferred (W : Type 0) : Type 0 where
  pub status : SocketStatus
  pub count : ℕ
  pub bytes : List ℕ
  pub world : W

-- The bytes that an attempt moved.
abbrev pub moved_count : Attempt → ℕ
moved_count (moved n) = n
moved_count (failed error) = 0

abbrev pub is_closed : Attempt → Bool
is_closed (moved n) = n == 0
is_closed (failed error) = false

abbrev pub is_error : Attempt → Bool
is_error (moved n) = false
is_error (failed error) = true

abbrev pub is_done : SocketStatus → Bool
is_done done = true
is_done _ = false

module _ {W : Type 0} (io : SocketIo W) where
  -- `sonar_socket_would_block`
  unfoldable pub would_block : ℕ → Bool
  would_block error = error == io.eagain || error == io.ewouldblock || error == io.eintr

  abbrev pub is_failed : Attempt → Bool
  is_failed (moved n) = false
  is_failed (failed error) = not (would_block error)

  -- One call of `lwip_send` or `lwip_recv` at the offset `count` of the buffer.
  unfoldable pub attempt : Bool → List ℕ → ℕ → W → Attempt × List ℕ × W
  attempt sending bytes count w =
      let (sent, w₁) = io.send (drop count bytes) w in
      let (received, chunk, w₂) = io.recv (length bytes - count) w in
      if sending then (sent, bytes, w₁) else (received, write_at count chunk bytes, w₂)

  -- `sonar_socket_transfer` from the offset `count` on, with `limit` for `pdMS_TO_TICKS(timeout_ms)`.
  -- `none` is a loop that goes on after `fuel` rounds.
  unfoldable pub transfer : (W → W) → ℕ → Bool → ℕ → ℕ → List ℕ → ℕ → W → Option (Transferred W)
  transfer idle zero sending began limit bytes count w = none
  transfer idle (suc fuel) sending began limit bytes count w =
      let (a, bytes', w₁) = attempt sending bytes count w in
      let count' = count + moved_count a in
      let (now, w₂) = io.ticks w₁ in
      let w₃ = if ltb count' (length bytes) then w₂ else w₁ in
      let rest =
        transfer idle fuel sending began limit bytes' count'
          (if is_error a then io.delay (idle w₃) else w₃) in
      if not (ltb count (length bytes))
      then some (record { status = done; count = count; bytes = bytes; world = w })
      else if is_closed a
      then some (record { status = closed; count = count; bytes = bytes'; world = w₁ })
      else if is_failed a
      then some (record { status = failure; count = count; bytes = bytes'; world = w₁ })
      else if ltb count' (length bytes) && leb limit (sub32 now began)
      then some (record { status = timeout; count = count'; bytes = bytes'; world = w₂ })
      else rest
