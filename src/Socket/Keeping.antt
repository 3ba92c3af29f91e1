-- ===== src/Socket/Keeping.antt =====
-- What the transfers of firmware/src/sonar_socket.c leave alone.
use air_born_sonar.Common.{
  ℕ, zero, suc, ◌+◌, ◌≡◌, refl, ◌∙◌, Bool, true, false, List, some, arith, if◌then◌else◌, ltb, drop,
  length, ◌-◌, length-write_at,
}
use air_born_sonar.Socket.{SocketIo, Transferred, moved_count, is_error, attempt, transfer}

-- The socket, the clock and the other work of the task leave `view` alone.
pub record Keeps {W A : Type 0} (io : SocketIo W) (idle : W → W) (view : W → A) : Type 0 where
  pub send : (bs : List ℕ) (w : W) → view (io.send bs w).1 ≡ view w
  pub recv : (n : ℕ) (w : W) → view (io.recv n w).2 ≡ view w
  pub ticks : (w : W) → view (io.ticks w).1 ≡ view w
  pub delay : (w : W) → view (io.delay w) ≡ view w
  pub other : (w : W) → view (idle w) ≡ view w

module _ {W A : Type 0} (io : SocketIo W) (idle : W → W) (view : W → A)
    (keeps : Keeps io idle view) where
  attempt-Keeps :
      (sending : Bool) (bytes : List ℕ) (count : ℕ) (w : W)
      → view (attempt io sending bytes count w).2 ≡ view w
  unfolding attempt
  attempt-Keeps true bytes count w = keeps.send (drop count bytes) w
  attempt-Keeps false bytes count w = keeps.recv (length bytes - count) w

  -- Before the next round.
  abbrev pause : Bool → Bool → W → W
  pause unfinished blocked w =
      let w' = if unfinished then (io.ticks w).1 else w in
      if blocked then io.delay (idle w') else w'

  pause-Keeps : (unfinished blocked : Bool) (w : W) → view (pause unfinished blocked w) ≡ view w
  pause-Keeps true true w =
      keeps.delay (idle (io.ticks w).1) ∙ keeps.other (io.ticks w).1 ∙ keeps.ticks w
  pause-Keeps true false w = keeps.ticks w
  pause-Keeps false true w = keeps.delay (idle w) ∙ keeps.other w
  pause-Keeps false false w = refl

  -- So does a transfer.
  pub transfer-Keeps :
      (fuel : ℕ) (sending : Bool) (began limit : ℕ) (bytes : List ℕ) (count : ℕ) (w : W)
      (r : Transferred W)
      → transfer io idle fuel sending began limit bytes count w ≡ some r
      → view r.world ≡ view w
  unfolding transfer
  transfer-Keeps zero sending began limit bytes count w r e = cc
  transfer-Keeps (suc fuel) sending began limit bytes count w r e =
      let (a, bytes', w₁) = attempt io sending bytes count w in
      let count' = count + moved_count a in
      let w₂ = pause (ltb count' (length bytes)) (is_error a) w₁ in
      ground (
        arith,
        attempt-Keeps sending bytes count w,
        keeps.ticks w₁,
        pause-Keeps (ltb count' (length bytes)) (is_error a) w₁,
        transfer-Keeps fuel sending began limit bytes' count' w₂ r,
      )

module _ {W : Type 0} (io : SocketIo W) (idle : W → W) where
  length-attempt :
      (sending : Bool) (bytes : List ℕ) (count : ℕ) (w : W)
      → length (attempt io sending bytes count w).1 ≡ length bytes
  unfolding attempt
  length-attempt true bytes count w = refl
  length-attempt false bytes count w =
      length-write_at count (io.recv (length bytes - count) w).1 bytes

  -- The buffer keeps its length.
  pub length-transfer :
      (fuel : ℕ) (sending : Bool) (began limit : ℕ) (bytes : List ℕ) (count : ℕ) (w : W)
      (r : Transferred W)
      → transfer io idle fuel sending began limit bytes count w ≡ some r
      → length r.bytes ≡ length bytes
  unfolding transfer
  length-transfer zero sending began limit bytes count w r e = cc
  length-transfer (suc fuel) sending began limit bytes count w r e =
      let (a, bytes', w₁) = attempt io sending bytes count w in
      let count' = count + moved_count a in
      let w₂ = if ltb count' (length bytes) then (io.ticks w₁).1 else w₁ in
      let w₃ = if is_error a then io.delay (idle w₂) else w₂ in
      ground (
        arith,
        length-attempt sending bytes count w,
        length-transfer fuel sending began limit bytes' count' w₃ r,
      )
