-- ===== src/Socket/Ending.antt =====
-- Every transfer of firmware/src/sonar_socket.c comes to an end.
use air_born_sonar.Common.{
  ℕ, zero, suc, ◌+◌, ◌-◌, ◌*◌, ◌≤◌, ◌<◌, ◌≡◌, ◌≢◌, ◌⊎◌, inr, Bool, true, false, List, Option, none,
  arith, length, if◌then◌else◌, ltb, leb, sub32, u32, length-write_at, drop,
}
use air_born_sonar.Socket.{
  Attempt, moved, failed, SocketIo, moved_count, is_error, is_closed, attempt, transfer,
}

-- The clock reads the ticks since the start, modulo 2^32. A delay takes a tick at least; it, the other
-- work of the task and a call of the socket or the clock take at most `slack` ticks.
pub record KeepsTime {W : Type 0} (io : SocketIo W) (idle : W → W) (elapsed : W → ℕ)
    (slack limit : ℕ) : Type 0 where
  pub reads : (w : W) → (io.ticks w).0 ≡ u32 (elapsed w)
  pub ticks :
      (w : W) → (elapsed w ≤ elapsed (io.ticks w).1) × (elapsed (io.ticks w).1 ≤ elapsed w + slack)
  pub send :
      (bs : List ℕ) (w : W)
      → (elapsed w ≤ elapsed (io.send bs w).1) × (elapsed (io.send bs w).1 ≤ elapsed w + slack)
  pub recv :
      (n : ℕ) (w : W)
      → (elapsed w ≤ elapsed (io.recv n w).2) × (elapsed (io.recv n w).2 ≤ elapsed w + slack)
  pub delay :
      (w : W) → (elapsed w + 1 ≤ elapsed (io.delay w)) × (elapsed (io.delay w) ≤ elapsed w + slack)
  pub other : (w : W) → (elapsed w ≤ elapsed (idle w)) × (elapsed (idle w) ≤ elapsed w + slack)
  pub small : limit + 10 * slack < 4294967296

-- The result is there.
abbrev pub Ends : {A : Type 0} → Option A → Type 0
Ends r = r ≢ none

-- An attempt that goes on without a pause has moved something.
progress : (a : Attempt) → is_closed a ≡ false → is_error a ≡ false → 1 ≤ moved_count a
progress (moved n) c e = ground arith
progress (failed n) c e = cc

module _ {W : Type 0} (io : SocketIo W) (idle : W → W) (elapsed : W → ℕ) (slack limit : ℕ)
    (time : KeepsTime io idle elapsed slack limit) where
  attempt_lem :
      (sending : Bool) (bytes : List ℕ) (count : ℕ) (w : W)
      → let (a, bytes', w') = attempt io sending bytes count w in
        (length bytes' ≡ length bytes) × (elapsed w ≤ elapsed w') × (elapsed w' ≤ elapsed w + slack)
  unfolding attempt
  attempt_lem true bytes count w = ground (arith, time.send (drop count bytes) w)
  attempt_lem false bytes count w =
      let (a, chunk, w') = io.recv (length bytes - count) w in
      ground (arith, time.recv (length bytes - count) w, length-write_at count chunk bytes)

  -- Before the next round.
  abbrev pause : Bool → Bool → W → W
  pause unfinished blocked w =
      let w' = if unfinished then (io.ticks w).1 else w in
      if blocked then io.delay (idle w') else w'

  pause_elapsed :
      (unfinished blocked : Bool) (w : W)
      → let w' = pause unfinished blocked w in
        (elapsed w ≤ elapsed w')
        × (elapsed w' ≤ elapsed w + 3 * slack)
        × (blocked ≡ true → elapsed w + 1 ≤ elapsed w')
  pause_elapsed true true w =
      ground (arith, time.ticks w, time.other (io.ticks w).1, time.delay (idle (io.ticks w).1))
  pause_elapsed true false w = ground (arith, time.ticks w)
  pause_elapsed false true w = ground (arith, time.other w, time.delay (idle w))
  pause_elapsed false false w = ground arith

  -- Before the deadline the clock says so.
  on_time :
      (began e : ℕ)
      → began ≤ e
      → e ≤ began + limit + 9 * slack
      → leb limit (sub32 (u32 e) (u32 began)) ≡ false
      → e < began + limit
  on_time began e l u h = ground (arith, time.small)

  transfer-Ends :
      (fuel : ℕ) (sending : Bool) (began : ℕ) (bytes : List ℕ) (count : ℕ) (w : W)
      → began ≤ elapsed w
      → (length bytes ≤ count) ⊎ (elapsed w ≤ began + limit + 8 * slack)
      → (length bytes - count) + (began + limit + 1 - elapsed w) + 1 ≤ fuel
      → Ends (transfer io idle fuel sending (u32 began) limit bytes count w)
  unfolding transfer
  transfer-Ends zero sending began bytes count w l u f = absurd (omega arith)
  transfer-Ends (suc fuel) sending began bytes count w l u f =
      let (a, bytes', w₁) = attempt io sending bytes count w in
      let count' = count + moved_count a in
      let w₂ = pause (ltb count' (length bytes)) (is_error a) w₁ in
      ground (
        arith,
        on_time began (elapsed w₁),
        progress a,
        attempt_lem sending bytes count w,
        time.reads w₁,
        pause_elapsed (ltb count' (length bytes)) (is_error a) w₁,
        transfer-Ends fuel sending began bytes' count' w₂,
      )

  -- Every transfer ends under its one deadline, also if the peer sends or takes a byte at a time, on a
  -- clock that keeps time: a round for each byte and each tick of the deadline, and two more, are enough.
  pub socket_transfer-Ends :
      (fuel : ℕ) (sending : Bool) (began : ℕ) (bytes : List ℕ) (w : W)
      → began ≤ elapsed w
      → elapsed w ≤ began + limit + 8 * slack
      → length bytes + limit + 2 ≤ fuel
      → Ends (transfer io idle fuel sending (u32 began) limit bytes 0 w)
  socket_transfer-Ends fuel sending began bytes w l u f =
      transfer-Ends fuel sending began bytes 0 w l (inr u) (omega arith)
