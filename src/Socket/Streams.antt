-- ===== src/Socket/Streams.antt =====
-- What the transfers of firmware/src/sonar_socket.c put on the wire, and take from it.
use air_born_sonar.Common.{
  ℕ, zero, suc, ◌+◌, ◌-◌, ◌≤◌, ◌≡◌, refl, sym, ap, ◌∙◌, Bool, true, false, List, ◌++◌, some, arith,
  length, take, drop, write_at, if◌then◌else◌, ltb, length-drop, take-append-drop, take-write_at,
  length-write_at, take_all,
}
use mathlib.Core.List.{append_assoc, append-nil}
use air_born_sonar.Socket.{done, SocketIo, Transferred, moved_count, is_error, attempt, transfer}

-- What the socket promises of the bytes `sent` on the wire and of those `incoming`: a send puts the first
-- bytes of its buffer on the wire, a read takes the next ones, and the clock and the other work of the
-- task leave both alone.
pub record KeepsOrder {W : Type 0} (io : SocketIo W) (idle : W → W) (sent incoming : W → List ℕ)
    : Type 0 where
  pub send :
      (bs : List ℕ) (w : W)
      → let (a, w') = io.send bs w in
        (moved_count a ≤ length bs)
        × (sent w' ≡ sent w ++ take (moved_count a) bs)
        × (incoming w' ≡ incoming w)
  pub recv :
      (n : ℕ) (w : W)
      → let (a, chunk, w') = io.recv n w in
        (moved_count a ≡ length chunk)
        × (length chunk ≤ n)
        × (incoming w ≡ chunk ++ incoming w')
        × (sent w' ≡ sent w)
  pub ticks : (w : W) → (sent (io.ticks w).1 ≡ sent w) × (incoming (io.ticks w).1 ≡ incoming w)
  pub delay : (w : W) → (sent (io.delay w) ≡ sent w) × (incoming (io.delay w) ≡ incoming w)
  pub other : (w : W) → (sent (idle w) ≡ sent w) × (incoming (idle w) ≡ incoming w)

module _ {W : Type 0} (io : SocketIo W) (idle : W → W) (sent incoming : W → List ℕ)
    (order : KeepsOrder io idle sent incoming) where
  abbrev Same : W → W → Type 0
  Same w w' = (sent w' ≡ sent w) × (incoming w' ≡ incoming w)

  -- Before the next round.
  abbrev pause : Bool → Bool → W → W
  pause unfinished blocked w =
      let w' = if unfinished then (io.ticks w).1 else w in
      if blocked then io.delay (idle w') else w'

  pause-Same : (unfinished blocked : Bool) (w : W) → Same w (pause unfinished blocked w)
  pause-Same true true w =
      let t = order.ticks w in
      let o = order.other (io.ticks w).1 in
      let d = order.delay (idle (io.ticks w).1) in (d.0 ∙ o.0 ∙ t.0, d.1 ∙ o.1 ∙ t.1)
  pause-Same true false w = order.ticks w
  pause-Same false true w =
      let o = order.other w in let d = order.delay (idle w) in (d.0 ∙ o.0, d.1 ∙ o.1)
  pause-Same false false w = (refl, refl)

  -- The bytes up to `count` are on the wire after `base`.
  abbrev Sent : List ℕ → List ℕ → ℕ → W → Type 0
  Sent base bytes count w = (count ≤ length bytes) × (sent w ≡ base ++ take count bytes)

  attempt-Sent :
      (base bytes : List ℕ) (count : ℕ) (w : W)
      → Sent base bytes count w
      → let (a, bytes', w') = attempt io true bytes count w in
        Sent base bytes (count + moved_count a) w' × (bytes' ≡ bytes) × (incoming w' ≡ incoming w)
  unfolding attempt
  attempt-Sent base bytes count w (l, e) =
      let (m, s, i) = order.send (drop count bytes) w in
      let n = moved_count (io.send (drop count bytes) w).0 in
      (
        (
          omega (arith, length-drop {0} count bytes),
          s
              ∙ ap (λ x. x ++ take n (drop count bytes)) e
              ∙ append_assoc base (take count bytes) (take n (drop count bytes))
              ∙ ap (λ x. base ++ x) (sym (take-append-drop count n bytes)),
        ),
        refl,
        i,
      )

  -- A result of a transfer that sends.
  abbrev HasSent : List ℕ → List ℕ → W → Transferred W → Type 0
  HasSent base bytes w r =
      Sent base bytes r.count r.world
      × (r.bytes ≡ bytes)
      × (incoming r.world ≡ incoming w)
      × (r.status ≡ done → r.count ≡ length bytes)

  transfer-HasSent :
      (fuel began limit : ℕ) (base bytes : List ℕ) (count : ℕ) (w : W) (r : Transferred W)
      → Sent base bytes count w
      → transfer io idle fuel true began limit bytes count w ≡ some r
      → HasSent base bytes w r
  unfolding transfer
  transfer-HasSent zero began limit base bytes count w r v e = cc
  transfer-HasSent (suc fuel) began limit base bytes count w r v e =
      let (a, bytes', w₁) = attempt io true bytes count w in
      let count' = count + moved_count a in
      let w₂ = pause (ltb count' (length bytes)) (is_error a) w₁ in
      ground (
        arith,
        attempt-Sent base bytes count w v,
        order.ticks w₁,
        pause-Same (ltb count' (length bytes)) (is_error a) w₁,
        transfer-HasSent fuel began limit base bytes' count' w₂ r,
      )

  -- The bytes up to `count` are those that came in, from `base` on.
  abbrev Received : List ℕ → List ℕ → ℕ → W → Type 0
  Received base bytes count w = (count ≤ length bytes) × (base ≡ take count bytes ++ incoming w)

  attempt-Received :
      (base bytes : List ℕ) (count : ℕ) (w : W)
      → Received base bytes count w
      → let (a, bytes', w') = attempt io false bytes count w in
        Received base bytes' (count + moved_count a) w'
        × (length bytes' ≡ length bytes)
        × (sent w' ≡ sent w)
  unfolding attempt
  attempt-Received base bytes count w (l, e) =
      let (a, chunk, w') = io.recv (length bytes - count) w in
      let (m, b, i, s) = order.recv (length bytes - count) w in
      let t = take-write_at count chunk bytes (omega arith) in
      let same = length-write_at count chunk bytes in
      (
        (
          omega arith,
          e
              ∙ ap (λ x. take count bytes ++ x) i
              ∙ sym (append_assoc (take count bytes) chunk (incoming w'))
              ∙ ap (λ x. x ++ incoming w') (sym t)
              ∙ ap (λ k. take (count + k) (write_at count chunk bytes) ++ incoming w') (sym m),
        ),
        same,
        s,
      )

  -- A result of a transfer that reads.
  abbrev HasReceived : List ℕ → List ℕ → W → Transferred W → Type 0
  HasReceived base bytes w r =
      Received base r.bytes r.count r.world
      × (length r.bytes ≡ length bytes)
      × (sent r.world ≡ sent w)
      × (r.status ≡ done → r.count ≡ length bytes)

  transfer-HasReceived :
      (fuel began limit : ℕ) (base bytes : List ℕ) (count : ℕ) (w : W) (r : Transferred W)
      → Received base bytes count w
      → transfer io idle fuel false began limit bytes count w ≡ some r
      → HasReceived base bytes w r
  unfolding transfer
  transfer-HasReceived zero began limit base bytes count w r v e = cc
  transfer-HasReceived (suc fuel) began limit base bytes count w r v e =
      let (a, bytes', w₁) = attempt io false bytes count w in
      let count' = count + moved_count a in
      let w₂ = pause (ltb count' (length bytes)) (is_error a) w₁ in
      ground (
        arith,
        attempt-Received base bytes count w v,
        order.ticks w₁,
        pause-Same (ltb count' (length bytes)) (is_error a) w₁,
        transfer-HasReceived fuel began limit base bytes' count' w₂ r,
      )

  -- A transfer that sends puts a prefix of its buffer on the wire, in order and once, whatever is moved at
  -- a time and wherever it stops; the count that it reports is the length of that prefix, and it is done
  -- only with the whole buffer.
  pub transfer_sends :
      (fuel began limit : ℕ) (bytes : List ℕ) (w : W) (r : Transferred W)
      → transfer io idle fuel true began limit bytes 0 w ≡ some r
      → (sent r.world ≡ sent w ++ take r.count bytes)
        × (r.count ≤ length bytes)
        × (incoming r.world ≡ incoming w)
        × (r.status ≡ done → sent r.world ≡ sent w ++ bytes)
  transfer_sends fuel began limit bytes w r e =
      let ((l, s), same, i, d) =
        transfer-HasSent fuel began limit (sent w) bytes 0 w r
          (omega arith, sym (append-nil (sent w))) e in
      (
        s,
        l,
        i,
        λ x. s ∙ ap (λ k. sent w ++ take k bytes) (d x) ∙ ap (λ y. sent w ++ y) (take_all bytes),
      )

  -- A transfer that reads fills its buffer from the start with the bytes that come in, in order, and
  -- takes no other from the wire; it is done only with a full buffer.
  pub transfer_receives :
      (fuel began limit : ℕ) (bytes : List ℕ) (w : W) (r : Transferred W)
      → transfer io idle fuel false began limit bytes 0 w ≡ some r
      → (incoming w ≡ take r.count r.bytes ++ incoming r.world)
        × (length r.bytes ≡ length bytes)
        × (sent r.world ≡ sent w)
        × (r.status ≡ done → incoming w ≡ r.bytes ++ incoming r.world)
  transfer_receives fuel began limit bytes w r e =
      let ((l, s), same, i, d) =
        transfer-HasReceived fuel began limit (incoming w) bytes 0 w r (omega arith, refl) e in
      (
        s,
        same,
        i,
        λ x.
            let whole : r.count ≡ length r.bytes = omega (arith, d x, same) in
            s
            ∙ ap (λ k. take k r.bytes ++ incoming r.world) whole
            ∙ ap (λ y. y ++ incoming r.world) (take_all r.bytes),
      )
