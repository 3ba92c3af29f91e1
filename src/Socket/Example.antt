-- ===== src/Socket/Example.antt =====
-- A small connection for runs of the transfers: it moves a few bytes at a time, and would block every
-- other time until the task sleeps.
use air_born_sonar.Common.{
  ℕ, zero, suc, ◌+◌, ◌≤◌, ◌≡◌, refl, sym, Bool, true, false, List, [], ◌∷◌, ◌++◌, arith, length,
  take, min, u32,
}
use mathlib.Core.List.{append-nil}
use air_born_sonar.Socket.{Attempt, moved, failed, SocketIo, moved_count}
use air_born_sonar.Socket.Streams.{KeepsOrder}
use air_born_sonar.Socket.Ending.{KeepsTime}

pub record Wire : Type 0 where
  pub out : List ℕ
  pub coming : List ℕ
  pub ready : Bool
  pub time : ℕ

abbrev pub chunk : ℕ
chunk = 64

abbrev wire_send : Bool → List ℕ → Wire → Attempt × Wire
wire_send false bs w = (failed 11, w)
wire_send true bs w =
    let n = min chunk (length bs) in (moved n, record w { out = w.out ++ take n bs; ready = false })

-- A byte that came in is read at a time.
abbrev wire_recv : Bool → ℕ → List ℕ → Wire → Attempt × List ℕ × Wire
wire_recv false n coming w = (failed 11, [], w)
wire_recv true n [] w = (failed 11, [], w)
wire_recv true zero (x ∷ xs) w = (moved 0, [], w)
wire_recv true (suc n) (x ∷ xs) w = (moved 1, x ∷ [], record w { coming = xs; ready = false })

abbrev wake : Wire → Wire
wake w = record w { ready = true; time = w.time + 1 }

abbrev pub wire_io : SocketIo Wire
wire_io = record {
  send = λ bs w. wire_send w.ready bs w;
  recv = λ n w. wire_recv w.ready n w.coming w;
  ticks = λ w. (u32 w.time, w);
  delay = wake;
  eagain = 11;
  ewouldblock = 11;
  eintr = 4;
}

send_lem :
    (ready : Bool) (bs : List ℕ) (w : Wire)
    → let (a, w') = wire_send ready bs w in
      (moved_count a ≤ length bs)
      × (w'.out ≡ w.out ++ take (moved_count a) bs)
      × (w'.coming ≡ w.coming)
send_lem false bs w = (omega arith, sym (append-nil w.out), refl)
send_lem true bs w = (omega arith, refl, refl)

recv_lem :
    (ready : Bool) (n : ℕ) (coming : List ℕ) (w : Wire)
    → w.coming ≡ coming
    → let (a, bytes, w') = wire_recv ready n coming w in
      (moved_count a ≡ length bytes)
      × (length bytes ≤ n)
      × (w.coming ≡ bytes ++ w'.coming)
      × (w'.out ≡ w.out)
recv_lem false n coming w e = (refl, omega arith, refl, refl)
recv_lem true n [] w e = (refl, omega arith, refl, refl)
recv_lem true zero (x ∷ xs) w e = (refl, omega arith, refl, refl)
recv_lem true (suc n) (x ∷ xs) w e = (refl, omega arith, e, refl)

pub wire_order : KeepsOrder wire_io (λ w. w) (λ w. w.out) (λ w. w.coming)
wire_order = record {
  send = λ bs w. send_lem w.ready bs w;
  recv = λ n w. recv_lem w.ready n w.coming w refl;
  ticks = λ w. (refl, refl);
  delay = λ w. (refl, refl);
  other = λ w. (refl, refl);
}

send_time :
    (ready : Bool) (bs : List ℕ) (w : Wire)
    → (w.time ≤ (wire_send ready bs w).1.time) × ((wire_send ready bs w).1.time ≤ w.time + 1)
send_time false bs w = omega arith
send_time true bs w = omega arith

recv_time :
    (ready : Bool) (n : ℕ) (coming : List ℕ) (w : Wire)
    → let w' = (wire_recv ready n coming w).2 in (w.time ≤ w'.time) × (w'.time ≤ w.time + 1)
recv_time false n coming w = omega arith
recv_time true n [] w = omega arith
recv_time true zero (x ∷ xs) w = omega arith
recv_time true (suc n) (x ∷ xs) w = omega arith

pub wire_time : KeepsTime wire_io (λ w. w) (λ w. w.time) 1 100
wire_time = record {
  reads = λ w. refl;
  ticks = λ w. omega arith;
  send = λ bs w. send_time w.ready bs w;
  recv = λ n w. recv_time w.ready n w.coming w;
  delay = λ w. omega arith;
  other = λ w. omega arith;
  small = omega arith;
}
