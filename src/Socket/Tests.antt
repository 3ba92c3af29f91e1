-- ===== src/Socket/Tests.antt =====
-- Runs of the transfers over a small connection.
use air_born_sonar.Common.{
  ℕ, ◌≡◌, ◌≤◌, refl, true, false, List, [], ◌∷◌, ◌++◌, some, arith, take, replicate,
}
use air_born_sonar.Socket.{would_block, transfer, attempt, Transferred, done, timeout}
use air_born_sonar.Socket.Streams.{transfer_sends}
use air_born_sonar.Socket.Ending.{Ends, socket_transfer-Ends}
use air_born_sonar.Socket.Example.{Wire, wire_io, wire_order, wire_time}

abbrev start : Wire
start = record { out = []; coming = 7 ∷ 8 ∷ 9 ∷ []; ready = true; time = 4294967290 }

abbrev block : List ℕ
block = replicate 70 5

-- Two blocks, of which the second waits for a tick.
abbrev sent_two : Transferred Wire
sent_two = record {
  status = done;
  count = 70;
  bytes = block;
  world = record start { out = block; ready = false; time = 4294967291 };
}

sends_two : transfer wire_io (λ w. w) 9 true 4294967290 100 (block) 0 start ≡ some sent_two
unfolding transfer attempt would_block
sends_two = refl

-- The clock wraps before the deadline.
abbrev read_late : Transferred Wire
read_late = record {
  status = timeout;
  count = 3;
  bytes = 7 ∷ 8 ∷ 9 ∷ 0 ∷ [];
  world = record start { coming = []; time = 4294967298 };
}

reads_late :
    transfer wire_io (λ w. w) 99 false 4294967290 8 (replicate 4 0) 0 start ≡ some read_late
unfolding transfer attempt would_block
reads_late = refl

transfer_sends_example :
    (block ≡ [] ++ take 70 (block))
    × (70 ≤ 70)
    × (start.coming ≡ start.coming)
    × (done ≡ done → block ≡ [] ++ block)
transfer_sends_example =
    transfer_sends wire_io (λ w. w) (λ w. w.out) (λ w. w.coming) wire_order 9 4294967290 100 (block)
      start sent_two sends_two

socket_transfer-Ends_example :
    Ends (transfer wire_io (λ w. w) 110 false 4294967290 100 (replicate 8 0) 0 start)
socket_transfer-Ends_example =
    socket_transfer-Ends wire_io (λ w. w) (λ w. w.time) 1 100 wire_time 110 false 4294967290
      (replicate 8 0) start (omega arith) (omega arith) (omega arith)
