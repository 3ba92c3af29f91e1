-- ===== src/Network/Tests.antt =====
-- Runs of a batch over a small connection.
use air_born_sonar.Common.{
  ℕ, ◌≡◌, ◌+◌, refl, ap, true, false, [], ◌∷◌, ◌++◌, Option, Bool, none, some, replicate,
}
use air_born_sonar.Frames.{
  FrameMeta, zero_meta, ready, Frames, zero_slot, frame_header, frame_body, frames_take, finish,
  choose, latest, latest_from, put, put_ids,
}
use air_born_sonar.Crc32.{crc32, crc_bytes, crc_byte}
use air_born_sonar.Socket.{transfer, attempt, would_block, failed}
use air_born_sonar.Socket.Example.{Wire, wire_io, wire_order}
use air_born_sonar.Socket.Streams.{KeepsOrder}
use air_born_sonar.Network.{
  NetIo, Batch, Content, send_record, serve_batch, send_content, expected_ack, discovery_reply,
  discovery_poll, wait_batch, header_of, batch_start, batch_begun, send_slots, send_taken,
  record_sent, send_wav,
}
use air_born_sonar.Network.Records.{record_of, Exchanged, send_record-IsAcknowledged}

abbrev net : NetIo Wire
net = record {
  socket = wire_io;
  nonblocking = λ w. (true, w);
  peek = λ w. (failed 11, w);
  pause = λ w. record w { time = w.time + 50 };
  clock_us = λ w. (5, w);
  make_wav = λ i w. (some (1 ∷ 2 ∷ 3 ∷ []), w);
  recvfrom = λ w. (none, w);
  sendto = λ d w. w;
  others = λ p w. p;
  has_discovery = false;
  deadline = 100;
  batch_ticks = 200;
}

abbrev frame : ℕ → FrameMeta
frame n = record zero_meta { sequence = n }

abbrev pool : Frames
pool =
    record { state = ready; frame = frame 9 }
    ∷ record { state = ready; frame = frame 4 }
    ∷ zero_slot
    ∷ []

-- The acknowledgement of the empty record, and of the recording 4; the one of the recording 9 is wrong.
abbrev start : Wire
start = record {
  out = [];
  coming =
      (0x41 ∷ 0x43 ∷ 0x4b ∷ 0x33 ∷ replicate 8 0)
      ++ (0x41 ∷ 0x43 ∷ 0x4b ∷ 0x33 ∷ 4 ∷ 0 ∷ 0 ∷ 0 ∷ 0x1d ∷ 0x80 ∷ 0xbc ∷ 0x55 ∷ [])
      ++ replicate 12 0;
  ready = true;
  time = 0;
}

request :
    discovery_reply (record {
      bytes =
          0x53 ∷ 0x4f ∷ 0x4e ∷ 0x41 ∷ 0x52 ∷ 0x57 ∷ 0x48 ∷ 0x4f ∷ 1 ∷ 2 ∷ 3 ∷ 4 ∷ 5 ∷ 6 ∷ 7 ∷ 8
          ∷ [];
      peer = 3;
    })
    ≡ some (record {
      bytes =
          0x53 ∷ 0x4f ∷ 0x4e ∷ 0x41 ∷ 0x52 ∷ 0x49 ∷ 0x50 ∷ 0x32 ∷ 1 ∷ 2 ∷ 3 ∷ 4 ∷ 5 ∷ 6 ∷ 7 ∷ 8
          ∷ [];
      peer = 3;
    })
unfolding discovery_reply
request = refl

abbrev from_run : Option (Batch Wire) → Batch Wire
from_run none = record { alive = true; saved = []; pool = []; world = start }
from_run (some b) = b

abbrev is_there : Option (Batch Wire) → Bool
is_there none = false
is_there (some b) = true

-- The first recording was saved; the second one stays, since its acknowledgement is wrong.
abbrev batch : Batch Wire
batch = from_run (serve_batch net 5 99 0 pool start)

saves_one : batch.saved ≡ 1 ∷ []
unfolding serve_batch batch_start batch_begun send_slots send_taken record_sent send_wav wait_batch
    would_block discovery_poll send_record send_content transfer frame_header frame_body attempt
    expected_ack frames_take choose finish crc32 crc_bytes crc_byte put put_ids latest latest_from
saves_one = refl

abbrev acked : Wire
acked = record start {
  coming = 0x41 ∷ 0x43 ∷ 0x4b ∷ 0x33 ∷ 4 ∷ 0 ∷ 0 ∷ 0 ∷ 0x1d ∷ 0x80 ∷ 0xbc ∷ 0x55 ∷ [];
}

abbrev world_of : Option (Bool × Wire) → Wire
world_of none = acked
world_of (some (ok, w)) = w

abbrev succeeded : Option (Bool × Wire) → Bool
succeeded none = false
succeeded (some (ok, w)) = ok

world_of_lem : (r : Option (Bool × Wire)) → succeeded r ≡ true → r ≡ some (true, world_of r)
world_of_lem none h = cc
world_of_lem (some (ok, w)) h = ap (λ b. some (b, w)) h

abbrev after : Wire
after = world_of (send_record net 99 (some 1) 0 pool acked)

net_order : KeepsOrder wire_io (discovery_poll net) (λ w. w.out) (λ w. w.coming)
unfolding discovery_poll
net_order = wire_order

send_record-IsAcknowledged_example :
    (c : Content) × (record_of net (λ w. w.out) (λ w. w.coming) net_order (some 1) 0 pool acked
      ≡ some c)
    × Exchanged net
        (λ w. w.out)
        (λ w. w.coming)
        net_order
        (header_of c ++ c.payload)
        (expected_ack (header_of c))
        acked
        after
unfolding send_record send_wav send_content transfer frame_header frame_body attempt would_block
    discovery_poll expected_ack crc32 crc_bytes crc_byte put put_ids
send_record-IsAcknowledged_example =
    send_record-IsAcknowledged net (λ w. w.out) (λ w. w.coming) net_order 99 (some 1) 0 pool acked
      after (λ i w. (refl, refl)) (world_of_lem _ refl)
