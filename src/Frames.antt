-- ===== src/Frames.antt =====
-- firmware/src/sonar_frames.c: the pool of capture buffers, and the header of a recorded frame.
pub mod Pool
pub mod Retention
pub mod Header
mod Tests
use air_born_sonar.Common.{
  ℕ, zero, suc, ◌+◌, ◌*◌, ◌/◌, ◌%◌, ◌^◌, Bool, true, false, not, ◌&&◌, ◌||◌, List, [], ◌∷◌, ◌++◌,
  Option, none, some, if◌then◌else◌, ltb, leb, length, get_or, set, replicate, write_at, u32_max, ℤ,
  pos, unsigned32, unsigned64,
}
use air_born_sonar.Crc32.{crc32}

abbrev pub pool_count : ℕ
pool_count = 32

abbrev pub wire_header : ℕ
wire_header = 112

abbrev pub acq_channels : ℕ
acq_channels = 16

abbrev pub acq_pdm_hz : ℕ
acq_pdm_hz = 2400000

abbrev pub acq_words : ℕ
acq_words = 60000

-- `sonar_frame_meta_t`
pub record FrameMeta : Type 0 where
  pub sequence : ℕ
  pub flags : ℕ
  pub divisor : ℕ
  pub steps : ℤ  -- int32_t
  pub position : ℤ  -- int64_t
  pub trigger_us : ℕ  -- uint64_t
  pub completion_us : ℕ  -- uint64_t
  pub tx_duration_us : ℕ
  pub config_id : ℕ
  pub tx_mode : ℕ
  pub tx_start_hz : ℕ
  pub tx_stop_hz : ℕ
  pub tx_amplitude_pct : ℕ
  pub tx_samples : ℕ
  pub waveform_id : ℕ
  pub waveform_crc : ℕ
  pub tx_sample_hz : ℕ
  pub boot_id : List ℕ  -- four words
  pub test_id : List ℕ  -- four words

pub data FrameState : Type 0 where
  free filling ready sending : FrameState

-- `sonar_frame_slot_t`
pub record Slot : Type 0 where
  pub state : FrameState
  pub frame : FrameMeta

abbrev pub zero_meta : FrameMeta
zero_meta = record {
  sequence = 0;
  flags = 0;
  divisor = 0;
  steps = pos 0;
  position = pos 0;
  trigger_us = 0;
  completion_us = 0;
  tx_duration_us = 0;
  config_id = 0;
  tx_mode = 0;
  tx_start_hz = 0;
  tx_stop_hz = 0;
  tx_amplitude_pct = 0;
  tx_samples = 0;
  waveform_id = 0;
  waveform_crc = 0;
  tx_sample_hz = 0;
  boot_id = replicate 4 0;
  test_id = replicate 4 0;
}

abbrev pub zero_slot : Slot
zero_slot = record { state = free; frame = zero_meta }

-- `sonar_frames_t`: the slots, SONAR_ACQ_POOL_COUNT of them in the code.
abbrev pub Frames : Type 0
Frames = List Slot

abbrev pub slot_at : Frames → ℕ → Slot
slot_at p i = get_or p i zero_slot

abbrev pub is_free : FrameState → Bool
is_free free = true
is_free _ = false

abbrev pub is_filling : FrameState → Bool
is_filling filling = true
is_filling _ = false

abbrev pub is_ready : FrameState → Bool
is_ready ready = true
is_ready _ = false

abbrev pub is_sending : FrameState → Bool
is_sending sending = true
is_sending _ = false

abbrev pub set_state : Frames → ℕ → FrameState → Frames
set_state p i s = set p i (record (slot_at p i) { state = s })

-- The loop of `sonar_frames_acquire` from slot `i` on; `none` stands for -1.
pub first_free : Frames → ℕ → Option ℕ
first_free [] i = none
first_free (s ∷ ss) i = let rest = first_free ss (i + 1) in if is_free s.state then some i else rest

abbrev pub claim : Frames → Option ℕ → FrameState → Frames
claim p none s = p
claim p (some i) s = set_state p i s

unfoldable pub acquire : Frames → Frames × Option ℕ
acquire p = (claim p (first_free p 0) filling, first_free p 0)

unfoldable pub publish : Frames → ℕ → FrameMeta → Frames × Bool
publish p i m =
    if leb (length p) i || not (is_filling (slot_at p i).state)
    then (p, false)
    else (set p i (record { state = ready; frame = m }), true)

abbrev pub is_none : Option ℕ → Bool
is_none none = true
is_none (some i) = false

-- The loop of `sonar_frames_take` from slot `i` on, with its variables `chosen` and `oldest`.
unfoldable pub choose : Frames → ℕ → ℕ → Option ℕ → ℕ → Option ℕ
choose [] i through chosen oldest = chosen
choose (s ∷ ss) i through chosen oldest =
    let better =
      is_ready s.state
      && leb s.frame.sequence through
      && (is_none chosen || ltb s.frame.sequence oldest) in
    choose ss (i + 1) through (if better then some i else chosen)
      (if better then s.frame.sequence else oldest)

unfoldable pub frames_take : Frames → ℕ → Frames × Option ℕ
frames_take p through =
    let chosen = choose p 0 through none u32_max in (claim p chosen sending, chosen)

unfoldable pub finish : Frames → ℕ → Bool → Frames × Bool
finish p i ack =
    if leb (length p) i || not (is_sending (slot_at p i).state)
    then (p, false)
    else (set_state p i (if ack then free else ready), true)

-- The loop of `sonar_frames_latest`.
unfoldable pub latest_from : Frames → ℕ → ℕ
latest_from [] n = n
latest_from (s ∷ ss) n =
    latest_from ss (if is_ready s.state && ltb n s.frame.sequence then s.frame.sequence else n)

unfoldable pub latest : Frames → ℕ
latest p = latest_from p 0

-- `sonar_frames.slots[filling].state = FRAME_FREE` of firmware/src/sonar_experiment_coordinator.c,
-- for a capture that a stop interrupted.
unfoldable pub discard : Frames → ℕ → Frames
discard p i = set_state p i free

-- `put(p + at, n, bytes)` writes the bytes from the lowest on.
abbrev pub put_bytes : ℕ → ℕ → ℕ → List ℕ
put_bytes i zero n = []
put_bytes i (suc k) n = n / 2 ^ (i * 8) % 256 ∷ put_bytes (i + 1) k n

unfoldable pub put : List ℕ → ℕ → ℕ → ℕ → List ℕ
put p at n bytes = write_at at (put_bytes 0 bytes n) p

-- The loop that writes the two identities.
unfoldable pub put_ids : ℕ → ℕ → FrameMeta → List ℕ → List ℕ
put_ids zero i m p = p
put_ids (suc k) i m p =
    put_ids k (i + 1) m
      (put (put p (76 + i * 4) (get_or m.boot_id i 0) 4) (92 + i * 4) (get_or m.test_id i 0) 4)

-- `sonar_frame_header` up to its last `put`.
unfoldable pub frame_body : FrameMeta → ℕ → ℕ → List ℕ
unfolding put put_ids
frame_body m bytes crc =
    let p = write_at 0 (0x41 ∷ 0x53 ∷ 0x4e ∷ 0x33 ∷ []) (replicate wire_header 0) in
    let p = put (put (put p 4 2 2) 6 wire_header 2) 8 bytes 4 in
    let p = put (put (put p 12 m.sequence 4) 16 m.sequence 4) 20 m.flags 4 in
    let p = put (put p 24 acq_channels 4) 28 acq_pdm_hz 4 in
    let p = put (put p 32 m.trigger_us 8) 40 m.completion_us 8 in
    let p = put (put p 48 (unsigned64 m.position) 8) 56 (unsigned32 m.steps) 4 in
    let p = put (put p 60 m.divisor 4) 64 m.tx_duration_us 4 in
    let p = put (put p 68 (acq_words * 2 * 1000000 / acq_pdm_hz) 4) 72 crc 4 in put_ids 4 0 m p

-- `sonar_frame_header`
unfoldable pub frame_header : FrameMeta → ℕ → ℕ → List ℕ
unfolding frame_body put
frame_header m bytes crc = let p = frame_body m bytes crc in put p 108 (crc32 p 108) 4
