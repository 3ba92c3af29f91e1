-- ===== src/WavParser.antt =====
-- The RIFF/WAVE parser of firmware/src/sonar_waveform_upload.c, fed byte by byte, which writes mono
-- PCM16 to the playback memory. The playback memory (firmware/src/sonar_tx_bram.c) is an interface.
pub mod Buffers
pub mod Files
use air_born_sonar.Common.{
  ℕ, zero, suc, ◌+◌, ◌-◌, ◌*◌, ◌/◌, ◌%◌, ◌^◌, Bool, true, false, not, ◌&&◌, ◌||◌, List, [], ◌∷◌,
  Option, none, some, if◌then◌else◌, ◌==◌, ltb, leb, get_or, set, take, drop, replicate, sub32, u8,
  u32, has_bit, ℤ, pos, negsuc, ◌+ℤ◌, sub_ℕ, neg_ℤ, pos_part, neg_part, unsigned32, ◌>>=◌,
}
use air_born_sonar.Crc32.{crc_byte}
use air_born_sonar.ControlProtocol.{get_u32}
use air_born_sonar.ExperimentConfig.{audio_hz}

-- What the upload uses of firmware/src/sonar_tx_bram.h.
pub record TxBram (W : Type 0) : Type 0 where
  pub capacity : ℕ
  pub init : W → Bool × W
  pub write : ℕ → ℕ → W → Bool × W

-- `phase_t`
pub data Phase : Type 0 where
  riff_header chunk_header format audio_data skip pad : Phase

-- The static struct `parser`; its members `phase` and `format` are `at` and `encoding` here.
pub record Parser : Type 0 where
  pub at : Phase
  pub header : List ℕ  -- uint8_t[12]
  pub fmt : List ℕ  -- uint8_t[40]
  pub frame : List ℕ  -- uint8_t[8]
  pub used : ℕ
  pub fmt_used : ℕ
  pub frame_used : ℕ
  pub remaining : ℕ
  pub chunk_bytes : ℕ
  pub encoding : ℕ
  pub channels : ℕ
  pub bits : ℕ
  pub block : ℕ
  pub samples : ℕ
  pub pcm_crc : ℕ
  pub file_bytes : ℕ
  pub expected_crc : ℕ
  pub file_crc : ℕ
  pub received : ℕ
  pub pending_word : ℕ
  pub fmt_seen : Bool
  pub data_seen : Bool

-- `memset(&parser, 0, sizeof(parser))`
abbrev pub zero_parser : Parser
zero_parser = record {
  at = riff_header;
  header = replicate 12 0;
  fmt = replicate 40 0;
  frame = replicate 8 0;
  used = 0;
  fmt_used = 0;
  frame_used = 0;
  remaining = 0;
  chunk_bytes = 0;
  encoding = 0;
  channels = 0;
  bits = 0;
  block = 0;
  samples = 0;
  pcm_crc = 0;
  file_bytes = 0;
  expected_crc = 0;
  file_crc = 0;
  received = 0;
  pending_word = 0;
  fmt_seen = false;
  data_seen = false;
}

-- `u16(p + i)`
abbrev pub get_u16 : List ℕ → ℕ → ℕ
get_u16 p i = get_or p i 0 + get_or p (i + 1) 0 * 256

-- `memcmp(p + i, …, n) == 0` against given bytes.
abbrev pub same_bytes : List ℕ → ℕ → List ℕ → Bool
same_bytes p i [] = true
same_bytes p i (b ∷ bs) = get_or p i 0 == b && same_bytes p (i + 1) bs

unfoldable pub chunk_done : Parser → Parser
chunk_done p = record p {
  at = if not (p.chunk_bytes % 2 == 0) then pad else chunk_header;
  used = 0;
}

abbrev pub guid_tail : List ℕ
guid_tail = 0 ∷ 0 ∷ 0x10 ∷ 0 ∷ 0x80 ∷ 0 ∷ 0 ∷ 0xaa ∷ 0 ∷ 0x38 ∷ 0x9b ∷ 0x71 ∷ []

unfoldable pub extensible_ok : Parser → Bool
extensible_ok p = not (
    ltb p.fmt_used 40
    || ltb (get_u16 p.fmt 16) 22
    || not (get_u16 p.fmt 18 == p.bits)
    || not (same_bytes p.fmt 28 guid_tail))

-- The last test of `format_done`.
unfoldable pub format_ok : Parser → Bool
format_ok p = not (
    not (p.channels == 1) && not (p.channels == 2)
    || not (get_u32 p.fmt 4 == audio_hz)
    || not (p.encoding == 1) && not (p.encoding == 3)
    || p.encoding == 3 && not (p.bits == 32)
    || not (p.bits == 8) && not (p.bits == 16) && not (p.bits == 24) && not (p.bits == 32)
    || not (p.block == p.channels * (p.bits / 8))
    || not (get_u32 p.fmt 8 == audio_hz * p.block))

unfoldable pub format_known : Parser → Parser × Bool
format_known p = if format_ok p then (record p { fmt_seen = true }, true) else (p, false)

abbrev pub read_format : Parser → Parser
read_format p = record p {
  encoding = get_u16 p.fmt 0;
  channels = get_u16 p.fmt 2;
  block = get_u16 p.fmt 12;
  bits = get_u16 p.fmt 14;
}

unfoldable pub format_done : Parser → Parser × Bool
format_done p =
    let q = read_format p in
    let known = format_known q in
    let extended = format_known (record q { encoding = get_u32 q.fmt 24 }) in
    if ltb p.fmt_used 16
    then (p, false)
    else if not (q.encoding == 65534)
    then known
    else if extensible_ok q
    then extended
    else (q, false)

-- Division of signed integers in C, which truncates toward zero; the divisor is positive.
abbrev pub truncated : ℤ → ℕ → ℤ
truncated a d = sub_ℕ (pos_part a / d) (neg_part a / d)

-- The little-endian word of `width` bytes at an offset.
abbrev pub raw_at : List ℕ → ℕ → ℕ → ℕ
raw_at p i zero = 0
raw_at p i (suc width) = get_or p i 0 + 256 * raw_at p (i + 1) width

-- An IEEE binary32 pattern as PCM16; `none` for NaN and the infinities.
unfoldable pub sample_float : ℕ → Option ℤ
sample_float raw =
    let magnitude = raw % 2 ^ 31 in
    let negative = has_bit raw 31 in
    let exponent = magnitude / 2 ^ 23 in
    let pcm =
      if ltb exponent 112 then 0 else (magnitude % 2 ^ 23 + 2 ^ 23) / 2 ^ (135 - exponent) in
    if raw / 2 ^ 23 % 256 == 255
    then none
    else if leb 0x3f800000 magnitude
    then some (if negative then negsuc 32767 else pos 32767)
    else some (if negative then neg_ℤ (pos pcm) else pos pcm)

-- PCM of more than 8 bits.
unfoldable pub sample_pcm : ℕ → ℕ → ℤ
sample_pcm bits raw =
    let x = if has_bit raw (bits - 1) then sub_ℕ raw (2 ^ bits) else pos raw in
    truncated x (2 ^ (bits - 16))

-- `sample(p + i, &value)`
unfoldable pub sample : Parser → ℕ → Option ℤ
sample p i =
    let raw = raw_at p.frame i (p.bits / 8) in
    if p.encoding == 3
    then sample_float raw
    else if p.bits == 8
    then some (sub_ℕ (raw * 256) (128 * 256))
    else some (sample_pcm p.bits raw)

-- The loop of `emit_frame` over the channels that are left, from channel `ch` on.
abbrev pub sum_channels : Parser → ℕ → ℕ → Option ℤ
sum_channels p ch zero = some (pos 0)
sum_channels p ch (suc n) = do
  value ← sample p (ch * (p.bits / 8))
  rest ← sum_channels p (ch + 1) n
  some (value +ℤ rest)

module _ {W : Type 0} (io : TxBram W) where
  -- The end of `emit_frame`, after the sum of the channels.
  unfoldable pub emit_pcm : Parser → ℕ → W → Parser × Bool × W
  emit_pcm p pcm w =
      let q = record p { pcm_crc = crc_byte (crc_byte p.pcm_crc (pcm % 256)) (pcm / 256) } in
      let (written, w') = io.write (q.samples / 2) (q.pending_word + pcm * 65536) w in
      if leb io.capacity p.samples
      then (p, false, w)
      else if q.samples % 2 == 0
      then (record q { pending_word = pcm; samples = u32 (q.samples + 1); frame_used = 0 }, true, w)
      else if written
      then (record q { samples = u32 (q.samples + 1); frame_used = 0 }, true, w')
      else (q, false, w')

  unfoldable pub emit_sum : Parser → Option ℤ → W → Parser × Bool × W
  emit_sum p none w = (p, false, w)
  emit_sum p (some sum) w = emit_pcm p (unsigned32 (truncated sum p.channels) % 65536) w

  unfoldable pub emit_frame : Parser → W → Parser × Bool × W
  emit_frame p w = emit_sum p (sum_channels p 0 p.channels) w

  unfoldable pub feed_riff : Parser → ℕ → W → Parser × Bool × W
  feed_riff p byte w =
      let q = record p { header = set p.header p.used byte; used = p.used + 1 } in
      if not (q.used == 12)
      then (q, true, w)
      else if not (same_bytes q.header 0 (0x52 ∷ 0x49 ∷ 0x46 ∷ 0x46 ∷ []))
          || not (same_bytes q.header 8 (0x57 ∷ 0x41 ∷ 0x56 ∷ 0x45 ∷ []))
          || not (get_u32 q.header 4 + 8 == q.file_bytes)
      then (q, false, w)
      else (record q { at = chunk_header; used = 0 }, true, w)

  -- What a chunk of `n` bytes starts, by its name.
  unfoldable pub open_format : Parser → ℕ → Parser × Bool
  open_format p n =
      if p.fmt_seen || ltb n 16 then (p, false) else (record p { fmt_used = 0; at = format }, true)

  unfoldable pub open_data : Parser → ℕ → Parser × Bool
  open_data p n =
      if not p.fmt_seen
        || p.data_seen
        || n == 0
        || not (n % p.block == 0)
        || ltb io.capacity (n / p.block)
      then (p, false)
      else (record p { at = audio_data }, true)

  unfoldable pub open_other : Parser → ℕ → Parser × Bool
  open_other p n = let q = record p { at = skip } in (if n == 0 then chunk_done q else q, true)

  unfoldable pub open_chunk : Parser → ℕ → Parser × Bool
  open_chunk p n =
      if same_bytes p.header 0 (0x66 ∷ 0x6d ∷ 0x74 ∷ 0x20 ∷ [])
      then open_format p n
      else if same_bytes p.header 0 (0x64 ∷ 0x61 ∷ 0x74 ∷ 0x61 ∷ [])
      then open_data p n
      else open_other p n

  unfoldable pub feed_chunk : Parser → ℕ → W → Parser × Bool × W
  feed_chunk p byte w =
      let q = record p { header = set p.header p.used byte; used = p.used + 1 } in
      let n = get_u32 q.header 4 in
      let (opened, passed) = open_chunk (record q { remaining = n; chunk_bytes = n; used = 0 }) n in
      if not (q.used == 8)
      then (q, true, w)
      else if ltb (sub32 q.file_bytes q.received) (n + n % 2)
      then (q, false, w)
      else (opened, passed, w)

  -- The case FORMAT up to the test of the count.
  unfoldable pub format_byte : Parser → ℕ → Parser
  format_byte p byte =
      if ltb p.fmt_used 40
      then record p {
        fmt = set p.fmt p.fmt_used byte;
        fmt_used = p.fmt_used + 1;
        remaining = sub32 p.remaining 1;
      }
      else record p { remaining = sub32 p.remaining 1 }

  unfoldable pub feed_format : Parser → ℕ → W → Parser × Bool × W
  feed_format p byte w =
      let q = format_byte p byte in
      let (known, passed) = format_done q in
      if not (q.remaining == 0)
      then (q, true, w)
      else if passed
      then (chunk_done known, true, w)
      else (known, false, w)

  -- The end of the case AUDIO_DATA, after the frame.
  unfoldable pub data_counted : Parser → Parser
  data_counted p =
      let q = record p { remaining = sub32 p.remaining 1 } in
      if q.remaining == 0 then chunk_done (record q { data_seen = true }) else q

  unfoldable pub feed_data : Parser → ℕ → W → Parser × Bool × W
  feed_data p byte w =
      let q = record p { frame = set p.frame p.frame_used byte; frame_used = p.frame_used + 1 } in
      let (emitted, passed, w') = emit_frame q w in
      if not (q.frame_used == q.block)
      then (data_counted q, true, w)
      else if passed
      then (data_counted emitted, true, w')
      else (emitted, false, w')

  unfoldable pub feed_skip : Parser → W → Parser × Bool × W
  feed_skip p w =
      let q = record p { remaining = sub32 p.remaining 1 } in
      (if q.remaining == 0 then chunk_done q else q, true, w)

  abbrev pub feed_phase : Phase → Parser → ℕ → W → Parser × Bool × W
  feed_phase riff_header p byte w = feed_riff p byte w
  feed_phase chunk_header p byte w = feed_chunk p byte w
  feed_phase format p byte w = feed_format p byte w
  feed_phase audio_data p byte w = feed_data p byte w
  feed_phase skip p byte w = feed_skip p w
  feed_phase pad p byte w = (record p { at = chunk_header; used = 0 }, true, w)

  -- `feed(byte)`
  unfoldable pub feed : Parser → ℕ → W → Parser × Bool × W
  feed p byte w = feed_phase p.at p byte w
