-- ===== src/WavParser/Buffers.antt =====
-- The parser of firmware/src/sonar_waveform_upload.c stays inside its buffers and its counts.
use air_born_sonar.Common.{
  ℕ, ◌+◌, ◌*◌, ◌/◌, ◌≤◌, ◌<◌, ◌≡◌, ◌≢◌, ◌⊎◌, Bool, true, false, Option, none, some, arith, ℤ,
  length, length-set, set,
}
use air_born_sonar.ControlProtocol.{get_u32}
use air_born_sonar.WavParser.{
  TxBram, riff_header, chunk_header, format, audio_data, skip, Parser, chunk_done, read_format,
  format_ok, format_known, format_done, emit_pcm, emit_sum, sum_channels, emit_frame, feed_riff,
  open_format, open_data, open_other, open_chunk, feed_chunk, format_byte, feed_format,
  data_counted, feed_data, feed_skip, feed,
}

-- The arrays keep their sizes, and nothing is written, next, past their ends: a header byte goes
-- below 12 or, in a chunk header, below 8, a format byte below 40 and a sample byte inside a frame
-- of at most 8 bytes. A counter that is decremented is not zero.
pub record InBounds (capacity : ℕ) (p : Parser) : Type 0 where
  pub header : length p.header ≡ 12
  pub fmt : length p.fmt ≡ 40
  pub frame : length p.frame ≡ 8
  pub riff : p.at ≡ riff_header → p.used < 12
  pub chunk : p.at ≡ chunk_header → p.used < 8
  pub fmt_used : p.fmt_used ≤ 40
  pub counted : (p.at ≡ format) ⊎ (p.at ≡ audio_data) ⊎ (p.at ≡ skip) → 0 < p.remaining
  pub block : p.fmt_seen ≡ true → (0 < p.block) × (p.block ≤ 8)
  pub playing :
      p.at ≡ audio_data → (p.fmt_seen ≡ true) × (p.frame_used < p.block) × (p.data_seen ≡ false)
  pub waiting : p.data_seen ≡ false → p.at ≢ audio_data → p.frame_used ≡ 0
  pub formatting : p.at ≡ format → (p.fmt_seen ≡ false)
  pub samples : p.samples ≤ capacity

-- What a good format chunk leaves: a frame is 1 to 8 bytes.
abbrev IsKnown : Parser → Parser → Type 0
IsKnown p p' =
    (p'.at ≡ p.at)
    × (p'.header ≡ p.header)
    × (p'.fmt ≡ p.fmt)
    × (p'.frame ≡ p.frame)
    × (p'.used ≡ p.used)
    × (p'.fmt_used ≡ p.fmt_used)
    × (p'.frame_used ≡ p.frame_used)
    × (p'.remaining ≡ p.remaining)
    × (p'.samples ≡ p.samples)
    × (p'.data_seen ≡ p.data_seen)
    × (0 < p'.block)
    × (p'.block ≤ 8)

block_lem :
    (channels bits block : ℕ)
    → (channels ≡ 1) ⊎ (channels ≡ 2)
    → (bits ≡ 8) ⊎ (bits ≡ 16) ⊎ (bits ≡ 24) ⊎ (bits ≡ 32)
    → block ≡ channels * (bits / 8)
    → (0 < block) × (block ≤ 8)
block_lem channels bits block c b e = ground arith

format_known_lem : (p : Parser) → (format_known p).1 ≡ true → IsKnown p (format_known p).0
unfolding format_known format_ok
format_known_lem p h = ground (arith, block_lem p.channels p.bits p.block)

format_done_lem : (p : Parser) → (format_done p).1 ≡ true → IsKnown p (format_done p).0
unfolding format_done
format_done_lem p h =
    let q = read_format p in
    ground (arith, format_known_lem q, format_known_lem (record q { encoding = get_u32 q.fmt 24 }))

module _ {W : Type 0} (io : TxBram W) where
  abbrev pub Kept : Parser × Bool × W → Type 0
  Kept r = r.1 ≡ true → InBounds io.capacity r.0

  feed_riff-Kept :
      (p : Parser) (byte : ℕ) (w : W)
      → p.at ≡ riff_header
      → InBounds io.capacity p
      → Kept (feed_riff io p byte w)
  unfolding feed_riff
  feed_riff-Kept p byte w a b = ground (arith, length-set p.header p.used byte)

  open_format-InBounds :
      (p : Parser) (n : ℕ)
      → p.at ≡ chunk_header
      → p.remaining ≡ n
      → InBounds io.capacity p
      → (open_format io p n).1 ≡ true
      → InBounds io.capacity (open_format io p n).0
  unfolding open_format
  open_format-InBounds p n a r b o = ground arith

  open_data-InBounds :
      (p : Parser) (n : ℕ)
      → p.at ≡ chunk_header
      → p.remaining ≡ n
      → InBounds io.capacity p
      → (open_data io p n).1 ≡ true
      → InBounds io.capacity (open_data io p n).0
  unfolding open_data
  open_data-InBounds p n a r b o = ground arith

  open_other-InBounds :
      (p : Parser) (n : ℕ)
      → p.at ≡ chunk_header
      → p.remaining ≡ n
      → InBounds io.capacity p
      → InBounds io.capacity (open_other io p n).0
  unfolding open_other chunk_done
  open_other-InBounds p n a r b = ground arith

  open_chunk-InBounds :
      (p : Parser) (n : ℕ)
      → p.at ≡ chunk_header
      → p.remaining ≡ n
      → InBounds io.capacity p
      → (open_chunk io p n).1 ≡ true
      → InBounds io.capacity (open_chunk io p n).0
  unfolding open_chunk
  open_chunk-InBounds p n a r b o = grind (
    arith,
    open_format-InBounds p n a r b,
    open_data-InBounds p n a r b,
    open_other-InBounds p n a r b,
  )

  feed_chunk-Kept :
      (p : Parser) (byte : ℕ) (w : W)
      → p.at ≡ chunk_header
      → InBounds io.capacity p
      → Kept (feed_chunk io p byte w)
  unfolding feed_chunk
  feed_chunk-Kept p byte w a b =
      let header = set p.header p.used byte in
      let n = get_u32 header 4 in
      ground (
        arith,
        length-set p.header p.used byte,
        open_chunk-InBounds (record p { header = header; used = 0; remaining = n; chunk_bytes = n })
            n,
      )

  format_byte-InBounds :
      (p : Parser) (byte : ℕ)
      → p.at ≡ format
      → InBounds io.capacity p
      → let q = format_byte io p byte in
        (q.at ≡ format) × InBounds io.capacity (record q { remaining = 1 })
  unfolding format_byte
  format_byte-InBounds p byte a b = ground (arith, length-set p.fmt p.fmt_used byte)

  feed_format-Kept :
      (p : Parser) (byte : ℕ) (w : W)
      → p.at ≡ format
      → InBounds io.capacity p
      → Kept (feed_format io p byte w)
  unfolding feed_format chunk_done
  feed_format-Kept p byte w a b =
      ground (arith, format_byte-InBounds p byte a b, format_done_lem (format_byte io p byte))

  feed_skip-Kept :
      (p : Parser) (w : W) → p.at ≡ skip → InBounds io.capacity p → Kept (feed_skip io p w)
  unfolding feed_skip chunk_done
  feed_skip-Kept p w a b = ground arith

  -- A frame that is emitted is one more sample, within the capacity; nothing else of the bounds moves.
  abbrev IsEmitted : Parser → Parser → Type 0
  IsEmitted p p' =
      (p'.at ≡ p.at)
      × (p'.header ≡ p.header)
      × (p'.fmt ≡ p.fmt)
      × (p'.frame ≡ p.frame)
      × (p'.used ≡ p.used)
      × (p'.fmt_used ≡ p.fmt_used)
      × (p'.frame_used ≡ 0)
      × (p'.remaining ≡ p.remaining)
      × (p'.samples ≤ io.capacity)
      × (p'.block ≡ p.block)
      × (p'.fmt_seen ≡ p.fmt_seen)
      × (p'.data_seen ≡ p.data_seen)

  emit_pcm_lem :
      (p : Parser) (pcm : ℕ) (w : W)
      → (emit_pcm io p pcm w).1 ≡ true
      → IsEmitted p (emit_pcm io p pcm w).0
  unfolding emit_pcm
  emit_pcm_lem p pcm w h = ground arith

  emit_sum_lem :
      (p : Parser) (sum : Option ℤ) (w : W)
      → (emit_sum io p sum w).1 ≡ true
      → IsEmitted p (emit_sum io p sum w).0
  unfolding emit_sum
  emit_sum_lem p none w h = ground arith
  emit_sum_lem p (some sum) w h = emit_pcm_lem p _ w h

  emit_frame_lem :
      (p : Parser) (w : W) → (emit_frame io p w).1 ≡ true → IsEmitted p (emit_frame io p w).0
  unfolding emit_frame
  emit_frame_lem p w h = emit_sum_lem p (sum_channels p 0 p.channels) w h

  data_counted-InBounds :
      (p : Parser)
      → p.at ≡ audio_data
      → InBounds io.capacity p
      → InBounds io.capacity (data_counted io p)
  unfolding data_counted chunk_done
  data_counted-InBounds p a b = ground arith

  feed_data-Kept :
      (p : Parser) (byte : ℕ) (w : W)
      → p.at ≡ audio_data
      → InBounds io.capacity p
      → Kept (feed_data io p byte w)
  unfolding feed_data
  feed_data-Kept p byte w a b =
      let q = record p { frame = set p.frame p.frame_used byte; frame_used = p.frame_used + 1 } in
      let emitted = (emit_frame io q w).0 in
      ground (
        arith,
        length-set p.frame p.frame_used byte,
        emit_frame_lem q w,
        data_counted-InBounds q,
        data_counted-InBounds emitted,
      )

  pub feed-InBounds :
      (p : Parser) (byte : ℕ) (w : W)
      → InBounds io.capacity p
      → (feed io p byte w).1 ≡ true
      → InBounds io.capacity (feed io p byte w).0
  unfolding feed
  feed-InBounds p byte w b h = ground (
    arith,
    feed_riff-Kept p byte w,
    feed_chunk-Kept p byte w,
    feed_format-Kept p byte w,
    feed_data-Kept p byte w,
    feed_skip-Kept p w,
  )
