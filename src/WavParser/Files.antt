-- ===== src/WavParser/Files.antt =====
-- What the parser of firmware/src/sonar_waveform_upload.c leaves to the upload.
use air_born_sonar.Common.{ℕ, ◌≡◌, arith}
use air_born_sonar.ControlProtocol.{get_u32}
use air_born_sonar.WavParser.{
  TxBram, Parser, chunk_done, read_format, format_known, format_done, emit_pcm, emit_sum,
  emit_frame, feed_riff, open_format, open_data, open_other, open_chunk, feed_chunk, format_byte,
  feed_format, data_counted, feed_data, feed_skip, feed,
}

-- What `feed` never changes.
abbrev pub SameFile : Parser → Parser → Type 0
SameFile p p' =
    (p'.received ≡ p.received)
    × (p'.file_bytes ≡ p.file_bytes)
    × (p'.file_crc ≡ p.file_crc)
    × (p'.expected_crc ≡ p.expected_crc)

format_known-SameFile : (p : Parser) → SameFile p (format_known p).0
unfolding format_known
format_known-SameFile p = ground arith

format_done-SameFile : (p : Parser) → SameFile p (format_done p).0
unfolding format_done
format_done-SameFile p =
    let q = read_format p in
    ground (
      arith,
      format_known-SameFile q,
      format_known-SameFile (record q { encoding = get_u32 q.fmt 24 }),
    )

chunk_done-SameFile : (p : Parser) → SameFile p (chunk_done p)
unfolding chunk_done
chunk_done-SameFile p = ground arith

module _ {W : Type 0} (io : TxBram W) where
  emit_frame-SameFile : (p : Parser) (w : W) → SameFile p (emit_frame io p w).0
  unfolding emit_frame emit_sum emit_pcm
  emit_frame-SameFile p w = ground arith

  open_chunk-SameFile : (p : Parser) (n : ℕ) → SameFile p (open_chunk io p n).0
  unfolding open_chunk open_format open_data open_other chunk_done
  open_chunk-SameFile p n = ground arith

  pub feed-SameFile : (p : Parser) (byte : ℕ) (w : W) → SameFile p (feed io p byte w).0
  unfolding feed feed_riff feed_chunk format_byte feed_format data_counted feed_data feed_skip
  feed-SameFile p byte w =
      grind
        (arith, format_done-SameFile, chunk_done-SameFile, emit_frame-SameFile, open_chunk-SameFile)
