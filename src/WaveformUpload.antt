-- ===== src/WaveformUpload.antt =====
-- The commands of firmware/src/sonar_waveform_upload.c: one upload at a time, in one buffer.
pub mod Integrity
pub mod Transfer
mod Tests
use air_born_sonar.Common.{
  ℕ, ◌+◌, ◌-◌, ◌/◌, ◌%◌, Bool, true, false, not, ◌&&◌, ◌||◌, List, [], ◌∷◌, if◌then◌else◌, ◌==◌,
  ltb, leb, length, sub32, not32, u32, u32_max,
}
use air_born_sonar.Crc32.{crc_byte}
use air_born_sonar.ExperimentConfig.{wav_file_max_bytes}
use air_born_sonar.WavParser.{TxBram, Phase, chunk_header, riff_header, Parser, zero_parser, feed}

-- The static variables of the file.
pub record Upload : Type 0 where
  pub parser : Parser
  pub current_id : ℕ
  pub next_id : ℕ
  pub current_samples : ℕ
  pub current_crc : ℕ
  pub uploading : Bool
  pub locked : Bool

abbrev pub zeroed : Upload
zeroed = record {
  parser = zero_parser;
  current_id = 0;
  next_id = 0;
  current_samples = 0;
  current_crc = 0;
  uploading = false;
  locked = false;
}

abbrev pub is_chunk_header : Phase → Bool
is_chunk_header chunk_header = true
is_chunk_header _ = false

module _ {W : Type 0} (io : TxBram W) where
  unfoldable pub begin : Upload → ℕ → ℕ → W → Upload × Bool × W
  begin u bytes crc w =
      let (ready, w') = io.init w in
      if u.locked
        || u.uploading
        || ltb bytes 44
        || ltb wav_file_max_bytes bytes
        || u.next_id == u32_max
      then (u, false, w)
      else if not ready
      then (u, false, w')
      else (
        record u {
          current_id = 0;
          current_samples = 0;
          current_crc = 0;
          parser = record zero_parser {
            at = riff_header;
            file_bytes = bytes;
            expected_crc = crc;
            file_crc = u32_max;
            pcm_crc = u32_max;
          };
          uploading = true;
        },
        true,
        w',
      )

  -- One round of the loop of `sonar_waveform_append`, before `feed`.
  abbrev pub count_byte : Parser → ℕ → Parser
  count_byte p byte = record p {
    received = u32 (p.received + 1);
    file_crc = crc_byte p.file_crc byte;
  }

  -- The loop of `sonar_waveform_append`.
  unfoldable pub append_loop : Parser → List ℕ → W → Parser × Bool × W
  append_loop p [] w = (p, true, w)
  append_loop p (byte ∷ bytes) w =
      let (p', fed, w') = feed io (count_byte p byte) byte w in
      let rest = append_loop p' bytes w' in if fed then rest else (p', false, w')

  -- The list stands for `data[0 .. bytes - 1]`.
  unfoldable pub append : Upload → ℕ → List ℕ → W → Upload × Bool × W
  append u offset data' w =
      let (p', fed, w') = append_loop u.parser data' w in
      if u.locked
        || not u.uploading
        || length data' == 0
        || not (offset == u.parser.received)
        || ltb (sub32 u.parser.file_bytes u.parser.received) (length data')
      then (u, false, w)
      else (record u { parser = p'; uploading = fed }, fed, w')

  unfoldable pub commit : Upload → W → Upload × Bool × W
  commit u w =
      let p = u.parser in
      let (written, w') = io.write (p.samples / 2) p.pending_word w in
      let done = record u {
        next_id = u32 (u.next_id + 1);
        current_id = u32 (u.next_id + 1);
        current_samples = p.samples;
        current_crc = not32 p.pcm_crc;
        uploading = false;
      } in
      if u.locked
        || not u.uploading
        || not (p.received == p.file_bytes)
        || not p.fmt_seen
        || not p.data_seen
        || not (is_chunk_header p.at)
        || not (p.used == 0)
        || not (p.frame_used == 0)
        || p.samples == 0
      then (u, false, w)
      else if not (not32 p.file_crc == p.expected_crc)
      then (record u { uploading = false }, false, w)
      else if p.samples % 2 == 0
      then (done, true, w)
      else if written
      then (done, true, w')
      else (u, false, w')

unfoldable pub cancel : Upload → Upload
cancel u = record u { uploading = false; parser = record u.parser { received = 0 } }

unfoldable pub lock : Upload → Bool → Upload
lock u value = record u { locked = value }
