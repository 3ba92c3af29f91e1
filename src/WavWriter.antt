-- ===== src/WavWriter.antt =====
-- firmware/src/sonar_wav_writer.c and firmware/src/sonar_rx_processing.c: the WAVE file that is made of a
-- recording. The conversion of the recording to samples, and the clock, are an interface.
pub mod Layout
mod Tests
use air_born_sonar.Common.{
  ℕ, ◌+◌, ◌*◌, ◌-◌, ◌/◌, ◌%◌, Bool, true, false, not, ◌||◌, List, [], ◌∷◌, Option, none, some,
  if◌then◌else◌, ltb, u32, take, replicate, write_at, le_bytes4,
}
use air_born_sonar.Frames.{acq_channels, acq_words}

-- `SONAR_PCM_RATE_HZ`, `SONAR_PCM_BITS_PER_SAMPLE`, `SONAR_PDM_DECIMATION` and `SONAR_PCM_SAMPLES` of
-- firmware/src/sonar_pdm_decimator.h
abbrev pub pcm_rate_hz : ℕ
pcm_rate_hz = 96000

abbrev pub pcm_bits_per_sample : ℕ
pcm_bits_per_sample = 16

abbrev pub pdm_decimation : ℕ
pdm_decimation = 25

abbrev pub pcm_samples : ℕ
pcm_samples = acq_words * 2 / pdm_decimation * acq_channels

abbrev pub wav_header_bytes : ℕ
wav_header_bytes = 44

-- `SONAR_WAV_TOTAL_BYTES`
abbrev pub wav_buffer_bytes : ℕ
wav_buffer_bytes = wav_header_bytes + pcm_samples * 2

abbrev pub put_u16le : List ℕ → ℕ → ℕ → List ℕ
put_u16le p i value = write_at i (value % 256 ∷ value / 256 % 256 ∷ []) p

abbrev pub put_u32le : List ℕ → ℕ → ℕ → List ℕ
put_u32le p i value = write_at i (le_bytes4 value) p

unfoldable pub data_bytes : ℕ → ℕ
data_bytes pcm_frames = u32 (pcm_frames * acq_channels * (pcm_bits_per_sample / 8))

unfoldable pub total_bytes : ℕ → ℕ
total_bytes pcm_frames = u32 (wav_header_bytes + data_bytes pcm_frames)

-- `sonar_wav_write_header` after its `memset`
unfoldable pub header_fields : List ℕ → ℕ → List ℕ
header_fields p pcm_frames =
    let bytes = data_bytes pcm_frames in
    let block_align = acq_channels * (pcm_bits_per_sample / 8) in
    let byte_rate = pcm_rate_hz * block_align in
    let p = write_at 0 (0x52 ∷ 0x49 ∷ 0x46 ∷ 0x46 ∷ []) p in
    let p = put_u32le p 4 (u32 (36 + bytes)) in
    let p = write_at 8 (0x57 ∷ 0x41 ∷ 0x56 ∷ 0x45 ∷ []) p in
    let p = write_at 12 (0x66 ∷ 0x6d ∷ 0x74 ∷ 0x20 ∷ []) p in
    let p = put_u16le (put_u16le (put_u32le p 16 16) 20 1) 22 acq_channels in
    let p = put_u32le (put_u32le p 24 pcm_rate_hz) 28 byte_rate in
    let p = put_u16le (put_u16le p 32 block_align) 34 pcm_bits_per_sample in
    let p = write_at 36 (0x64 ∷ 0x61 ∷ 0x74 ∷ 0x61 ∷ []) p in put_u32le p 40 bytes

-- `sonar_wav_write_header` into the first 44 bytes of `out`
unfoldable pub write_header : List ℕ → ℕ → List ℕ
write_header out pcm_frames =
    header_fields (write_at 0 (replicate wav_header_bytes 0) out) pcm_frames

-- What `sonar_processing_make_wav` writes through its pointers, with `wav_buffer`.
pub record Wav : Type 0 where
  pub buffer : List ℕ
  pub bytes : ℕ
  pub pcm_frames : ℕ

-- `pcm_to` is `sonar_pdm_to_pcm16_interleaved`: for a recording and a capacity in samples, the number of
-- frames and the bytes of the samples that it wrote.
abbrev pub Converter : Type 0 → Type 0
Converter W = List ℕ → ℕ → W → Option (ℕ × List ℕ) × W

pub wav_made : List ℕ → Option (ℕ × List ℕ) → Option Wav × List ℕ
wav_made buffer none = (none, buffer)
wav_made buffer (some (frames, pcm)) =
    let converted = write_at wav_header_bytes pcm buffer in
    let total = total_bytes frames in
    if ltb wav_buffer_bytes total
    then (none, converted)
    else let buffer' = write_header converted frames in
      (some (record { buffer = buffer'; bytes = total; pcm_frames = frames }), buffer')

module _ {W : Type 0} (pcm_to : Converter W) (clock_us : W → ℕ × W) where
  -- `sonar_processing_make_wav`, in the build that measures its time
  unfoldable pub processing_make_wav : List ℕ → List ℕ → W → (Option Wav × List ℕ) × W
  processing_make_wav pdm buffer w =
      let (began, w₁) = clock_us w in
      let (r, w₂) = pcm_to pdm ((wav_buffer_bytes - wav_header_bytes) / 2) w₁ in
      let (ended, w₃) = clock_us w₂ in (wav_made buffer r, w₃)
