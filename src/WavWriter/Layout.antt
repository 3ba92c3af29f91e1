-- ===== src/WavWriter/Layout.antt =====
-- The layout of the WAVE files of firmware/src/sonar_wav_writer.c.
use air_born_sonar.Common.{
  ℕ, ◌+◌, ◌*◌, ◌≤◌, ◌<◌, ◌≡◌, refl, sym, false, ◌∙◌, ap, List, Option, none, some, arith, get_or,
  le_word4, le_bytes4_sum, take, drop, length, write_at, replicate, ◌++◌, ltb, overlay-append,
  drop-write_at, length-write_at, length-drop, take-overlay, ◌⊎◌, inl, inr,
}
use air_born_sonar.WavWriter.{
  data_bytes, total_bytes, write_header, header_fields, wav_buffer_bytes, Wav, Converter, wav_made,
  processing_make_wav,
}

abbrev pub le_word2 : List ℕ → ℕ → ℕ
le_word2 p i = get_or p i 0 + get_or p (i + 1) 0 * 256

-- What a reader of the file finds: RIFF and WAVE with the size of the file, a chunk of 16-bit samples of
-- 16 channels at 96 kHz, and the samples up to the end of the file.
pub record IsWave (frames bytes : ℕ) (file : List ℕ) : Type 0 where
  pub riff : le_word4 file 0 ≡ 0x46464952
  pub riff_size : le_word4 file 4 + 8 ≡ bytes
  pub wave : le_word4 file 8 ≡ 0x45564157
  pub fmt : (le_word4 file 12 ≡ 0x20746d66) × (le_word4 file 16 ≡ 16)
  pub format : (le_word2 file 20 ≡ 1) × (le_word2 file 22 ≡ 16)
  pub rate : (le_word4 file 24 ≡ 96000) × (le_word4 file 28 ≡ 96000 * 32)
  pub sample : (le_word2 file 32 ≡ 32) × (le_word2 file 34 ≡ 16)
  pub data_chunk : le_word4 file 36 ≡ 0x61746164
  pub data_size : le_word4 file 40 + 44 ≡ bytes
  pub frame_count : le_word4 file 40 ≡ frames * 32

fields-IsWave :
    (rest : List ℕ) (frames : ℕ)
    → frames < 100000
    → IsWave frames (total_bytes frames) (header_fields (replicate 44 0 ++ rest) frames)
unfolding header_fields data_bytes total_bytes
fields-IsWave rest frames f = record {
  riff = refl;
  riff_size = ap (λ n. n + 8) (le_bytes4_sum _ (omega arith)) ∙ omega arith;
  wave = refl;
  fmt = (refl, refl);
  format = (refl, refl);
  rate = (refl, refl);
  sample = (refl, refl);
  data_chunk = refl;
  data_size = ap (λ n. n + 44) (le_bytes4_sum _ (omega arith)) ∙ omega arith;
  frame_count = le_bytes4_sum _ (omega arith) ∙ omega arith;
}

drop-fields :
    (rest : List ℕ) (frames : ℕ) → drop 44 (header_fields (replicate 44 0 ++ rest) frames) ≡ rest
unfolding header_fields
drop-fields rest frames = refl

-- What a header is in front of.
header_over :
    (out : List ℕ) (frames : ℕ)
    → 44 ≤ length out
    → write_header out frames ≡ header_fields (replicate 44 0 ++ drop 44 out) frames
unfolding write_header
header_over out frames l = ap (λ p. header_fields p frames) (overlay-append (replicate 44 0) out l)

-- The conversion fills whole frames of 16 samples, within the capacity that it is given.
abbrev pub Fits : {W : Type 0} → Converter W → Type 0
Fits {W} pcm_to =
    (pdm : List ℕ) (capacity : ℕ) (w : W) (frames : ℕ) (pcm : List ℕ)
    → (pcm_to pdm capacity w).0 ≡ some (frames, pcm)
    → (length pcm ≡ frames * 32) × (frames * 16 ≤ capacity)

-- A file with its samples.
abbrev pub Holds : Wav → ℕ × List ℕ → Type 0
Holds wav (frames, pcm) =
    (wav.pcm_frames ≡ frames)
    × (wav.bytes ≡ length pcm + 44)
    × IsWave frames wav.bytes wav.buffer
    × (take (length pcm) (drop 44 wav.buffer) ≡ pcm)

total_bytes_lem : (frames : ℕ) → frames < 100000 → total_bytes frames ≡ frames * 32 + 44
unfolding total_bytes data_bytes
total_bytes_lem frames f = omega arith

samples_lem :
    (pcm buffer : List ℕ) (frames : ℕ)
    → length pcm + 44 ≤ length buffer
    → let out = write_at 44 pcm buffer in
      (take (length pcm) (drop 44 (write_header out frames)) ≡ pcm)
      × (write_header out frames ≡ header_fields (replicate 44 0 ++ drop 44 out) frames)
samples_lem pcm buffer frames l =
    let out = write_at 44 pcm buffer in
    let over = header_over out frames (omega (arith, length-write_at 44 pcm buffer)) in
    (
      ap (λ p. take (length pcm) (drop 44 p)) over
          ∙ ap (λ p. take (length pcm) p)
              (drop-fields (drop 44 out) frames ∙ drop-write_at 44 pcm buffer)
          ∙ take-overlay pcm (drop 44 buffer) (omega (arith, length-drop 44 buffer)),
      over,
    )

-- What comes of a conversion.
abbrev pub Made : List ℕ → Option (ℕ × List ℕ) → Option Wav × List ℕ → Type 0
Made buffer converted made =
    (converted ≡ none) × (made ≡ (none, buffer))
    ⊎ ((frames : ℕ) × (pcm : List ℕ) × (wav : Wav) × (converted ≡ some (frames, pcm))
        × (made ≡ (some wav, wav.buffer))
        × Holds wav (frames, pcm))

wav_made_lem :
    (buffer : List ℕ) (converted : Option (ℕ × List ℕ))
    → length buffer ≡ wav_buffer_bytes
    → ((frames : ℕ) (pcm : List ℕ)
        → converted ≡ some (frames, pcm)
        → (length pcm ≡ frames * 32) × (frames * 16 ≤ 76800))
    → Made buffer converted (wav_made buffer converted)
unfolding wav_made
wav_made_lem buffer none l fits = inl (refl, refl)
wav_made_lem buffer (some (frames, pcm)) l fits =
    let (whole, few) = fits frames pcm refl in
    let total = total_bytes_lem frames (omega (arith, few)) in
    let room : ltb wav_buffer_bytes (total_bytes frames) ≡ false = ground (arith, total, few) in
    let out = write_at 44 pcm buffer in
    let buffer' = write_header out frames in
    let (samples, over) = samples_lem pcm buffer frames (omega (arith, l, whole, few)) in
    let wave = fields-IsWave (drop 44 out) frames (omega (arith, few)) in
    let wav : Wav = record { buffer = buffer'; bytes = total_bytes frames; pcm_frames = frames } in
    rw room (
      inr (
        frames,
        pcm,
        wav,
        refl,
        refl,
        (
          refl,
          omega (arith, total, whole),
          coe 0 1 (i. IsWave frames (total_bytes frames) (sym over i)) wave,
          samples,
        ),
      ))

-- Every recording that the conversion accepts becomes a WAVE file: its header gives the size of the file,
-- of the samples and the rate, the samples stand behind it, and it never outgrows the one buffer.
-- A recording that the conversion refuses gives no file.
pub processing_make_wav_lem :
    {W : Type 0} (pcm_to : Converter W) (clock_us : W → ℕ × W) (pdm buffer : List ℕ) (w : W)
    → Fits pcm_to
    → length buffer ≡ wav_buffer_bytes
    → let made = (processing_make_wav pcm_to clock_us pdm buffer w).0 in
      let converted = (pcm_to pdm 76800 (clock_us w).1).0 in Made buffer converted made
unfolding processing_make_wav
processing_make_wav_lem pcm_to clock_us pdm buffer w fits l =
    wav_made_lem buffer (pcm_to pdm 76800 (clock_us w).1).0 l
      (λ frames pcm e. fits pdm 76800 (clock_us w).1 frames pcm e)
