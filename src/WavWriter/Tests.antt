-- ===== src/WavWriter/Tests.antt =====
-- A recording of one frame.
use air_born_sonar.Common.{
  ℕ, ◌+◌, ◌≡◌, refl, List, [], ◌∷◌, none, some, arith, if◌then◌else◌, ltb, replicate,
  length-replicate,
}
use air_born_sonar.WavWriter.{Converter, processing_make_wav, total_bytes, data_bytes}
use air_born_sonar.WavWriter.Layout.{Made, Fits, processing_make_wav_lem}

abbrev pcm_to : Converter ℕ
pcm_to pdm capacity w = (if ltb capacity 16 then none else some (1, replicate 32 7), w + 1)

pcm_to-Fits : Fits pcm_to
pcm_to-Fits pdm capacity w frames pcm e = ground arith

abbrev buffer : List ℕ
buffer = replicate 153644 0

whole_capture : total_bytes 4800 ≡ 153644
unfolding total_bytes data_bytes
whole_capture = refl

processing_make_wav_lem_example :
    Made buffer
      (some (1, replicate 32 7))
      (processing_make_wav pcm_to (λ w. (w, w + 1)) (1 ∷ 2 ∷ 3 ∷ 4 ∷ []) buffer 5).0
processing_make_wav_lem_example =
    processing_make_wav_lem pcm_to (λ w. (w, w + 1)) (1 ∷ 2 ∷ 3 ∷ 4 ∷ []) buffer 5 pcm_to-Fits
      (length-replicate {A = ℕ} 153644 0)
