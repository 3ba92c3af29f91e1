-- ===== src/Speaker/Progress.antt =====
-- The writes of firmware/src/sonar_codec_service.c, and their acknowledgements, over a sequence of calls.
use air_born_sonar.Common.{ℕ, ◌+◌, ◌≡◌, ◌≢◌, ◌⊎◌, true, List, ◌++◌}
use air_born_sonar.Speaker.{fault, SpeakerIo, Speaker}
use air_born_sonar.Speaker.Sending.{table, due, Logs}

module _ {W : Type 0} (io : SpeakerIo W) (sent : W → List (ℕ × List ℕ × ℕ))
    (logs : Logs io sent) where
  -- What was sent, in FAULT too: the writes that are acknowledged, and perhaps the next one.
  abbrev Begun : List (ℕ × List ℕ × ℕ) → Speaker → W → Type 0
  Begun base s w =
      (sent w ≡ base ++ table s.config s.index) ⊎ (sent w ≡ base ++ table s.config (s.index + 1))

  -- After `n` acknowledgements, with `base` for what was sent before.
  abbrev Prog : List (ℕ × List ℕ × ℕ) → ℕ → Speaker → W → Type 0
  Prog base n s w =
      (s.index ≡ n)
      × (s.output_enabled ≡ true → s.index ≡ 10)
      × (s.state ≢ fault → sent w ≡ base ++ table s.config (due s))
      × (s.state ≢ fault → s.token ≡ due s)
      × Begun base s w
