-- ===== src/WaveformUpload/Transfer.antt =====
-- A whole upload of firmware/src/sonar_waveform_upload.c: begin, data in pieces, commit.
use air_born_sonar.Common.{
  ℕ, ◌≤◌, ◌≡◌, refl, ap, Bool, true, false, List, [], ◌∷◌, ◌++◌, arith, length, length-append, take,
  u32_max, if◌then◌else◌,
}
use mathlib.Core.List.{append_assoc, append-nil}
use air_born_sonar.Crc32.{crc_bytes, crc_bytes-append, crc32}
use air_born_sonar.ExperimentConfig.{wav_file_max_bytes}
use air_born_sonar.WavParser.{TxBram}
use air_born_sonar.WaveformUpload.{Upload, begin, append, commit}
use air_born_sonar.WaveformUpload.Integrity.{append_loop-counts}

abbrev pub concat : List (List ℕ) → List ℕ
concat [] = []
concat (a ∷ as') = a ++ concat as'

take_all : (a : List ℕ) → take (length a) a ≡ a
take_all [] = refl
take_all (x ∷ a) = ap (λ r. x ∷ r) (take_all a)

-- The bytes that an upload has taken since its begin.
abbrev HasTaken : Upload → ℕ → ℕ → List ℕ → Type 0
HasTaken u n crc taken =
    (u.parser.received ≡ length taken)
    × (length taken ≤ n)
    × (n ≤ wav_file_max_bytes)
    × (u.parser.file_bytes ≡ n)
    × (u.parser.file_crc ≡ crc_bytes u32_max taken)
    × (u.parser.expected_crc ≡ crc)

module _ {W : Type 0} (io : TxBram W) where
  -- The pieces one after the other, each at the offset that the upload has reached, up to the first
  -- that is refused.
  abbrev pub send : List (List ℕ) → Upload × W → Upload × Bool × W
  send [] (u, w) = (u, true, w)
  send (a ∷ as') (u, w) =
      let (u', accepted, w') = append io u u.parser.received a w in
      let rest = send as' (u', w') in if accepted then rest else (u', false, w')

  begin-HasTaken :
      (u : Upload) (n crc : ℕ) (w : W)
      → (begin io u n crc w).1 ≡ true
      → HasTaken (begin io u n crc w).0 n crc []
  unfolding begin crc_bytes
  begin-HasTaken u n crc w h = ground arith

  append-HasTaken :
      (u : Upload) (n crc : ℕ) (taken a : List ℕ) (w : W)
      → HasTaken u n crc taken
      → (append io u u.parser.received a w).1 ≡ true
      → HasTaken (append io u u.parser.received a w).0 n crc (taken ++ a)
  unfolding append
  append-HasTaken u n crc taken a w t h = ground (
    arith,
    append_loop-counts io u.parser a w,
    length-append taken a,
    crc_bytes-append u32_max taken a,
  )

  send-HasTaken :
      (as' : List (List ℕ)) (u : Upload) (n crc : ℕ) (taken : List ℕ) (w : W)
      → HasTaken u n crc taken
      → (send as' (u, w)).1 ≡ true
      → HasTaken (send as' (u, w)).0 n crc (taken ++ concat as')
  send-HasTaken [] u n crc taken w t h = rw (append-nil taken) t
  send-HasTaken (a ∷ as') u n crc taken w t h =
      let (u', accepted, w') = append io u u.parser.received a w in
      ground (
        arith,
        append-HasTaken u n crc taken a w t,
        send-HasTaken as' u' n crc (taken ++ a) w',
        append_assoc taken a (concat as'),
      )

  commit_lem :
      (u : Upload) (n crc : ℕ) (taken : List ℕ) (w : W)
      → HasTaken u n crc taken
      → (commit io u w).1 ≡ true
      → (length taken ≡ n) × (crc32 taken n ≡ crc)
  unfolding commit crc32
  commit_lem u n crc taken w t h = ground (arith, take_all taken)

  -- What is committed is what was announced: when a begin, the pieces sent after it and the commit are
  -- all accepted, the pieces together have exactly the announced length and their CRC-32 is the
  -- announced one.
  pub commit_intact :
      (u : Upload) (n crc : ℕ) (as' : List (List ℕ)) (w : W)
      → (begin io u n crc w).1 ≡ true
      → let (u₁, _, w₁) = begin io u n crc w in
        (send as' (u₁, w₁)).1 ≡ true
        → (commit io (send as' (u₁, w₁)).0 (send as' (u₁, w₁)).2).1 ≡ true
        → (length (concat as') ≡ n) × (crc32 (concat as') n ≡ crc)
  commit_intact u n crc as' w b s c =
      let (u₁, begun, w₁) = begin io u n crc w in
      commit_lem (send as' (u₁, w₁)).0 n crc (concat as') (send as' (u₁, w₁)).2
        (send-HasTaken as' u₁ n crc [] w₁ (begin-HasTaken u n crc w b) s) c
