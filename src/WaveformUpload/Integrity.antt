-- ===== src/WaveformUpload/Integrity.antt =====
-- Uploads of firmware/src/sonar_waveform_upload.c: what is committed is what was announced.
use air_born_sonar.Common.{
  ℕ, ◌+◌, ◌≤◌, ◌<◌, ◌≡◌, ◌≢◌, refl, Bool, true, List, [], ◌∷◌, ◌++◌, arith, length, length-append,
  u32_max,
}
use air_born_sonar.Crc32.{crc_bytes}
use air_born_sonar.ExperimentConfig.{wav_file_max_bytes}
use air_born_sonar.WavParser.{TxBram, Parser, feed}
use air_born_sonar.WavParser.Buffers.{InBounds, feed-InBounds}
use air_born_sonar.WavParser.{zero_parser}
use air_born_sonar.WavParser.Files.{feed-SameFile}
use air_born_sonar.WaveformUpload.{
  Upload, begin, count_byte, append_loop, append, commit, cancel, lock,
}

append_loop-append :
    {W : Type 0} (io : TxBram W) (p : Parser) (a b : List ℕ) (w : W)
    → (append_loop io p (a ++ b) w).1 ≡ true
    → ((append_loop io p a w).1 ≡ true)
      × (append_loop io p (a ++ b) w
          ≡ append_loop io (append_loop io p a w).0 b (append_loop io p a w).2)
unfolding append_loop
append_loop-append io p [] b w h = (refl, refl)
append_loop-append io p (x ∷ a) b w h =
    let (p', fed, w') = feed io (count_byte io p x) x w in
    ground (arith, append_loop-append io p' a b w')

-- What the loop leaves of the file, when every byte is accepted.
pub append_loop-counts :
    {W : Type 0} (io : TxBram W) (p : Parser) (a : List ℕ) (w : W)
    → (append_loop io p a w).1 ≡ true
    → p.received + length a ≤ u32_max
    → let p' = (append_loop io p a w).0 in
      (p'.received ≡ p.received + length a)
      × (p'.file_bytes ≡ p.file_bytes)
      × (p'.file_crc ≡ crc_bytes p.file_crc a)
      × (p'.expected_crc ≡ p.expected_crc)
unfolding append_loop crc_bytes
append_loop-counts io p [] w h l = ground arith
append_loop-counts io p (x ∷ a) w h l =
    let (p', fed, w') = feed io (count_byte io p x) x w in
    grind (arith, feed-SameFile io (count_byte io p x) x w, append_loop-counts io p' a w')

append_loop-InBounds :
    {W : Type 0} (io : TxBram W) (p : Parser) (a : List ℕ) (w : W)
    → InBounds io.capacity p
    → (append_loop io p a w).1 ≡ true
    → InBounds io.capacity (append_loop io p a w).0
unfolding append_loop
append_loop-InBounds io p [] w b h = b
append_loop-InBounds io p (x ∷ a) w b h =
    let (p', fed, w') = feed io (count_byte io p x) x w in
    ground (arith, feed-InBounds io (count_byte io p x) x w, append_loop-InBounds io p' a w')

-- Taking data in two parts does what taking it whole does: when an append is accepted, so is an
-- append of any first part of its data, and an append of the rest, at the offset where the first
-- part ended, then gives the same upload, the same answer and the same playback memory.
pub append-split :
    {W : Type 0} (io : TxBram W) (u : Upload) (offset : ℕ) (a b : List ℕ) (w : W)
    → 0 < length a
    → 0 < length b
    → u.parser.received ≤ u.parser.file_bytes
    → u.parser.file_bytes ≤ wav_file_max_bytes
    → (append io u offset (a ++ b) w).1 ≡ true
    → let (u', accepted, w') = append io u offset a w in
      (accepted ≡ true) × (append io u' (offset + length a) b w' ≡ append io u offset (a ++ b) w)
unfolding append
append-split io u offset a b w ha hb hr hf h = ground (
  arith,
  length-append a b,
  append_loop-append io u.parser a b w,
  append_loop-counts io u.parser a w,
)

-- The upload between calls. While one runs, the parser is inside its buffers, no more is received
-- than was announced, and no waveform is offered. An offered waveform is not empty and fits the
-- playback memory. Its identity is at most the last one given out.
pub record IsSound (capacity : ℕ) (u : Upload) : Type 0 where
  pub inside : u.uploading ≡ true → InBounds capacity u.parser
  pub counted : u.uploading ≡ true → u.parser.received ≤ u.parser.file_bytes
  pub sized : u.uploading ≡ true → u.parser.file_bytes ≤ wav_file_max_bytes
  pub withheld : u.uploading ≡ true → (u.current_id ≡ 0) × (u.next_id < u32_max)
  pub offered : u.current_id ≢ 0 → (0 < u.current_samples) × (u.current_samples ≤ capacity)
  pub named : (u.current_id ≤ u.next_id) × (u.next_id ≤ u32_max)

pub data Call : Type 0 where
  begin_call : ℕ → ℕ → Call
  append_call : ℕ → List ℕ → Call
  commit_call cancel_call : Call
  lock_call : Bool → Call

begin_parser-InBounds :
    (capacity bytes crc : ℕ)
    → InBounds capacity (record zero_parser {
      file_bytes = bytes;
      expected_crc = crc;
      file_crc = u32_max;
      pcm_crc = u32_max;
    })
begin_parser-InBounds capacity bytes crc = ground arith

pub cancel-IsSound : (capacity : ℕ) (u : Upload) → IsSound capacity u → IsSound capacity (cancel u)
unfolding cancel
cancel-IsSound capacity u v = ground arith

pub lock-IsSound :
    (capacity : ℕ) (u : Upload) (value : Bool)
    → IsSound capacity u
    → IsSound capacity (lock u value)
unfolding lock
lock-IsSound capacity u value v = ground arith

module _ {W : Type 0} (io : TxBram W) where
  abbrev pub step : Call → Upload × W → Upload × W
  step (begin_call n crc) (u, w) = ((begin io u n crc w).0, (begin io u n crc w).2)
  step (append_call offset a) (u, w) = ((append io u offset a w).0, (append io u offset a w).2)
  step commit_call (u, w) = ((commit io u w).0, (commit io u w).2)
  step cancel_call (u, w) = (cancel u, w)
  step (lock_call value) (u, w) = (lock u value, w)

  abbrev pub run : List Call → Upload × W → Upload × W
  run [] s = s
  run (e ∷ es) s = run es (step e s)

  pub begin-IsSound :
      (u : Upload) (n crc : ℕ) (w : W)
      → IsSound io.capacity u
      → IsSound io.capacity (begin io u n crc w).0
  unfolding begin
  begin-IsSound u n crc w v = ground (arith, begin_parser-InBounds io.capacity n crc)

  pub append-IsSound :
      (u : Upload) (offset : ℕ) (a : List ℕ) (w : W)
      → IsSound io.capacity u
      → IsSound io.capacity (append io u offset a w).0
  unfolding append
  append-IsSound u offset a w v =
      ground (arith, append_loop-counts io u.parser a w, append_loop-InBounds io u.parser a w)

  pub commit-IsSound :
      (u : Upload) (w : W) → IsSound io.capacity u → IsSound io.capacity (commit io u w).0
  unfolding commit
  commit-IsSound u w v = ground arith

  step-IsSound :
      (e : Call) (u : Upload) (w : W)
      → IsSound io.capacity u
      → IsSound io.capacity (step e (u, w)).0
  step-IsSound (begin_call n crc) u w v = begin-IsSound u n crc w v
  step-IsSound (append_call offset a) u w v = append-IsSound u offset a w v
  step-IsSound commit_call u w v = commit-IsSound u w v
  step-IsSound cancel_call u w v = cancel-IsSound io.capacity u v
  step-IsSound (lock_call value) u w v = lock-IsSound io.capacity u value v

  -- Any calls in any order keep the upload sound: the parser inside its buffers, the count within the
  -- announced length, no waveform offered while one is uploaded, an offered one that is not empty and
  -- fits the playback memory, and an identity left for the upload that runs.
  pub upload_run-IsSound :
      (es : List Call) (u : Upload) (w : W)
      → IsSound io.capacity u
      → IsSound io.capacity (run es (u, w)).0
  upload_run-IsSound [] u w v = v
  upload_run-IsSound (e ∷ es) u w v =
      upload_run-IsSound es (step e (u, w)).0 (step e (u, w)).1 (step-IsSound e u w v)
