-- ===== src/WaveformUpload/Tests.antt =====
-- One upload of a WAVE file of two samples, 16-bit mono, in two pieces.
use air_born_sonar.Common.{
  Bool, ◌*◌, ℕ, ◌+◌, ◌≡◌, refl, true, List, [], ◌∷◌, ◌++◌, arith, length, u32_max, ◌+ℤ◌,
}
use air_born_sonar.Crc32.{crc_byte, crc32}
use air_born_sonar.ControlProtocol.{get_u32}
use air_born_sonar.WavParser.{
  TxBram, zero_parser, chunk_done, format_ok, format_known, format_done, sample_pcm, sample,
  emit_pcm, emit_sum, emit_frame, feed_riff, open_format, open_data, open_chunk, feed_chunk,
  format_byte, feed_format, data_counted, feed_data, feed,
}
use air_born_sonar.WaveformUpload.{Upload, zeroed, begin, append_loop, append, commit}
use air_born_sonar.WaveformUpload.Integrity.{
  IsSound, begin_call, append_call, commit_call, cancel_call, lock_call, run, append-split,
  upload_run-IsSound,
}
use air_born_sonar.WaveformUpload.Transfer.{concat, send, commit_intact}

-- The world is the list of the words written, the last first.
abbrev memory : TxBram (List ℕ)
memory = record {
  capacity = 4704;
  init = λ w. (true, w);
  write = λ pair packed w. (true, packed ∷ w);
}

abbrev riff : List ℕ
riff = 82 ∷ 73 ∷ 70 ∷ 70 ∷ 40 ∷ 0 ∷ 0 ∷ 0 ∷ 87 ∷ 65 ∷ 86 ∷ 69 ∷ []

abbrev chunks : List ℕ
chunks =
    102 ∷ 109 ∷ 116 ∷ 32 ∷ 16 ∷ 0 ∷ 0 ∷ 0 ∷ 1 ∷ 0 ∷ 1 ∷ 0 ∷ 0 ∷ 119 ∷ 1 ∷ 0 ∷ 0 ∷ 238 ∷ 2 ∷ 0 ∷ 2
    ∷ 0 ∷ 16 ∷ 0 ∷ 100 ∷ 97 ∷ 116 ∷ 97 ∷ 4 ∷ 0 ∷ 0 ∷ 0 ∷ 232 ∷ 3 ∷ 24 ∷ 252 ∷ []

abbrev file_crc : ℕ
file_crc = 0x5836845a

abbrev begun : Upload
begun = record zeroed {
  parser = record zero_parser {
    file_bytes = 48;
    expected_crc = file_crc;
    file_crc = u32_max;
    pcm_crc = u32_max;
  };
  uploading = true;
}

begins : begin memory zeroed 48 file_crc [] ≡ (begun, true, [])
unfolding begin
begins = refl

all_sent : (send memory (riff ∷ chunks ∷ []) (begun, [])).1 ≡ true
unfolding append append_loop feed feed_riff feed_chunk open_chunk open_format open_data feed_format
    format_byte format_done format_known format_ok data_counted feed_data emit_frame emit_sum
    emit_pcm sample sample_pcm chunk_done get_u32 ◌+ℤ◌
all_sent = refl

abbrev sent : Upload × List ℕ
sent = let (u, _, w) = send memory (riff ∷ chunks ∷ []) (begun, []) in (u, w)

-- The two samples, 1000 and -1000, are one word of the playback memory.
written : sent.1 ≡ (64536 * 65536 + 1000) ∷ []
unfolding append append_loop feed feed_riff feed_chunk open_chunk open_format open_data feed_format
    format_byte format_done format_known format_ok data_counted feed_data emit_frame emit_sum
    emit_pcm sample sample_pcm chunk_done get_u32 ◌+ℤ◌
written = refl

committed : (commit memory sent.0 sent.1).1 ≡ true
unfolding commit append append_loop feed feed_riff feed_chunk open_chunk open_format open_data
    feed_format format_byte format_done format_known format_ok data_counted feed_data emit_frame
    emit_sum emit_pcm sample sample_pcm chunk_done get_u32 ◌+ℤ◌ crc_byte
committed = refl

begin_accepted : (begin memory zeroed 48 file_crc []).1 ≡ true
unfolding begin
begin_accepted = refl

-- The same, from the state that `begin` leaves.
abbrev from_begin : Upload × Bool × List ℕ
from_begin =
    let (u₁, _, w₁) = begin memory zeroed 48 file_crc [] in
    send memory (riff ∷ chunks ∷ []) (u₁, w₁)

from_begin_sent : from_begin.1 ≡ true
from_begin_sent = rw begins all_sent

from_begin_committed : (commit memory from_begin.0 from_begin.2).1 ≡ true
from_begin_committed = rw begins committed

commit_intact_example :
    (length (concat (riff ∷ chunks ∷ [])) ≡ 48)
    × (crc32 (concat (riff ∷ chunks ∷ [])) 48 ≡ file_crc)
commit_intact_example =
    commit_intact memory zeroed 48 file_crc (riff ∷ chunks ∷ []) [] begin_accepted from_begin_sent
      from_begin_committed

zeroed-IsSound : IsSound 4704 zeroed
zeroed-IsSound = ground arith

upload_run-IsSound_example :
    IsSound 4704
      (run memory
        (begin_call 48 file_crc
          ∷ append_call 0 riff
          ∷ lock_call true
          ∷ commit_call
          ∷ cancel_call
          ∷ [])
        (zeroed, [])).0
upload_run-IsSound_example =
    upload_run-IsSound memory
      (begin_call 48 file_crc
        ∷ append_call 0 riff
        ∷ lock_call true
        ∷ commit_call
        ∷ cancel_call
        ∷ [])
      zeroed [] zeroed-IsSound

riff_sent : (append memory begun 0 ((82 ∷ 73 ∷ 70 ∷ []) ++ (70 ∷ 40 ∷ [])) []).1 ≡ true
unfolding append append_loop feed feed_riff
riff_sent = refl

append-split_example :
    let (u', accepted, w') = append memory begun 0 (82 ∷ 73 ∷ 70 ∷ []) [] in
    (accepted ≡ true)
    × (append memory u' 3 (70 ∷ 40 ∷ []) w'
        ≡ append memory begun 0 (82 ∷ 73 ∷ 70 ∷ 70 ∷ 40 ∷ []) [])
append-split_example =
    append-split memory begun 0 (82 ∷ 73 ∷ 70 ∷ []) (70 ∷ 40 ∷ []) [] (omega arith) (omega arith)
      (omega arith) (omega arith) riff_sent
