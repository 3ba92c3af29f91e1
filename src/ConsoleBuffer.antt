-- ===== src/ConsoleBuffer.antt =====
-- firmware/src/sonar_console_buffer.c: the ring of console text, with any number of readers.
pub mod History
mod Tests
use air_born_sonar.Common.{
  ℕ, zero, suc, ◌+◌, ◌-◌, ◌%◌, List, [], ◌∷◌, if◌then◌else◌, ◌==◌, ltb, leb, u64, min,
}

abbrev pub buffer_bytes : ℕ
buffer_bytes = 65536

-- `sonar_console_buffer_t`; the array is a function of the index.
pub record Buffer : Type 0 where
  pub text : ℕ → ℕ  -- the member `data`
  pub written : ℕ  -- uint64_t
  pub complete : ℕ  -- uint64_t

-- "Zero initialization is sufficient."
abbrev pub zeroed : Buffer
zeroed = record { text = λ i. 0; written = 0; complete = 0 }

-- `sonar_console_buffer_put`
unfoldable pub put_byte : Buffer → ℕ → Buffer
put_byte b value =
    let written = u64 (b.written + 1) in
    record b {
      text = λ i. if i == b.written % buffer_bytes then value else b.text i;
      written = written;
      complete = if value == 10 then written else b.complete;
    }

-- The loop of `sonar_console_buffer_read`: `count` bytes from the cursor on.
unfoldable pub copy_out : Buffer → ℕ → ℕ → List ℕ
copy_out b cursor zero = []
copy_out b cursor (suc count) = b.text (cursor % buffer_bytes) ∷ copy_out b (u64 (cursor + 1)) count

-- What `sonar_console_buffer_read` returns and writes through its pointers.
pub record Reading : Type 0 where
  pub out : List ℕ
  pub cursor : ℕ
  pub lost : ℕ

-- `sonar_console_buffer_read`; the result of the code is the length of `out`.
unfoldable pub read : Buffer → ℕ → ℕ → ℕ → Reading
read b cursor through capacity =
    let oldest = if ltb buffer_bytes b.written then b.written - buffer_bytes else 0 in
    let end = if ltb through b.complete then through else b.complete in
    let count = if ltb (end - cursor) capacity then end - cursor else capacity in
    if ltb cursor oldest
    then record { out = []; cursor = oldest; lost = oldest - cursor }
    else if leb end cursor
    then record { out = []; cursor = cursor; lost = 0 }
    else record { out = copy_out b cursor count; cursor = u64 (cursor + count); lost = 0 }
