-- ===== src/ConsoleBuffer/History.antt =====
-- The ring of firmware/src/sonar_console_buffer.c against all the text that was ever put.
use air_born_sonar.Common.{
  ℕ, zero, suc, ◌+◌, ◌-◌, ◌%◌, ◌≤◌, ◌<◌, ◌≡◌, refl, sym, ap, u64, ltb, ◌⊎◌, List, [], ◌∷◌, ◌++◌,
  arith, length, length-append, take, drop, get_or, get_or-append_last, get_or-append_init,
  if◌then◌else◌, ◌==◌,
}
use mathlib.Core.List.{append_assoc, append-nil}
use air_born_sonar.ConsoleBuffer.{Buffer, buffer_bytes, zeroed, put_byte, copy_out, read}

-- The buffer holds the end of the text `h`.
pub record Holds (h : List ℕ) (b : Buffer) : Type 0 where
  pub written : b.written ≡ length h
  pub short : length h < 18446744073709551616
  pub complete : b.complete ≤ length h
  pub window :
      (i : ℕ)
      → i < length h
      → length h ≤ i + buffer_bytes
      → b.text (i % buffer_bytes) ≡ get_or h i 0

zeroed-Holds : Holds [] zeroed
zeroed-Holds = ground arith

put_byte-window :
    (h : List ℕ) (b : Buffer) (value i : ℕ)
    → Holds h b
    → i < suc (length h)
    → suc (length h) ≤ i + buffer_bytes
    → (if i % buffer_bytes == length h % buffer_bytes then value else b.text (i % buffer_bytes))
      ≡ get_or (h ++ (value ∷ [])) i 0
put_byte-window h b value i v l w =
    ground (arith, v.window i, get_or-append_last h value 0, get_or-append_init h (value ∷ []) i 0)

put_byte-Holds :
    (h : List ℕ) (b : Buffer) (value : ℕ)
    → suc (length h) < 18446744073709551616
    → Holds h b
    → Holds (h ++ (value ∷ [])) (put_byte b value)
unfolding put_byte
put_byte-Holds h b value s v = record {
  written = ground (arith, length-append h (value ∷ []));
  short = omega (arith, length-append h (value ∷ []));
  complete = ground (arith, length-append h (value ∷ []));
  window = λ i l w. rw v.written (
      put_byte-window h b value i v (omega (arith, length-append h (value ∷ [])))
        (omega (arith, length-append h (value ∷ []))));
}

drop_cons : (h : List ℕ) (c : ℕ) → c < length h → drop c h ≡ get_or h c 0 ∷ drop (suc c) h
drop_cons [] c l = absurd (omega arith)
drop_cons (x ∷ h) zero l = refl
drop_cons (x ∷ h) (suc c) l = drop_cons h c (omega arith)

copy_out_lem :
    (h : List ℕ) (b : Buffer) (cursor count : ℕ)
    → Holds h b
    → cursor + count ≤ length h
    → length h ≤ cursor + buffer_bytes
    → copy_out b cursor count ≡ take count (drop cursor h)
unfolding copy_out
copy_out_lem h b cursor zero v l w = refl
copy_out_lem h b cursor (suc count) v l w =
    ground (arith, v.window cursor, drop_cons h cursor, copy_out_lem h b (cursor + 1) count v)

length-copy_out : (b : Buffer) (cursor count : ℕ) → length (copy_out b cursor count) ≡ count
unfolding copy_out
length-copy_out b cursor zero = refl
length-copy_out b cursor (suc count) = ap suc (length-copy_out b (u64 (cursor + 1)) count)

abbrev pub put_all : List ℕ → Buffer → Buffer
put_all [] b = b
put_all (value ∷ text) b = put_all text (put_byte b value)

put_all-Holds :
    (text h : List ℕ) (b : Buffer)
    → length h + length text < 18446744073709551616
    → Holds h b
    → Holds (h ++ text) (put_all text b)
put_all-Holds [] h b s v = rw (append-nil h) v
put_all-Holds (value ∷ text) h b s v = rw (sym (append_assoc h (value ∷ []) text)) (
    put_all-Holds text (h ++ (value ∷ [])) (put_byte b value)
      (omega (arith, length-append h (value ∷ []))) (put_byte-Holds h b value (omega arith) v))

-- A reader sees the text itself, up to the end that it asks for. When the ring has put `h` and no more
-- than 65536 bytes since the cursor, a read takes the bytes of `h` from the cursor on, at most as many
-- as fit, moves the cursor past them and reports no loss, and it takes at least one if a complete line
-- and the limit are past the cursor and there is room. When more was put, it takes nothing, reports how
-- many bytes are lost and moves the cursor to the oldest byte that is left.
pub read-put_all :
    (h : List ℕ) (cursor through capacity : ℕ)
    → length h < 18446744073709551616
    → let b = put_all h zeroed in
      let r = read b cursor through capacity in
      (length h ≤ cursor + buffer_bytes)
        × (r.out ≡ take (length r.out) (drop cursor h))
        × (r.cursor ≡ cursor + length r.out)
        × (length r.out ≤ capacity)
        × ((length r.out ≡ 0) ⊎ (r.cursor ≤ through))
        × (r.lost ≡ 0)
        × ((cursor < b.complete) → (cursor < through) → (0 < capacity) → 0 < length r.out)
      ⊎ (r.out ≡ [])
        × (0 < r.lost)
        × (r.cursor ≡ cursor + r.lost)
        × (r.cursor + buffer_bytes ≡ length h)
unfolding read
read-put_all h cursor through capacity s =
    let b = put_all h zeroed in
    let v = put_all-Holds h [] zeroed (omega arith) zeroed-Holds in
    let end = if ltb through b.complete then through else b.complete in
    let count = if ltb (end - cursor) capacity then end - cursor else capacity in
    ground (
      arith,
      v.written,
      v.complete,
      length-copy_out b cursor count,
      copy_out_lem h b cursor count v,
    )
