-- ===== src/IntegerParser.antt =====
-- firmware/src/sonar_integer_parser.c: a number that is typed key by key. `strtol` is an argument.
pub mod Lines
mod Tests
use air_born_sonar.Common.{
  ℕ, ◌+◌, ◌-◌, ◌≤◌, ℤ, pos, negsuc, Bool, true, false, not, ◌&&◌, ◌||◌, List, [], ◌∷◌, ◌++◌, Option,
  none, some, if◌then◌else◌, ◌==◌, leb, ltb, length, take, ltb_ℤ,
}

-- `sonar_number_t`; `text` is the first `length` characters of the member `text`.
pub record Number : Type 0 where
  pub text : List ℕ
  pub invalid : Bool

abbrev pub zeroed : Number
zeroed = record { text = []; invalid = false }

-- `sonar_number_result_t`; `ok` has the value that is written through the pointer.
pub data Result : Type 0 where
  wait invalid_number : Result
  ok : ℤ → Result

-- `sizeof(n->text) - 1`
abbrev pub text_bytes : ℕ
text_bytes = 15

-- What `strtol` makes of a text, in base 10: the value, whether `*end == '\0'`, and whether
-- `errno` is 0.
abbrev pub Strtol : Type 0
Strtol = List ℕ → ℤ × Bool × Bool

abbrev pub is_end : ℕ → Bool
is_end key = key == 13 || key == 10

abbrev pub is_erase : ℕ → Bool
is_erase key = key == 8 || key == 127

-- A digit, or a sign at the start.
abbrev pub is_part : ℕ → ℕ → Bool
is_part count key = leb 48 key && leb key 57 || key == 45 && count == 0

abbrev pub fits_int32 : ℤ → Bool
fits_int32 v = not (ltb_ℤ v (negsuc 2147483647)) && not (ltb_ℤ (pos 2147483647) v)

abbrev pub is_number : Number → ℤ × Bool × Bool → Bool
is_number n (v, whole, clean) =
    not (length n.text == 0) && not n.invalid && clean && whole && fits_int32 v

-- `sonar_number_feed`
unfoldable pub number_feed : Strtol → Number → ℕ → Number × Result
number_feed strtol n key =
    if is_end key
    then (zeroed, if is_number n (strtol n.text) then ok (strtol n.text).0 else invalid_number)
    else if is_erase key
    then (record n { text = take (length n.text - 1) n.text }, wait)
    else if is_part (length n.text) key
    then if ltb (length n.text) text_bytes
      then (record n { text = n.text ++ key ∷ [] }, wait)
      else (record n { invalid = true }, wait)
    else (record n { invalid = true }, wait)
