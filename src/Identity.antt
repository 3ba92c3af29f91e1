-- ===== src/Identity.antt =====
-- firmware/src/sonar_identity.c: the identities of the boot and of the next test.
-- The static variables of the file are the fields of a record.
pub mod Session
mod Tests
use Prim.Native.Nat.{bit_or}
use air_born_sonar.Common.{
  ℕ, Bool, true, false, not, ◌&&◌, ◌||◌, List, [], ◌∷◌, if◌then◌else◌, ◌==◌, get_or,
}

-- An identity is four words, `uint32_t id[4]`.
pub record Identity : Type 0 where
  pub boot_id : List ℕ
  pub test_id : List ℕ
  pub prepared : Bool

abbrev pub zeroed : Identity
zeroed = record { boot_id = 0 ∷ 0 ∷ 0 ∷ 0 ∷ []; test_id = 0 ∷ 0 ∷ 0 ∷ 0 ∷ []; prepared = false }

-- `memcmp(a, b, sizeof(boot_id)) == 0`
abbrev pub same_words : List ℕ → List ℕ → Bool
same_words [] [] = true
same_words [] (y ∷ ys) = false
same_words (x ∷ xs) [] = false
same_words (x ∷ xs) (y ∷ ys) = x == y && same_words xs ys

pub nonzero : List ℕ → Bool
nonzero id =
    not (
      bit_or (bit_or (bit_or (get_or id 0 0) (get_or id 1 0)) (get_or id 2 0)) (get_or id 3 0) == 0)

unfoldable pub set_boot : Identity → List ℕ → Identity × Bool
set_boot s id =
    if not (nonzero id)
    then (s, false)
    else if nonzero s.boot_id
    then (s, same_words id s.boot_id)
    else (record s { boot_id = id }, true)

unfoldable pub prepare_test : Identity → List ℕ → List ℕ → Identity × Bool
prepare_test s boot test =
    if not (nonzero boot)
      || not (nonzero test)
      || not (same_words boot s.boot_id)
      || same_words test s.test_id
    then (s, false)
    else (record s { test_id = test; prepared = true }, true)

unfoldable pub test_ready : Identity → Bool
test_ready s = s.prepared

unfoldable pub consume_test : Identity → Identity
consume_test s = record s { prepared = false }

unfoldable pub disarm : Identity → Identity
disarm s = record s { prepared = false }

unfoldable pub snapshot : Identity → List ℕ × List ℕ
snapshot s = (s.boot_id, s.test_id)
