-- ===== src/IntegerParser/Lines.antt =====
-- Lines of keys for firmware/src/sonar_integer_parser.c.
use air_born_sonar.Common.{
  ℕ, zero, suc, ◌+◌, ◌-◌, ◌≤◌, ◌<◌, ◌≡◌, refl, sym, ap, ◌∙◌, ℤ, true, false, List, [], ◌∷◌, ◌++◌,
  arith, length, take,
}
use mathlib.Core.List.{append_assoc, append-nil}
use air_born_sonar.IntegerParser.{
  Number, zeroed, ok, Strtol, text_bytes, is_end, is_part, fits_int32, number_feed,
}

-- Characters of a number, after `count` others.
abbrev pub IsText : ℕ → List ℕ → Type 0
IsText count [] = Unit
IsText count (c ∷ cs) = (is_part count c ≡ true) × IsText (count + 1) cs

unfoldable pub typed : Strtol → Number → List ℕ → Number
typed strtol n [] = n
typed strtol n (key ∷ keys) = typed strtol (number_feed strtol n key).0 keys

append-IsText :
    (count key : ℕ) (cs : List ℕ)
    → IsText count cs
    → is_part (count + length cs) key ≡ true
    → IsText count (cs ++ key ∷ [])
append-IsText count key [] h p = ground arith
append-IsText count key (c ∷ cs) (q, h) p = (q, append-IsText (count + 1) key cs h (ground arith))

take-IsText : (n count : ℕ) (cs : List ℕ) → IsText count cs → IsText count (take n cs)
take-IsText zero count cs h = tt
take-IsText (suc n) count [] h = tt
take-IsText (suc n) count (c ∷ cs) (q, h) = (q, take-IsText n (count + 1) cs h)

length-take_le : (n : ℕ) (cs : List ℕ) → length (take n cs) ≤ length cs
length-take_le zero cs = omega arith
length-take_le (suc n) [] = omega arith
length-take_le (suc n) (c ∷ cs) = omega (arith, length-take_le n cs)

length-snoc : (cs : List ℕ) (key : ℕ) → length (cs ++ key ∷ []) ≡ length cs + 1
length-snoc [] key = refl
length-snoc (c ∷ cs) key = omega (arith, length-snoc cs key)

-- What is in the buffer.
abbrev pub IsClean : Number → Type 0
IsClean n = (length n.text ≤ text_bytes) × IsText 0 n.text

number_feed-IsClean :
    (strtol : Strtol) (n : Number) (key : ℕ) → IsClean n → IsClean (number_feed strtol n key).0
unfolding number_feed
number_feed-IsClean strtol n key (l, h) = ground (
  arith,
  append-IsText 0 key n.text h,
  length-snoc n.text key,
  take-IsText (length n.text - 1) 0 n.text h,
  length-take_le (length n.text - 1) n.text,
)

-- Whatever keys are pressed, the buffer never overflows, and holds digits only, of which the first may be
-- a sign.
typed-IsClean :
    (strtol : Strtol) (n : Number) (keys : List ℕ) → IsClean n → IsClean (typed strtol n keys)
unfolding typed
typed-IsClean strtol n [] h = h
typed-IsClean strtol n (key ∷ keys) h =
    typed-IsClean strtol (number_feed strtol n key).0 keys (number_feed-IsClean strtol n key h)

feed_part :
    (strtol : Strtol) (cs : List ℕ) (key : ℕ)
    → is_part (length cs) key ≡ true
    → length cs < text_bytes
    → (number_feed strtol (record { text = cs; invalid = false }) key).0
      ≡ record { text = cs ++ key ∷ []; invalid = false }
unfolding number_feed
feed_part strtol cs key p l = ground arith

typed_text :
    (strtol : Strtol) (cs ks : List ℕ)
    → IsText (length cs) ks
    → length cs + length ks ≤ text_bytes
    → typed strtol (record { text = cs; invalid = false }) ks
      ≡ record { text = cs ++ ks; invalid = false }
unfolding typed
typed_text strtol cs [] h l = ap (λ t. record { text = t; invalid = false }) (sym (append-nil cs))
typed_text strtol cs (k ∷ ks) (p, h) l =
    let h' : IsText (length (cs ++ k ∷ [])) ks =
      coe 0 1 (i. IsText (sym (length-snoc cs k) i) ks) h in
    ap (λ n. typed strtol n ks) (feed_part strtol cs k p (omega (arith, l)))
    ∙ typed_text strtol (cs ++ k ∷ []) ks h' (omega (arith, l, length-snoc cs k))
    ∙ ap (λ t. record { text = t; invalid = false }) (append_assoc cs (k ∷ []) ks)

-- A number of up to 15 digits, with a sign or without, and Enter give the value that `strtol` reads, if
-- it is one of an `int32_t`; the next number starts from nothing.
typed_number :
    (strtol : Strtol) (text : List ℕ) (v : ℤ) (enter : ℕ)
    → IsText 0 text
    → 0 < length text
    → length text ≤ text_bytes
    → strtol text ≡ (v, true, true)
    → fits_int32 v ≡ true
    → is_end enter ≡ true
    → number_feed strtol (typed strtol zeroed text) enter ≡ (zeroed, ok v)
unfolding number_feed
typed_number strtol text v enter h p l e f q =
    let line = typed_text strtol [] text h (omega (arith, l)) in rw (line, e) (ground arith)
