-- ===== src/Common/Lists.antt =====
-- C arrays and byte buffers as lists with native indices.
use Prim.Native.Nat.{ℕ, zero, suc, ◌+◌, ◌-◌, ◌<◌, ◌≤◌}
use mathlib.Core.Path.{◌≡◌, refl, ap}
use mathlib.Core.Logic.{◌≢◌}
use mathlib.Core.List.{List, [], ◌∷◌, ◌++◌}
use native.Mathlib.Omega.{arith}

module _ {ℓ} {A : Type ℓ} where
  abbrev pub length : List A → ℕ
  length [] = 0
  length (x ∷ xs) = suc (length xs)

  abbrev pub get_or : List A → ℕ → A → A
  get_or [] i d = d
  get_or (x ∷ xs) zero d = x
  get_or (x ∷ xs) (suc i) d = get_or xs i d

  -- A write out of bounds changes nothing.
  abbrev pub set : List A → ℕ → A → List A
  set [] i v = []
  set (x ∷ xs) zero v = v ∷ xs
  set (x ∷ xs) (suc i) v = x ∷ set xs i v

  abbrev pub take : ℕ → List A → List A
  take zero xs = []
  take (suc n) [] = []
  take (suc n) (x ∷ xs) = x ∷ take n xs

  abbrev pub drop : ℕ → List A → List A
  drop zero xs = xs
  drop (suc n) [] = []
  drop (suc n) (x ∷ xs) = drop n xs

  abbrev pub replicate : ℕ → A → List A
  replicate zero a = []
  replicate (suc n) a = a ∷ replicate n a

  -- `memcpy` to the start of a buffer, which ends where the buffer ends.
  abbrev pub overlay : List A → List A → List A
  overlay [] xs = xs
  overlay (b ∷ bs) [] = []
  overlay (b ∷ bs) (x ∷ xs) = b ∷ overlay bs xs

  -- `memcpy` to an offset of a buffer.
  abbrev pub write_at : ℕ → List A → List A → List A
  write_at zero bs xs = overlay bs xs
  write_at (suc k) bs [] = []
  write_at (suc k) bs (x ∷ xs) = x ∷ write_at k bs xs

  abbrev pub All {κ} : (A → Type κ) → List A → Type κ
  All P [] = Unit
  All P (x ∷ xs) = P x × All P xs

module _ {ℓ} {A : Type ℓ} where
  pub length-append : (xs ys : List A) → length (xs ++ ys) ≡ length xs + length ys
  length-append [] ys = omega arith
  length-append (x ∷ xs) ys = omega (arith, length-append xs ys)

  pub length-set : (xs : List A) (i : ℕ) (v : A) → length (set xs i v) ≡ length xs
  length-set [] i v = refl
  length-set (x ∷ xs) zero v = refl
  length-set (x ∷ xs) (suc i) v = ap suc (length-set xs i v)

  pub length-replicate : (n : ℕ) (a : A) → length (replicate n a) ≡ n
  length-replicate zero a = refl
  length-replicate (suc n) a = ap suc (length-replicate n a)

  pub get_or-set_self :
      (xs : List A) (i : ℕ) (v d : A) → i < length xs → get_or (set xs i v) i d ≡ v
  get_or-set_self [] i v d h = absurd (omega arith)
  get_or-set_self (x ∷ xs) zero v d h = refl
  get_or-set_self (x ∷ xs) (suc i) v d h = get_or-set_self xs i v d (omega arith)

  pub get_or-set_ne :
      (xs : List A) (i j : ℕ) (v d : A) → i ≢ j → get_or (set xs i v) j d ≡ get_or xs j d
  get_or-set_ne [] i j v d h = refl
  get_or-set_ne (x ∷ xs) zero zero v d h = absurd (h refl)
  get_or-set_ne (x ∷ xs) zero (suc j) v d h = refl
  get_or-set_ne (x ∷ xs) (suc i) zero v d h = refl
  get_or-set_ne (x ∷ xs) (suc i) (suc j) v d h = get_or-set_ne xs i j v d (λ e. h (ap suc e))

  pub get_or-append_last : (xs : List A) (a d : A) → get_or (xs ++ (a ∷ [])) (length xs) d ≡ a
  get_or-append_last [] a d = refl
  get_or-append_last (x ∷ xs) a d = get_or-append_last xs a d

  pub get_or-append_init :
      (xs ys : List A) (i : ℕ) (d : A) → i < length xs → get_or (xs ++ ys) i d ≡ get_or xs i d
  get_or-append_init [] ys i d h = absurd (omega arith)
  get_or-append_init (x ∷ xs) ys zero d h = refl
  get_or-append_init (x ∷ xs) ys (suc i) d h = get_or-append_init xs ys i d (omega arith)

  pub take_all : (xs : List A) → take (length xs) xs ≡ xs
  take_all [] = refl
  take_all (x ∷ xs) = ap (λ ys. x ∷ ys) (take_all xs)

  pub length-drop : (c : ℕ) (xs : List A) → length (drop c xs) ≡ length xs - c
  length-drop zero xs = omega arith
  length-drop (suc c) [] = omega arith
  length-drop (suc c) (x ∷ xs) = omega (arith, length-drop c xs)

  take-nil : (n : ℕ) → take {A = A} n [] ≡ []
  take-nil zero = refl
  take-nil (suc n) = refl

  -- Two pieces of a list in a row.
  pub take-append-drop : (c n : ℕ) (xs : List A) → take (c + n) xs ≡ take c xs ++ take n (drop c xs)
  take-append-drop zero n xs = ap (λ k. take k xs) (omega arith)
  take-append-drop (suc c) n [] = rw (take-nil (suc c + n), take-nil n) refl
  take-append-drop (suc c) n (x ∷ xs) =
      let e : suc c + n ≡ suc (c + n) = omega arith in
      rw e (ap (λ r. x ∷ r) (take-append-drop c n xs))

  pub length-overlay : (bs xs : List A) → length (overlay bs xs) ≡ length xs
  length-overlay [] xs = refl
  length-overlay (b ∷ bs) [] = refl
  length-overlay (b ∷ bs) (x ∷ xs) = ap suc (length-overlay bs xs)

  pub length-write_at : (c : ℕ) (bs xs : List A) → length (write_at c bs xs) ≡ length xs
  length-write_at zero bs xs = length-overlay bs xs
  length-write_at (suc c) bs [] = refl
  length-write_at (suc c) bs (x ∷ xs) = ap suc (length-write_at c bs xs)

  pub take-overlay :
      (bs xs : List A) → length bs ≤ length xs → take (length bs) (overlay bs xs) ≡ bs
  take-overlay [] xs h = refl
  take-overlay (b ∷ bs) [] h = absurd (omega arith)
  take-overlay (b ∷ bs) (x ∷ xs) h = ap (λ r. b ∷ r) (take-overlay bs xs (omega arith))

  -- What a piece that is written at an offset leaves of the list up to its end.
  pub overlay-append :
      (bs xs : List A) → length bs ≤ length xs → overlay bs xs ≡ bs ++ drop (length bs) xs
  overlay-append [] xs h = refl
  overlay-append (b ∷ bs) [] h = absurd (omega arith)
  overlay-append (b ∷ bs) (x ∷ xs) h = ap (λ r. b ∷ r) (overlay-append bs xs (omega arith))

  pub drop-write_at : (c : ℕ) (bs xs : List A) → drop c (write_at c bs xs) ≡ overlay bs (drop c xs)
  drop-write_at zero bs xs = refl
  drop-write_at (suc c) [] [] = refl
  drop-write_at (suc c) (b ∷ bs) [] = refl
  drop-write_at (suc c) bs (x ∷ xs) = drop-write_at c bs xs

  pub take-write_at :
      (c : ℕ) (bs xs : List A)
      → c + length bs ≤ length xs
      → take (c + length bs) (write_at c bs xs) ≡ take c xs ++ bs
  take-write_at zero bs xs h =
      let e : 0 + length bs ≡ length bs = omega arith in rw e (take-overlay bs xs (omega arith))
  take-write_at (suc c) bs [] h = absurd (omega arith)
  take-write_at (suc c) bs (x ∷ xs) h =
      let e : suc c + length bs ≡ suc (c + length bs) = omega arith in
      rw e (ap (λ r. x ∷ r) (take-write_at c bs xs (omega arith)))
