-- ===== src/Identity/Session.antt =====
-- What the identities of firmware/src/sonar_identity.c guarantee over a session.
use air_born_sonar.Common.{
  ℕ, ◌≡◌, ◌≢◌, refl, ◌∙◌, sym, ap, ◌⊎◌, inl, inr, true, false, List, [], ◌∷◌, arith, Bool-cases,
}
use mathlib.Core.Bool.{false≢true}
use air_born_sonar.Identity.{
  Identity, same_words, nonzero, set_boot, prepare_test, consume_test, disarm, test_ready, snapshot,
}

pub same_words→eq : (xs ys : List ℕ) → same_words xs ys ≡ true → xs ≡ ys
same_words→eq [] [] h = refl
same_words→eq [] (y ∷ ys) h = cc
same_words→eq (x ∷ xs) [] h = cc
same_words→eq (x ∷ xs) (y ∷ ys) h = ground (arith, same_words→eq xs ys)

same_words_refl : (xs : List ℕ) → same_words xs xs ≡ true
same_words_refl [] = refl
same_words_refl (x ∷ xs) = ground (arith, same_words_refl xs)

same_words-cases :
    (xs ys : List ℕ)
    → (same_words xs ys ≡ true) × (xs ≡ ys) ⊎ (same_words xs ys ≡ false) × (xs ≢ ys)
same_words-cases xs ys = elim (Bool-cases (same_words xs ys)) [
  | inl e ↦ inl (e, same_words→eq xs ys e)
  | inr e ↦ inr (e, λ p. false≢true (sym e ∙ ap (same_words xs) (sym p) ∙ same_words_refl xs))
]

pub data Call : Type 0 where
  set_boot_call : List ℕ → Call
  prepare_call : List ℕ → List ℕ → Call
  consume_call disarm_call : Call

abbrev pub step : Identity → Call → Identity
step s (set_boot_call id) = (set_boot s id).0
step s (prepare_call boot test) = (prepare_test s boot test).0
step s consume_call = consume_test s
step s disarm_call = disarm s

abbrev pub run : Identity → List Call → Identity
run s [] = s
run s (c ∷ cs) = run (step s c) cs

step-boot : (s : Identity) (c : Call) → nonzero s.boot_id ≡ true → (step s c).boot_id ≡ s.boot_id
unfolding set_boot prepare_test consume_test disarm
step-boot s (set_boot_call id) h = ground arith
step-boot s (prepare_call boot test) h = ground arith
step-boot s consume_call h = refl
step-boot s disarm_call h = refl

-- A boot identity that was set stays, whatever calls follow: only a reset of the board clears it.
pub run-boot :
    (cs : List Call) (s : Identity) → nonzero s.boot_id ≡ true → (run s cs).boot_id ≡ s.boot_id
run-boot [] s h = refl
run-boot (c ∷ cs) s h = run-boot cs (step s c) (ap nonzero (step-boot s c h) ∙ h) ∙ step-boot s c h

-- `set_boot` answers true exactly if the identity is not zero and is then the stored one; the answer
-- false changes nothing.
pub set_boot_lem :
    (s : Identity) (id : List ℕ)
    → ((set_boot s id).1 ≡ true) × (nonzero id ≡ true) × ((set_boot s id).0.boot_id ≡ id)
      ⊎ ((set_boot s id).1 ≡ false)
        × ((set_boot s id).0 ≡ s)
        × ((nonzero id ≡ false) ⊎ (nonzero s.boot_id ≡ true) × (s.boot_id ≢ id))
unfolding set_boot
set_boot_lem s id = ground (arith, same_words-cases id s.boot_id)

-- A test is prepared exactly for an identity that is not zero and differs from that of the test
-- before, under the stored boot identity; it is then the one that recordings carry. Any other
-- request changes nothing.
pub prepare_test_lem :
    (s : Identity) (boot test : List ℕ)
    → ((prepare_test s boot test).1 ≡ true)
        × (snapshot (prepare_test s boot test).0 ≡ (boot, test))
        × (test_ready (prepare_test s boot test).0 ≡ true)
        × (nonzero test ≡ true)
        × (test ≢ s.test_id)
        × (boot ≡ s.boot_id)
      ⊎ ((prepare_test s boot test).1 ≡ false) × ((prepare_test s boot test).0 ≡ s)
unfolding prepare_test snapshot test_ready
prepare_test_lem s boot test =
    ground (arith, same_words-cases boot s.boot_id, same_words-cases test s.test_id)
