-- ===== src/TxMemory/Gain.antt =====
-- The amplitude of the samples of firmware/src/sonar_tx_bram.c.
use air_born_sonar.Common.{
  ℕ, zero, suc, ◌+◌, ◌*◌, ◌-◌, ◌/◌, ◌≤◌, ◌<◌, ◌≡◌, refl, sym, ◌⊎◌, Bool, true, List, [], ◌∷◌, arith,
  ltb, if◌then◌else◌,
}
use air_born_sonar.TxMemory.{TxMemory, doubled, scale, scale_word, scale_words, set_gain}

-- The magnitude of a 16-bit sample in two's complement.
abbrev pub magnitude : ℕ → ℕ
magnitude sample = if ltb sample 32768 then sample else 65536 - sample

product_le : (a p b : ℕ) → a ≤ b → p ≤ 100 → a * p ≤ b * 100
product_le a p b l h = grind arith

-- The scaled sample is a 16-bit word of the same sign, or zero; a hundredfold of its magnitude is at most
-- 50 away from the product: it is rounded to the nearest. It is never louder than the original.
scale_lem :
    (x pct : ℕ)
    → x < 65536
    → pct ≤ 100
    → (scale x pct < 65536)
      × (magnitude (scale x pct) * 100 ≤ magnitude x * pct + 50)
      × (magnitude x * pct < magnitude (scale x pct) * 100 + 51)
      × (magnitude (scale x pct) ≤ magnitude x)
      × (x < 32768 → scale x pct < 32768)
      × (32768 ≤ x → (scale x pct ≡ 0) ⊎ (32768 ≤ scale x pct))
unfolding scale
scale_lem x pct h p = ground (arith, product_le x pct x, product_le (65536 - x) pct (65536 - x))

pub scale_full : (x : ℕ) → x < 65536 → scale x 100 ≡ x
unfolding scale
scale_full x h = ground arith

-- A word, whose upper half is a sample.
abbrev pub IsWord : ℕ → Type 0
IsWord w = w < 4294967296

abbrev pub AllWords : List ℕ → Type 0
AllWords [] = Unit
AllWords (w ∷ ws) = IsWord w × AllWords ws

scale_word_upper : (p w : ℕ) → IsWord w → p ≤ 100 → scale_word p w / 65536 ≡ w / 65536
unfolding scale_word
scale_word_upper p w h q = let b = scale_lem (w / 65536) p (omega arith) q in omega arith

scale_word_last : (p q w : ℕ) → IsWord w → p ≤ 100 → scale_word q (scale_word p w) ≡ scale_word q w
unfolding scale_word
scale_word_last p q w h l = rw (scale_word_upper p w h l)

scale_words_last :
    (n p q : ℕ) (ws : List ℕ)
    → AllWords ws
    → p ≤ 100
    → scale_words n q (scale_words n p ws) ≡ scale_words n q ws
unfolding scale_words
scale_words_last zero p q ws h l = refl
scale_words_last (suc n) p q [] h l = refl
scale_words_last (suc n) p q (w ∷ ws) h l =
    rw (scale_word_last p q w h.0 l, scale_words_last n p q ws h.1 l)

scale_word_full : (w : ℕ) → IsWord w → w ≡ doubled (w / 65536) → scale_word 100 w ≡ w
unfolding scale_word
scale_word_full w h d = rw (scale_full (w / 65536) (omega arith)) (sym d)

-- The words as they were uploaded: the same sample in both halves.
abbrev pub AreUploaded : List ℕ → Type 0
AreUploaded [] = Unit
AreUploaded (w ∷ ws) = (IsWord w × (w ≡ doubled (w / 65536))) × AreUploaded ws

scale_words_full : (n : ℕ) (ws : List ℕ) → AreUploaded ws → scale_words n 100 ws ≡ ws
unfolding scale_words
scale_words_full zero ws h = refl
scale_words_full (suc n) [] h = refl
scale_words_full (suc n) (w ∷ ws) h = rw (scale_word_full w h.0.0 h.0.1, scale_words_full n ws h.1)

words_of_uploaded : (ws : List ℕ) → AreUploaded ws → AllWords ws
words_of_uploaded [] h = tt
words_of_uploaded (w ∷ ws) h = (h.0.0, words_of_uploaded ws h.1)

-- The amplitude can be changed without a new upload: an amplitude of at most 100 per cent leaves the
-- memory as if no other had been set before.
pub set_gain_last :
    (idle : Bool) (n p q : ℕ) (m : TxMemory)
    → q ≤ 100
    → AllWords m.words
    → (set_gain idle n q (set_gain idle n p m).0).0 ≡ (set_gain idle n q m).0
unfolding set_gain
set_gain_last idle n p q m l h = ground (arith, scale_words_last n p q m.words h)

-- The full amplitude restores the samples that were uploaded, whatever amplitude was set before.
pub set_gain_full :
    (idle : Bool) (n p : ℕ) (m : TxMemory)
    → AreUploaded m.words
    → (set_gain idle n p m).1 ≡ true
    → (set_gain idle n 100 (set_gain idle n p m).0).0 ≡ m
unfolding set_gain
set_gain_full idle n p m h e = ground (
  arith,
  scale_words_last n p 100 m.words (words_of_uploaded m.words h),
  scale_words_full n m.words h,
)
