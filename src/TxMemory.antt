-- ===== src/TxMemory.antt =====
-- firmware/src/sonar_tx_bram.c: the memory that the transmitter plays, and its gain.
-- A word holds a sample as uploaded in its upper half and scaled in its lower half.
pub mod Gain
mod Tests
use air_born_sonar.Common.{
  ℕ, zero, suc, ◌+◌, ◌-◌, ◌*◌, ◌/◌, ◌%◌, Bool, true, false, not, ◌&&◌, ◌||◌, List, [], ◌∷◌,
  if◌then◌else◌, ◌==◌, leb, ltb, length, set, get_or,
}

-- The static variable and the words of the memory.
pub record TxMemory : Type 0 where
  pub initialized : Bool
  pub words : List ℕ

-- The depth that the build asserts, and `CAPACITY`: 4096 words of it, below the 4704 samples of a
-- transmission.
abbrev pub capacity : ℕ
capacity = 4096

-- `sonar_tx_bram_init`, with the addresses that the build asserts.
unfoldable pub init : TxMemory → TxMemory × Bool
init m = (record m { initialized = true }, true)

-- A word with the same sample in both halves.
abbrev pub doubled : ℕ → ℕ
doubled sample = sample * 65536 + sample

-- `sonar_tx_bram_write`; `idle` is the result of `playback_idle()`.
unfoldable pub write : Bool → ℕ → ℕ → TxMemory → TxMemory × Bool
write idle pair packed m =
    let first = set m.words (pair * 2) (doubled (packed % 65536)) in
    let second = set first (pair * 2 + 1) (doubled (packed / 65536)) in
    if not m.initialized || leb ((capacity + 1) / 2) pair || not idle
    then (m, false)
    else (record m { words = if ltb (pair * 2 + 1) capacity then second else first }, true)

-- `(uint16_t)(int16_t)` of the rounded product of a sample and the amplitude in per cent. A sample of
-- 32768 or more is negative: its magnitude is 65536 less it.
unfoldable pub scale : ℕ → ℕ → ℕ
scale original amplitude_pct =
    if ltb original 32768
    then (original * amplitude_pct + 50) / 100
    else (65536 - ((65536 - original) * amplitude_pct + 50) / 100) % 65536

-- One round of the loop of `sonar_tx_bram_set_gain`.
unfoldable pub scale_word : ℕ → ℕ → ℕ
scale_word amplitude_pct word = word / 65536 * 65536 + scale (word / 65536) amplitude_pct

-- The loop, over the first `samples` words.
unfoldable pub scale_words : ℕ → ℕ → List ℕ → List ℕ
scale_words zero amplitude_pct ws = ws
scale_words (suc n) amplitude_pct [] = []
scale_words (suc n) amplitude_pct (w ∷ ws) =
    scale_word amplitude_pct w ∷ scale_words n amplitude_pct ws

-- `sonar_tx_bram_set_gain`
unfoldable pub set_gain : Bool → ℕ → ℕ → TxMemory → TxMemory × Bool
set_gain idle samples amplitude_pct m =
    if not m.initialized
      || samples == 0
      || ltb capacity samples
      || ltb 100 amplitude_pct
      || not idle
    then (m, false)
    else (record m { words = scale_words samples amplitude_pct m.words }, true)
