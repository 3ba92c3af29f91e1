-- ===== src/Network/Batches.antt =====
-- What a batch of firmware/src/sonar_ethernet.c does to the recordings in the pool.
use air_born_sonar.Common.{ℕ, ◌≡◌, ◌⊎◌, List, [], ◌∷◌, Option, none, some}
use air_born_sonar.Frames.{Frames, FrameMeta}
use air_born_sonar.Frames.Retention.{IsHeld}
use air_born_sonar.Network.{NetIo, Batch}

-- The other tasks keep what is published; only this one takes and finishes.
abbrev pub KeepsHeld : {W : Type 0} → NetIo W → Type 0
KeepsHeld {W} io =
    (p : Frames) (w : W) (j : ℕ) (m : FrameMeta) → IsHeld p j m → IsHeld (io.others p w) j m

-- The slot is one of those that were saved.
abbrev pub IsSaved : ℕ → List ℕ → Type 0
IsSaved j [] = ⊥
IsSaved j (i ∷ is) = (i ≡ j) ⊎ IsSaved j is

module _ {W : Type 0} (io : NetIo W) (keeps : KeepsHeld io) where
  -- A slot is held on, or was saved.
  abbrev Accounts : ℕ → FrameMeta → Batch W → Type 0
  Accounts j m b = IsHeld b.pool j m ⊎ IsSaved j b.saved

  -- What a part of a batch makes of a recording that is held.
  abbrev AllAccount : ℕ → FrameMeta → Option (Batch W) → Type 0
  AllAccount j m none = Unit
  AllAccount j m (some b) = Accounts j m b
