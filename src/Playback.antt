-- ===== src/Playback.antt =====
-- firmware/src/sonar_pcm_playback_control.c: which of the two sources the transmitter plays.
use air_born_sonar.Common.{ℕ, ◌+◌, Bool, true, false, not, ◌||◌, if◌then◌else◌, ◌==◌, ltb}

-- The registers, and the memory of firmware/src/sonar_tx_bram.c.
pub record PlayerIo (W : Type 0) : Type 0 where
  pub write : ℕ → ℕ → W → W
  pub mode_reg : ℕ  -- `SONAR_TX_SOURCE_BASEADDR`
  pub control_reg : ℕ  -- `SONAR_CHIRP_CONTROL_BASEADDR`
  pub capacity : ℕ
  pub bram_init : W → Bool × W
  pub set_gain : ℕ → ℕ → W → Bool × W

-- The functions on the variable `available`.
module _ {W : Type 0} (io : PlayerIo W) where
  -- `sonar_wav_player_init`
  unfoldable pub init : Bool → W → Bool × Bool × W
  init available w =
      let (ready, w') = io.bram_init w in
      if available
      then (true, true, w)
      else if io.mode_reg == 0 || io.control_reg == 0
      then (false, false, w)
      else if not ready
      then (false, false, w')
      else (true, true, io.write (io.mode_reg + 4) 0 (io.write io.mode_reg 0 w'))

  -- `sonar_wav_player_select_generate`
  unfoldable pub select_generate : Bool → W → Bool × W
  select_generate available w = if available then (true, io.write io.mode_reg 0 w) else (false, w)

  -- `sonar_wav_player_configure`
  unfoldable pub configure : Bool → ℕ → ℕ → W → Bool × W
  configure available samples amplitude_pct w =
      let (scaled, w') = io.set_gain samples amplitude_pct w in
      if not available || samples == 0 || ltb io.capacity samples
      then (false, w)
      else if not scaled
      then (false, w')
      else (true, io.write io.mode_reg 1 (io.write io.control_reg samples w'))
