-- ===== src/PlGpio.antt =====
-- firmware/src/sonar_pl_gpio.c and `sonar_gpio_merge` of firmware/src/sonar_codec_bus.c: two output bits
-- that the transmitter and the codec share. A critical section makes every operation one step.
use Prim.Native.Nat.{bit_and, bit_or}
use air_born_sonar.Common.{
  ℕ, ◌+◌, Bool, true, false, not, ◌||◌, Option, none, some, if◌then◌else◌, ◌==◌, not32,
}

-- `sonar_gpio_merge`; `none` is the refusal.
pub gpio_merge : ℕ → ℕ → ℕ → Option ℕ
gpio_merge shadow mask value =
    if not (bit_and shadow (not32 3) == 0)
      || not (bit_and mask (not32 3) == 0)
      || not (bit_and value (not32 mask) == 0)
    then none
    else some (bit_or (bit_and shadow (not32 mask)) value)

-- The static variables of sonar_pl_gpio.c.
pub record PlGpio : Type 0 where
  pub initialized : Bool
  pub shadow : ℕ

module _ {W : Type 0} (write : ℕ → ℕ → W → W) (base : ℕ) where
  -- `sonar_pl_gpio_init`, which returns true always.
  unfoldable pub init : PlGpio → W → PlGpio × W
  init g w =
      if g.initialized
      then (g, w)
      else (record { initialized = true; shadow = 0 }, write (base + 4) 0 (write base 0 w))

  pub merged : Option ℕ → PlGpio → W → PlGpio × Bool × W
  merged none g w = (g, false, w)
  merged (some next) g w = (record g { shadow = next }, true, write base next w)

  -- `sonar_pl_gpio_update`
  unfoldable pub update : ℕ → ℕ → PlGpio → W → PlGpio × Bool × W
  update mask value g w =
      if not g.initialized then (g, false, w) else merged (gpio_merge g.shadow mask value) g w
