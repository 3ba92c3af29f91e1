-- ===== src/CodecBus.antt =====
-- firmware/src/sonar_codec_bus.c: one write to the codec at a time, on the AXI IIC controller.
-- The registers are an interface; `sonar_gpio_merge` is in PlGpio.
pub mod Register
pub mod Answers
mod Tests
use Prim.Native.Nat.{bit_and}
use air_born_sonar.Common.{
  ℕ, ◌+◌, ◌*◌, Bool, true, false, not, ◌&&◌, ◌||◌, List, [], ◌∷◌, Option, none, some, if◌then◌else◌,
  ◌==◌, ltb, has_bit, get_or,
}
use air_born_sonar.CodecBus.Register

pub record BusIo (W : Type 0) : Type 0 where
  pub read : ℕ → W → ℕ × W
  pub write : ℕ → ℕ → W → W

-- `sonar_codec_bus_t` but for the interface.
pub record CodecBus : Type 0 where
  pub token : ℕ
  pub bytes : List ℕ
  pub active : Bool
  pub waiting_for_busy : Bool
  pub terminal : Bool
  pub quarantined : Bool

-- `sonar_codec_event_t`
pub record CodecEvent : Type 0 where
  pub token : ℕ
  pub acknowledged : Bool

-- `(irq & 3U) != 0U`
abbrev pub has_error : ℕ → Bool
has_error irq = has_bit irq 0 || has_bit irq 1

-- `(status & 0x84U) == 0x80U`
abbrev pub is_free : ℕ → Bool
is_free status = has_bit status 7 && not (has_bit status 2)

module _ {W : Type 0} (io : BusIo W) where
  pub clear_irq : ℕ → W → W
  clear_irq mask w =
      let (irq, w') = io.read Register.isr w in
      let pending = bit_and irq mask in
      if not (pending == 0) then io.write Register.isr pending w' else w'

  pub reset_bus : W → Bool × W
  reset_bus w =
      let w₁ =
        io.write Register.ier 0 (io.write Register.gier 0 (io.write Register.reset 0x0a w)) in
      let w₂ = io.write Register.cr 1 (io.write Register.cr 2 (io.write Register.rx_depth 15 w₁)) in
      let (status, w₃) = io.read Register.sr w₂ in (status == 0xc0, w₃)

  -- `sonar_codec_bus_init`
  unfoldable pub init : W → Bool × (CodecBus × W)
  init w =
      let (clean, w') = reset_bus w in
      (
        clean,
        (
          record {
            token = 0;
            bytes = 0 ∷ 0 ∷ [];
            active = false;
            waiting_for_busy = false;
            terminal = false;
            quarantined = not clean;
          },
          w',
        ),
      )

  -- `sonar_codec_bus_write`
  unfoldable pub write : ℕ → ℕ → ℕ → ℕ → CodecBus × W → Bool × (CodecBus × W)
  write address byte₀ byte₁ token (b, w) =
      let (status, w') = io.read Register.sr w in
      if token == 0 || ltb address 8 || ltb 119 address || b.active || b.quarantined
      then (false, (b, w))
      else if not (status == 0xc0)
      then (false, (b, w'))
      else (
        true,
        (
          record b {
            bytes = byte₀ ∷ byte₁ ∷ [];
            token = token;
            active = true;
            terminal = false;
            waiting_for_busy = true;
          },
          io.write Register.tx (0x100 + address * 2) (clear_irq 0x1f w'),
        ),
      )

  -- The two bytes are queued once the bus is busy.
  pub send_bytes : CodecBus → W → W
  send_bytes b w =
      io.write Register.tx (0x200 + get_or b.bytes 1 0)
        (io.write Register.tx (get_or b.bytes 0 0) (clear_irq 0x10 w))

  -- `sonar_codec_bus_event`
  unfoldable pub event : CodecBus × W → Option CodecEvent × (CodecBus × W)
  event (b, w) =
      let (irq, w₁) = io.read Register.isr w in
      let (status, w₂) = io.read Register.sr w₁ in
      if not b.active || b.terminal
      then (none, (b, w))
      else if has_error irq
      then (
        some (record { token = b.token; acknowledged = false }),
        (record b { terminal = true }, w₂),
      )
      else if b.waiting_for_busy
      then (if has_bit status 2
          then (none, (record b { waiting_for_busy = false }, send_bytes b w₂))
          else (none, (b, w₂)))
      else if has_bit irq 4 && is_free status
      then (
        some (record { token = b.token; acknowledged = true }),
        (record b { active = false }, w₂),
      )
      else (none, (b, w₂))

  -- `sonar_codec_bus_abort`
  unfoldable pub abort : CodecBus × W → Bool × (CodecBus × W)
  abort (b, w) =
      let (clean, w') = reset_bus w in
      if b.quarantined
      then (false, (b, w))
      else if not clean
      then (false, (record b { quarantined = true }, w'))
      else (true, (record b { active = false; terminal = false }, w'))
