-- ===== src/I2c.antt =====
-- firmware/src/sonar_ps_i2c.c: transfers of at most 16 bytes on the I2C controller.
-- The registers and the clock are an interface.
pub mod Register
pub mod Divider
pub mod Ending
mod Tests
use Prim.Native.Nat.{bit_and}
use air_born_sonar.Common.{
  ℕ, zero, suc, ◌+◌, ◌-◌, ◌*◌, ◌/◌, ◌%◌, Bool, true, false, not, ◌&&◌, ◌||◌, List, [], ◌∷◌, ◌++◌,
  Option, none, some, if◌then◌else◌, ◌==◌, leb, ltb, sub32, has_bit, u32_max, u8, length,
}
use air_born_sonar.I2c.Register

-- The masks of firmware/src/sonar_ps_i2c.h.
abbrev pub i2c_errors : ℕ
i2c_errors = 0x2ec

abbrev pub all_irq : ℕ
all_irq = 0x2ff

pub record I2cIo (W : Type 0) : Type 0 where
  pub read : ℕ → W → ℕ × W
  pub write : ℕ → ℕ → W → W
  pub now : W → ℕ × W
  pub wait : W → W

-- `sonar_ps_i2c_t` but for the interface.
pub record I2c : Type 0 where
  pub divider : ℕ
  pub timeout_ticks : ℕ
  pub last_irq : ℕ
  pub quarantined : Bool

-- The error of the clock rate for the divider number `i`, which is `a * 64 + b`.
unfoldable pub rate_error : ℕ → ℕ → ℕ → ℕ
rate_error input_hz scl_hz i =
    let actual = input_hz / (22 * (i / 64 + 1) * (i % 64 + 1)) in
    if ltb scl_hz actual then actual - scl_hz else scl_hz - actual

-- `(a << 14U) | (b << 8U)`
abbrev pub divider_of : ℕ → ℕ
divider_of i = i / 64 * 16384 + i % 64 * 256

-- The two loops over `a` and `b`: `best_error` and `divider` after the first `n` rounds.
unfoldable pub search : ℕ → ℕ → ℕ → ℕ × ℕ
search zero input_hz scl_hz = (u32_max, 0)
search (suc i) input_hz scl_hz =
    let (best, divider) = search i input_hz scl_hz in
    if ltb (rate_error input_hz scl_hz i) best
    then (rate_error input_hz scl_hz i, divider_of i)
    else (best, divider)

-- What a loop that waits finds.
pub data Waited : Type 0 where
  idle late : Waited

-- The result of a transfer: refused or aborted, or accepted with the bytes that were received.
abbrev pub Outcome : Type 0 → Type 0
Outcome W = Option (List ℕ) × (I2c × W)

abbrev pub or_none : Option (List ℕ) → List ℕ
or_none none = []
or_none (some bytes) = bytes

abbrev pub overflows : Option (List ℕ) → Bool
overflows none = true
overflows (some bytes) = false

module _ {W : Type 0} (io : I2cIo W) where
  -- `(read_reg(bus, PS_I2C_SR) & PS_I2C_BUSY) != 0U`
  abbrev pub is_busy : W → Bool × W
  is_busy w = let (status, w') = io.read Register.sr w in (has_bit status 8, w')

  -- `sonar_ps_i2c_init`; `none` is the refusal.
  unfoldable pub init : ℕ → ℕ → ℕ → W → Option I2c × W
  init input_hz scl_hz timeout_ticks w =
      let (best, divider) = search 256 input_hz scl_hz in
      let (busy, w₁) = is_busy w in
      let w₂ = io.write Register.cr (divider + 0x40) (io.write Register.idr all_irq w₁) in
      let w₃ = io.write Register.timeout 0xff (io.write Register.isr all_irq w₂) in
      if input_hz == 0
        || scl_hz == 0
        || ltb 400000 scl_hz
        || timeout_ticks == 0
        || leb 0x80000000 timeout_ticks
        || ltb (scl_hz / 20) best
      then (none, w)
      else if busy
      then (none, w₁)
      else (
        some (record {
          divider = divider;
          timeout_ticks = timeout_ticks;
          last_irq = 0;
          quarantined = false;
        }),
        w₃,
      )

  -- The loop that waits for an idle bus until the deadline. `none` is a loop that goes on after `fuel`
  -- rounds.
  unfoldable pub await_idle : ℕ → ℕ → ℕ → W → Option (Waited × W)
  await_idle zero begun timeout w = none
  await_idle (suc fuel) begun timeout w =
      let (busy, w₁) = is_busy w in
      let (now, w₂) = io.now w₁ in
      let rest = await_idle fuel begun timeout (io.wait w₂) in
      if not busy
      then some (idle, w₁)
      else if leb timeout (sub32 now begun)
      then some (late, w₂)
      else rest

  abbrev pub quarantine : I2c → Option (Waited × W) → Option (Outcome W)
  quarantine b none = none
  quarantine b (some (idle, w)) = some (none, (b, w))
  quarantine b (some (late, w)) = some (none, (record b { quarantined = true }, w))

  -- `abort_bus`
  unfoldable pub abort_bus : ℕ → I2c → W → Option (Outcome W)
  abort_bus fuel b w =
      let (begun, w₁) = io.now w in
      let w₂ = io.write Register.isr all_irq (io.write Register.cr (b.divider + 0x40) w₁) in
      quarantine b (await_idle fuel begun b.timeout_ticks w₂)

  -- The loop that empties the FIFO, with room for `room` more bytes; `none` is one byte too many.
  unfoldable pub receive : ℕ → List ℕ → W → Option (List ℕ) × W
  receive zero bytes w =
      let (status, w') = io.read Register.sr w in
      if has_bit status 5 then (none, w') else (some bytes, w')
  receive (suc room) bytes w =
      let (status, w₁) = io.read Register.sr w in
      let (byte, w₂) = io.read Register.data_reg w₁ in
      let rest = receive room (bytes ++ (u8 byte ∷ [])) w₂ in
      if has_bit status 5 then rest else (some bytes, w₁)

  -- The emptying of the FIFO, of a transfer that reads.
  abbrev pub receive_all : Bool → ℕ → List ℕ → W → Option (List ℕ) × W
  receive_all reading size bytes w =
      if reading then receive (size - length bytes) bytes w else (some bytes, w)

  -- The loop of `transfer`, with the bytes received so far. `none` is a loop that goes on after `fuel`
  -- rounds, or an abort that does after `limit`.
  unfoldable pub exchange : ℕ → ℕ → ℕ → Bool → ℕ → I2c → List ℕ → W → Option (Outcome W)
  exchange limit zero begun reading size b₀ bytes w = none
  exchange limit (suc fuel) begun reading size b₀ bytes w =
      let (irq, w₁) = io.read Register.isr w in
      let b = record b₀ { last_irq = irq } in
      let (now, w₂) = io.now w₁ in
      let (received, w₃) = receive_all reading size bytes w₂ in
      let (busy, w₄) = is_busy w₃ in
      let complete = has_bit irq 0 in
      let rest =
        exchange limit fuel begun reading size b (or_none received)
          (io.wait (if complete then w₄ else w₃)) in
      if not (bit_and irq i2c_errors == 0)
      then abort_bus limit b w₁
      else if leb b.timeout_ticks (sub32 now begun)
      then abort_bus limit b w₂
      else if overflows received
      then abort_bus limit b w₃
      else if complete && not busy
      then (if reading && not (length (or_none received) == size)
          then abort_bus limit b w₄
          else some (some (or_none received), (b, io.write Register.isr all_irq w₄)))
      else rest

  pub write_bytes : List ℕ → W → W
  write_bytes [] w = w
  write_bytes (x ∷ xs) w = write_bytes xs (io.write Register.data_reg x w)

  -- The part of `transfer` that starts on an idle bus.
  pub start_exchange : ℕ → ℕ → Bool → ℕ → List ℕ → I2c → Option (Waited × W) → Option (Outcome W)
  start_exchange limit begun reading address bytes b none = none
  start_exchange limit begun reading address bytes b (some (late, w)) = abort_bus limit b w
  start_exchange limit begun reading address bytes b (some (idle, w)) =
      let size = length bytes in
      let w₁ = io.write Register.cr (b.divider + 0x4e + (if reading then 1 else 0)) w in
      let w₂ = io.write Register.isr all_irq w₁ in
      let w₃ = if reading then io.write Register.size size w₂ else write_bytes bytes w₂ in
      exchange limit limit begun reading size (record b { last_irq = 0 }) []
        (io.write Register.addr address w₃)

  -- `transfer`; `bytes` is the buffer, of which a transfer that reads uses the length only.
  unfoldable pub transfer : ℕ → ℕ → List ℕ → Bool → I2c × W → Option (Outcome W)
  transfer limit address bytes reading (b, w) =
      let (begun, w') = io.now w in
      let size = length bytes in
      if ltb address 8 || ltb 119 address || size == 0 || ltb 16 size || b.quarantined
      then some (none, (b, w))
      else start_exchange limit begun reading address bytes b
          (await_idle limit begun b.timeout_ticks w')
