-- ===== src/I2c/Ending.antt =====
-- Every transfer of firmware/src/sonar_ps_i2c.c comes to an end.
use air_born_sonar.Common.{
  ℕ, zero, suc, ◌+◌, ◌-◌, ◌*◌, ◌≤◌, ◌<◌, ◌≡◌, ◌≢◌, Bool, true, false, List, [], ◌∷◌, ◌++◌, Option,
  none, some, arith, u32, u8, length, if◌then◌else◌,
}
use air_born_sonar.I2c.{
  I2cIo, I2c, Waited, idle, late, await_idle, quarantine, abort_bus, receive, receive_all, or_none,
  exchange, write_bytes, start_exchange, transfer,
}
use air_born_sonar.I2c.Register

-- The clock reads the ticks since the start, modulo 2^32. A wait takes a tick at least; it and an access
-- to a register or the clock take at most `slack` ticks.
pub record KeepsTime {W : Type 0} (io : I2cIo W) (elapsed : W → ℕ) (slack timeout : ℕ)
    : Type 0 where
  pub reads : (w : W) → (io.now w).0 ≡ u32 (elapsed w)
  pub now :
      (w : W) → (elapsed w ≤ elapsed (io.now w).1) × (elapsed (io.now w).1 ≤ elapsed w + slack)
  pub read :
      (at : ℕ) (w : W)
      → (elapsed w ≤ elapsed (io.read at w).1) × (elapsed (io.read at w).1 ≤ elapsed w + slack)
  pub write :
      (at v : ℕ) (w : W)
      → (elapsed w ≤ elapsed (io.write at v w)) × (elapsed (io.write at v w) ≤ elapsed w + slack)
  pub wait :
      (w : W) → (elapsed w + 1 ≤ elapsed (io.wait w)) × (elapsed (io.wait w) ≤ elapsed w + slack)
  pub small : timeout + 100 * slack < 4294967296

-- The result is there.
abbrev pub Ends : {A : Type 0} → Option A → Type 0
Ends r = r ≢ none

module _ {W : Type 0} (io : I2cIo W) (elapsed : W → ℕ) (slack timeout : ℕ)
    (time : KeepsTime io elapsed slack timeout) where
  -- What a loop that waits leaves, if it ends.
  abbrev Waits : ℕ → ℕ → Option (Waited × W) → Type 0
  Waits begun limit none = ⊥
  Waits begun limit (some (r, w)) = (begun ≤ elapsed w) × (elapsed w ≤ limit)

  await-Waits :
      (fuel begun : ℕ) (w : W)
      → begun ≤ elapsed w
      → elapsed w ≤ begun + timeout + 8 * slack
      → begun + timeout + 1 ≤ elapsed w + fuel
      → 1 ≤ fuel
      → Waits begun (begun + timeout + 10 * slack) (await_idle io fuel (u32 begun) timeout w)
  unfolding await_idle
  await-Waits zero begun w l u f p = absurd (omega arith)
  await-Waits (suc fuel) begun w l u f p =
      let (status, w₁) = io.read Register.sr w in
      let (now, w₂) = io.now w₁ in
      ground (
        arith,
        time.small,
        time.read Register.sr w,
        time.reads w₁,
        time.now w₁,
        time.wait w₂,
        await-Waits fuel begun (io.wait w₂),
      )

  quarantine-Ends :
      (begun limit : ℕ) (b : I2c) (r : Option (Waited × W))
      → Waits begun limit r
      → Ends (quarantine io b r)
  quarantine-Ends begun limit b none v = absurd v
  quarantine-Ends begun limit b (some (idle, w)) v = cc
  quarantine-Ends begun limit b (some (late, w)) v = cc

  abort-Ends :
      (fuel : ℕ) (b : I2c) (w : W)
      → b.timeout_ticks ≡ timeout
      → timeout + 1 ≤ fuel
      → Ends (abort_bus io fuel b w)
  unfolding abort_bus
  abort-Ends fuel b w t f =
      let (begun, w₁) = io.now w in
      let w₂ = io.write Register.cr (b.divider + 0x40) w₁ in
      let w₃ = io.write Register.isr 0x2ff w₂ in
      let n = time.now w in
      let c = time.write Register.cr (b.divider + 0x40) w₁ in
      let i = time.write Register.isr 0x2ff w₂ in
      let v =
        await-Waits fuel (elapsed w) w₃ (omega arith) (omega arith) (omega arith) (omega arith) in
      quarantine-Ends (elapsed w) (elapsed w + timeout + 10 * slack) b
        (await_idle io fuel begun b.timeout_ticks w₃) (rw (time.reads w, t) v)

  receive-Within :
      (room : ℕ) (bytes : List ℕ) (w : W)
      → (elapsed w ≤ elapsed (receive io room bytes w).1)
        × (elapsed (receive io room bytes w).1 ≤ elapsed w + (2 * room + 1) * slack)
  unfolding receive
  receive-Within zero bytes w = ground (arith, time.read Register.sr w)
  receive-Within (suc room) bytes w =
      let (status, w₁) = io.read Register.sr w in
      let (byte, w₂) = io.read Register.data_reg w₁ in
      let r = receive-Within room (bytes ++ (u8 byte ∷ [])) w₂ in
      let a = time.read Register.sr w in let b = time.read Register.data_reg w₁ in grind arith

  room_le : (r s : ℕ) → r ≤ 16 → (2 * r + 1) * s ≤ 33 * s
  room_le r s l = grind arith

  receive_all-Within :
      (reading : Bool) (size : ℕ) (bytes : List ℕ) (w : W)
      → size ≤ 16
      → let w' = (receive_all io reading size bytes w).1 in
        (elapsed w ≤ elapsed w') × (elapsed w' ≤ elapsed w + 33 * slack)
  receive_all-Within false size bytes w l = ground arith
  receive_all-Within true size bytes w l =
      let r = receive-Within (size - length bytes) bytes w in
      let m = room_le (size - length bytes) slack (omega arith) in (r.0, omega arith)

  exchange-Ends :
      (limit fuel begun : ℕ) (reading : Bool) (size : ℕ) (b : I2c) (bytes : List ℕ) (w : W)
      → b.timeout_ticks ≡ timeout
      → timeout + 1 ≤ limit
      → size ≤ 16
      → begun ≤ elapsed w
      → elapsed w ≤ begun + timeout + 60 * slack
      → begun + timeout + 1 ≤ elapsed w + fuel
      → 1 ≤ fuel
      → Ends (exchange io limit fuel (u32 begun) reading size b bytes w)
  unfolding exchange
  exchange-Ends limit zero begun reading size b bytes w t m z l u f p = absurd (omega arith)
  exchange-Ends limit (suc fuel) begun reading size b₀ bytes w t m z l u f p =
      let (irq, w₁) = io.read Register.isr w in
      let b = record b₀ { last_irq = irq } in
      let (now, w₂) = io.now w₁ in
      let (received, w₃) = receive_all io reading size bytes w₂ in
      let (status, w₄) = io.read Register.sr w₃ in
      ground (
        arith,
        time.small,
        time.read Register.isr w,
        time.reads w₁,
        time.now w₁,
        receive_all-Within reading size bytes w₂ z,
        time.read Register.sr w₃,
        time.wait w₃,
        time.wait w₄,
        abort-Ends limit b w₁ t m,
        abort-Ends limit b w₂ t m,
        abort-Ends limit b w₃ t m,
        abort-Ends limit b w₄ t m,
        exchange-Ends limit fuel begun reading size b (or_none received) (io.wait w₃),
        exchange-Ends limit fuel begun reading size b (or_none received) (io.wait w₄),
      )

  write_bytes-Within :
      (xs : List ℕ) (w : W)
      → (elapsed w ≤ elapsed (write_bytes io xs w))
        × (elapsed (write_bytes io xs w) ≤ elapsed w + length xs * slack)
  unfolding write_bytes
  write_bytes-Within [] w = ground arith
  write_bytes-Within (x ∷ xs) w =
      let r = write_bytes-Within xs (io.write Register.data_reg x w) in
      let a = time.write Register.data_reg x w in grind arith

  size_le : (n s : ℕ) → n ≤ 16 → n * s ≤ 16 * s
  size_le n s l = grind arith

  -- The registers before the bytes, and the bytes or the size.
  sent-Within :
      (reading : Bool) (bytes : List ℕ) (w : W)
      → length bytes ≤ 16
      → let w' =
          if reading then io.write Register.size (length bytes) w else write_bytes io bytes w in
        (elapsed w ≤ elapsed w') × (elapsed w' ≤ elapsed w + 17 * slack)
  sent-Within true bytes w l = ground (arith, time.write Register.size (length bytes) w)
  sent-Within false bytes w l =
      let r = write_bytes-Within bytes w in
      let m = size_le (length bytes) slack l in (r.0, omega arith)

  start-Ends :
      (limit begun : ℕ) (reading : Bool) (address : ℕ) (bytes : List ℕ) (b : I2c)
      (r : Option (Waited × W))
      → b.timeout_ticks ≡ timeout
      → timeout + 1 ≤ limit
      → length bytes ≤ 16
      → Waits begun (begun + timeout + 10 * slack) r
      → Ends (start_exchange io limit (u32 begun) reading address bytes b r)
  unfolding start_exchange
  start-Ends limit begun reading address bytes b none t m l v = absurd v
  start-Ends limit begun reading address bytes b (some (late, w)) t m l v = abort-Ends limit b w t m
  start-Ends limit begun reading address bytes b (some (idle, w)) t m l v =
      let cr = b.divider + 0x4e + (if reading then 1 else 0) in
      let w₁ = io.write Register.cr cr w in
      let w₂ = io.write Register.isr 0x2ff w₁ in
      let w₃ : W =
        if reading then io.write Register.size (length bytes) w₂ else write_bytes io bytes w₂ in
      let w₄ = io.write Register.addr address w₃ in
      let p = time.write Register.cr cr w in
      let q = time.write Register.isr 0x2ff w₁ in
      let n = sent-Within reading bytes w₂ l in
      let d = time.write Register.addr address w₃ in
      exchange-Ends limit limit begun reading (length bytes) (record b { last_irq = 0 }) [] w₄ t m l
        (omega arith) (omega arith) (omega arith) (omega arith)

  -- Every transfer ends, whatever the controller answers, on a clock that keeps time: for each of its loops one round more than the
  -- ticks of the timeout is enough, the abort included.
  pub transfer-Ends :
      (limit address : ℕ) (bytes : List ℕ) (reading : Bool) (b : I2c) (w : W)
      → b.timeout_ticks ≡ timeout
      → timeout + 1 ≤ limit
      → Ends (transfer io limit address bytes reading (b, w))
  unfolding transfer
  transfer-Ends limit address bytes reading b w t m =
      let (begun, w') = io.now w in
      let n = time.now w in
      let v =
        await-Waits limit (elapsed w) w' (omega arith) (omega arith) (omega arith) (omega arith) in
      let v' : Waits (elapsed w) (elapsed w + timeout + 10 * slack)
          (await_idle io limit (u32 (elapsed w)) b.timeout_ticks w') =
        rw t v in
      let go : length bytes ≤ 16
          → Ends (
              start_exchange io limit begun reading address bytes b
                (await_idle io limit begun b.timeout_ticks w')) =
        λ l. rw (time.reads w) (
          start-Ends limit (elapsed w) reading address bytes b
            (await_idle io limit (u32 (elapsed w)) b.timeout_ticks w') t m l v') in
      ground (arith, go)
