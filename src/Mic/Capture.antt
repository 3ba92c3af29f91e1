-- ===== src/Mic/Capture.antt =====
-- What the capture of firmware/src/sonar_mic.c guarantees on each call.
use air_born_sonar.Common.{ℕ, ◌+◌, ◌%◌, ◌≤◌, ◌<◌, ◌≡◌, ◌≢◌, ◌⊎◌, true, false, arith, i32_max}
use air_born_sonar.Mic.{
  idle, capturing, ready, fault, ok, MicConfig, MicIo, MicEvent, Mic, init, start, handle, poll,
  cancel, release,
}

-- What holds between two calls: only a capture, or a fault whose abort did not succeed, leaves the
-- buffer to the DMA; a fault has a cause; the deadline is positive and wrap-safe; and the span of
-- whole cache lines covers the bytes.
pub record IsValid (c : Mic) : Type 0 where
  pub owned : (c.state ≡ idle) ⊎ (c.state ≡ ready) → c.dma_owned ≡ false
  pub in_flight : c.state ≡ capturing → c.dma_owned ≡ true
  pub caused : c.state ≡ fault → c.cause ≢ ok
  pub deadline : c.state ≢ fault → (0 < c.config.timeout_ticks) × (c.config.timeout_ticks ≤ i32_max)
  pub covered :
      c.state ≢ fault
      → (c.config.bytes ≤ c.cache_span)
        × (c.cache_span < c.config.bytes + 32)
        × (c.cache_span % 32 ≡ 0)

-- `init` leaves a valid object on every branch. It accepts exactly the configurations whose buffer is
-- a cache-aligned address that has room for the whole lines, with a length that is a positive
-- multiple of 4 within the DMA register, a positive wrap-safe deadline and a positive sample rate.
pub capture_init-IsValid :
    (config : MicConfig) (buffer capacity : ℕ)
    → let (c, accepted) = init config buffer capacity in
      IsValid c
      × ((accepted ≡ true)
            × (c.state ≡ idle)
            × (0 < buffer)
            × (buffer % 32 ≡ 0)
            × (0 < config.bytes)
            × (config.bytes % 4 ≡ 0)
            × (config.bytes ≤ 0x03ffffff)
            × (config.bytes ≤ capacity)
          ⊎ (accepted ≡ false) × (c.state ≡ fault))
unfolding init
capture_init-IsValid config buffer capacity = ground arith

module _ {W : Type 0} (io : MicIo W) where
  pub start-IsValid : (c : Mic) (now : ℕ) (w : W) → IsValid c → IsValid (start io c now w).0
  unfolding start
  start-IsValid c now w v = ground arith

  pub handle-IsValid :
      (c : Mic) (e : MicEvent) (now : ℕ) (w : W) → IsValid c → IsValid (handle io c e now w).0
  unfolding handle
  handle-IsValid c e now w v = ground arith

  pub poll-IsValid : (c : Mic) (now : ℕ) (w : W) → IsValid c → IsValid (poll io c now w).0
  unfolding poll
  poll-IsValid c now w v = ground arith

  pub cancel-IsValid : (c : Mic) (w : W) → IsValid c → IsValid (cancel io c w).0
  unfolding cancel
  cancel-IsValid c w v = ground arith

pub release-IsValid : (c : Mic) → IsValid c → IsValid (release c).0
unfolding release
release-IsValid c v = ground arith
