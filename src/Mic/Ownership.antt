-- ===== src/Mic/Ownership.antt =====
-- Who owns the buffer of firmware/src/sonar_mic.c over a sequence of calls.
use air_born_sonar.Common.{
  ℕ, ◌<◌, ◌≤◌, ◌≡◌, ◌≢◌, refl, ◌⊎◌, Bool, true, false, some, List, [], ◌∷◌, arith, sub32, u32, ◌+◌,
  i32_max, has_bit,
}
use air_born_sonar.Mic.{
  idle, capturing, ready, MicIo, MicEvent, Mic, start, handle, poll, cancel, frame, release,
}
use air_born_sonar.Mic.Capture.{
  IsValid, start-IsValid, handle-IsValid, poll-IsValid, cancel-IsValid, release-IsValid,
}

pub data Call : Type 0 where
  start_call : ℕ → Call
  event_call : MicEvent → ℕ → Call
  poll_call : ℕ → Call
  cancel_call : Call
  release_call : Call

abbrev pub IsNoRelease : Call → Type 0
IsNoRelease release_call = ⊥
IsNoRelease _ = Unit

abbrev pub NoReleases : List Call → Type 0
NoReleases [] = Unit
NoReleases (e ∷ es) = IsNoRelease e × NoReleases es

-- The event that completes a capture in time.
pub record IsDone (c : Mic) (e : MicEvent) (now : ℕ) : Type 0 where
  pub in_flight : c.state ≡ capturing
  pub current : e.generation ≡ c.generation
  pub no_error : has_bit e.flags 1 ≡ false
  pub no_overflow : has_bit e.flags 2 ≡ false
  pub done : has_bit e.flags 0 ≡ true
  pub seen_in_time : sub32 now c.started < c.config.timeout_ticks
  pub done_in_time : sub32 e.tick c.started < c.config.timeout_ticks
  pub not_future : sub32 now e.tick ≤ i32_max
  pub full : e.bytes ≡ c.config.bytes

module _ {W : Type 0} (io : MicIo W) where
  abbrev pub step : Call → Mic × W → Mic × W
  step (start_call now) (c, w) = ((start io c now w).0, (start io c now w).2)
  step (event_call e now) (c, w) = handle io c e now w
  step (poll_call now) (c, w) = poll io c now w
  step cancel_call (c, w) = cancel io c w
  step release_call (c, w) = ((release c).0, w)

  abbrev pub run : List Call → Mic × W → Mic × W
  run [] s = s
  run (e ∷ es) s = run es (step e s)

  -- A complete event, the current one, without error or overflow, in time and of full length, makes
  -- a capture READY once the DMA is proved idle: the frame is then available, with the length and the
  -- ticks of the capture, and the DMA no longer owns the buffer.
  handle_completes :
      (c : Mic) (e : MicEvent) (now : ℕ) (w : W)
      → IsDone c e now
      → (io.finish c.buffer c.cache_span w).0 ≡ true
      → let (c', w') = handle io c e now w in
        (w' ≡ (io.finish c.buffer c.cache_span w).1)
        × (c'.state ≡ ready)
        × (c'.dma_owned ≡ false)
        × (frame c'
            ≡ some record {
              address = c.buffer;
              bytes = c.config.bytes;
              generation = c.generation;
              request_tick = c.started;
              completion_tick = e.tick;
              pdm_hz = c.config.pdm_hz;
              overflow_checked = e.overflow_observable;
            })
  unfolding handle frame
  handle_completes c e now w d f = ground arith

  -- An event makes a capture READY only if it is the current one, complete, without error or overflow,
  -- in time and of full length, and the DMA was proved idle.
  pub handle-IsDone :
      (c : Mic) (e : MicEvent) (now : ℕ) (w : W)
      → c.state ≢ ready
      → (handle io c e now w).0.state ≡ ready
      → IsDone c e now × ((io.finish c.buffer c.cache_span w).0 ≡ true)
  unfolding handle
  handle-IsDone c e now w s r = ground arith

  step_ready :
      (e : Call) (c : Mic) (w : W) → IsNoRelease e → c.state ≡ ready → step e (c, w) ≡ (c, w)
  unfolding start handle poll cancel
  step_ready (start_call now) c w n h = ground arith
  step_ready (event_call e now) c w n h = ground arith
  step_ready (poll_call now) c w n h = ground arith
  step_ready cancel_call c w n h = ground arith
  step_ready release_call c w n h = absurd n

  -- The frame of a READY capture stays as it is until it is released: no start, event, poll or cancel
  -- changes the object or touches the hardware.
  pub run_ready :
      (es : List Call) (c : Mic) (w : W) → NoReleases es → c.state ≡ ready → run es (c, w) ≡ (c, w)
  run_ready [] c w n h = refl
  run_ready (e ∷ es) c w n h = rw (step_ready e c w n.0 h, run) (run_ready es c w n.1 h)

-- What the callbacks promise of `busy`, which says whether the DMA may still write into the buffer: it is
-- not set by a preparation, and not left by a finish or an abort that succeeds, which have seen the DMA
-- idle or reset. All others may leave it either way.
pub record ProvesIdle {W : Type 0} (io : MicIo W) (busy : W → Bool) : Type 0 where
  pub prepare :
      (buffer span : ℕ) (w : W) → busy w ≡ false → busy (io.prepare buffer span w).1 ≡ false
  pub finish :
      (buffer span : ℕ) (w : W)
      → (io.finish buffer span w).0 ≡ true
      → busy (io.finish buffer span w).1 ≡ false
  pub abort : (w : W) → (io.abort w).0 ≡ true → busy (io.abort w).1 ≡ false

module _ {W : Type 0} (io : MicIo W) (busy : W → Bool) (proves : ProvesIdle io busy) where
  -- The object is valid, and the DMA writes only into a buffer that it owns.
  abbrev pub IsSafe : Mic × W → Type 0
  IsSafe (c, w) = IsValid c × (c.dma_owned ≡ false → busy w ≡ false)

  start-IsSafe :
      (c : Mic) (now : ℕ) (w : W)
      → IsSafe (c, w)
      → IsSafe ((start io c now w).0, (start io c now w).2)
  unfolding start
  start-IsSafe c now w (v, b) =
      let w₁ = (io.prepare c.buffer c.cache_span w).1 in
      let w₂ = (io.arm c.buffer c.config.bytes (u32 (c.generation + 1)) w₁).1 in
      (
        start-IsValid io c now w v,
        ground (
          arith,
          v.owned,
          proves.prepare c.buffer c.cache_span w,
          proves.abort w₁,
          proves.abort w₂,
          proves.abort (io.trigger w₂).1,
        ),
      )

  handle-IsSafe :
      (c : Mic) (e : MicEvent) (now : ℕ) (w : W) → IsSafe (c, w) → IsSafe (handle io c e now w)
  unfolding handle
  handle-IsSafe c e now w (v, b) = (
    handle-IsValid io c e now w v,
    ground (
      arith,
      proves.finish c.buffer c.cache_span w,
      proves.abort w,
      proves.abort (io.finish c.buffer c.cache_span w).1,
    ),
  )

  poll-IsSafe : (c : Mic) (now : ℕ) (w : W) → IsSafe (c, w) → IsSafe (poll io c now w)
  unfolding poll
  poll-IsSafe c now w (v, b) = (poll-IsValid io c now w v, ground (arith, proves.abort w))

  cancel-IsSafe : (c : Mic) (w : W) → IsSafe (c, w) → IsSafe (cancel io c w)
  unfolding cancel
  cancel-IsSafe c w (v, b) = (cancel-IsValid io c w v, ground (arith, proves.abort w))

  release-IsSafe : (c : Mic) (w : W) → IsSafe (c, w) → IsSafe ((release c).0, w)
  unfolding release
  release-IsSafe c w (v, b) = (release-IsValid c v, ground arith)

  run-IsSafe : (es : List Call) (c : Mic) (w : W) → IsSafe (c, w) → IsSafe (run io es (c, w))
  run-IsSafe [] c w v = v
  run-IsSafe (start_call now ∷ es) c w v = run-IsSafe es _ _ (start-IsSafe c now w v)
  run-IsSafe (event_call e now ∷ es) c w v = run-IsSafe es _ _ (handle-IsSafe c e now w v)
  run-IsSafe (poll_call now ∷ es) c w v = run-IsSafe es _ _ (poll-IsSafe c now w v)
  run-IsSafe (cancel_call ∷ es) c w v = run-IsSafe es _ _ (cancel-IsSafe c w v)
  run-IsSafe (release_call ∷ es) c w v = run-IsSafe es _ _ (release-IsSafe c w v)

  -- Any calls at all keep a valid object valid, and whenever the capture is idle or READY the DMA does not
  -- write into the buffer any more: a recording becomes READY only after the hardware was seen idle. It
  -- needs callbacks whose finish and abort succeed only on a DMA that is idle or reset.
  pub capture_run-IsSafe :
      (es : List Call) (c : Mic) (w : W)
      → IsSafe (c, w)
      → let (c', w') = run io es (c, w) in
        IsSafe (c', w') × ((c'.state ≡ idle) ⊎ (c'.state ≡ ready) → busy w' ≡ false)
  capture_run-IsSafe es c w v = let (v', b) = run-IsSafe es c w v in ((v', b), λ s. b (v'.owned s))
