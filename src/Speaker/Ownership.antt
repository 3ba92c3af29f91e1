-- ===== src/Speaker/Ownership.antt =====
-- The bus and the output of firmware/src/sonar_codec_service.c.
use air_born_sonar.Common.{ℕ, ◌<◌, ◌≡◌, ◌≢◌, ◌⊎◌, Bool, true, false, List, [], ◌∷◌, arith}
use air_born_sonar.Speaker.{
  off, configuring, ready, fault, bus_error, wait_power, wait_ack, wait_vmid, SpeakerFault,
  SpeakerIo, Speaker, codec_writes, mute, fail, begin, issue_write, poll, acknowledge, event,
  enable, cancel,
}

-- While the codec is configured, the write that is due is one of the ten of the table, the bus is owned
-- exactly while an acknowledgement is awaited, with a token that is not zero, and the output is off. It
-- is off before, too. When the codec is ready, the index is past the table and the bus is free. In FAULT
-- the output is off if the mute was confirmed.
pub record IsValid (s : Speaker) : Type 0 where
  pub due : s.state ≡ configuring → s.index < codec_writes
  pub owned : s.state ≡ configuring → s.phase ≡ wait_ack → (s.bus_owned ≡ true) × (s.token ≢ 0)
  pub idle : s.state ≡ configuring → s.phase ≢ wait_ack → s.bus_owned ≡ false
  pub first : (s.state ≡ off) ⊎ (s.state ≡ configuring) × (s.phase ≡ wait_power) → s.index ≡ 0
  pub vmid : s.state ≡ configuring → s.phase ≡ wait_vmid → s.index ≡ 8
  pub done : s.state ≡ ready → (s.index ≡ codec_writes) × (s.bus_owned ≡ false)
  pub silent : (s.state ≡ off) ⊎ (s.state ≡ configuring) → s.output_enabled ≡ false
  pub muted : s.state ≡ fault → s.mute_confirmed ≡ true → s.output_enabled ≡ false
  pub free : s.state ≡ off → s.bus_owned ≡ false

pub data Call : Type 0 where
  begin_call poll_call : ℕ → Call
  event_call : ℕ → Bool → ℕ → Call
  enable_call : Bool → Call
  cancel_call : Call

module _ {W : Type 0} (io : SpeakerIo W) where
  fail-IsValid : (s : Speaker) (why : SpeakerFault) (w : W) → IsValid (fail io s why w).0
  unfolding fail mute
  fail-IsValid s why w = ground arith

  issue_write-IsValid :
      (s : Speaker) (now : ℕ) (w : W)
      → s.state ≡ configuring
      → s.index < codec_writes
      → s.output_enabled ≡ false
      → IsValid (issue_write io s now w).0
  unfolding issue_write
  issue_write-IsValid s now w c l o = grind (arith, fail-IsValid)

  begin-IsValid : (s : Speaker) (now : ℕ) (w : W) → IsValid s → IsValid (begin io s now w).0
  unfolding begin mute
  begin-IsValid s now w v = ground arith

  poll-IsValid : (s : Speaker) (now : ℕ) (w : W) → IsValid s → IsValid (poll io s now w).0
  unfolding poll
  poll-IsValid s now w v = grind (arith, fail-IsValid, issue_write-IsValid)

  acknowledge-IsValid :
      (s : Speaker) (now : ℕ) (w : W)
      → s.state ≡ configuring
      → s.phase ≡ wait_ack
      → IsValid s
      → IsValid (acknowledge io s now w).0
  unfolding acknowledge
  acknowledge-IsValid s now w c a v = grind (arith, issue_write-IsValid)

  -- While an acknowledgement is awaited a poll only looks for the timeout.
  pub poll_ack :
      (s : Speaker) (now : ℕ) (w : W)
      → s.phase ≡ wait_ack
      → (poll io s now w ≡ (s, w)) ⊎ ((poll io s now w).0.state ≡ fault)
  unfolding poll fail mute
  poll_ack s now w a = ground arith

  event-IsValid :
      (s : Speaker) (token : ℕ) (acknowledged : Bool) (now : ℕ) (w : W)
      → IsValid s
      → IsValid (event io s token acknowledged now w).0
  unfolding event
  event-IsValid s token acknowledged now w v =
      let (s', w') = poll io s now w in
      ground (
        arith,
        poll_ack s now w,
        poll-IsValid s now w v,
        fail-IsValid s' bus_error w',
        acknowledge-IsValid s' now w',
      )

  enable-IsValid : (s : Speaker) (on : Bool) (w : W) → IsValid s → IsValid (enable io s on w).0
  unfolding enable
  enable-IsValid s on w v = grind (arith, fail-IsValid)

  cancel-IsValid : (s : Speaker) (w : W) → IsValid s → IsValid (cancel io s w).0
  unfolding cancel
  cancel-IsValid s w v = grind (arith, fail-IsValid)

  abbrev pub step : Call → Speaker × W → Speaker × W
  step (begin_call now) (s, w) = ((begin io s now w).0, (begin io s now w).2)
  step (poll_call now) (s, w) = poll io s now w
  step (event_call token acknowledged now) (s, w) = event io s token acknowledged now w
  step (enable_call on) (s, w) = ((enable io s on w).0, (enable io s on w).2)
  step cancel_call (s, w) = cancel io s w

  abbrev pub run : List Call → Speaker × W → Speaker × W
  run [] s = s
  run (e ∷ es) s = run es (step e s)

  pub step-IsValid : (e : Call) (s : Speaker) (w : W) → IsValid s → IsValid (step e (s, w)).0
  step-IsValid (begin_call now) s w v = begin-IsValid s now w v
  step-IsValid (poll_call now) s w v = poll-IsValid s now w v
  step-IsValid (event_call token acknowledged now) s w v =
      event-IsValid s token acknowledged now w v
  step-IsValid (enable_call on) s w v = enable-IsValid s on w v
  step-IsValid cancel_call s w v = cancel-IsValid s w v

  -- Any calls in any order keep a valid codec valid.
  pub run-IsValid : (es : List Call) (s : Speaker) (w : W) → IsValid s → IsValid (run es (s, w)).0
  run-IsValid [] s w v = v
  run-IsValid (e ∷ es) s w v =
      run-IsValid es (step e (s, w)).0 (step e (s, w)).1 (step-IsValid e s w v)
