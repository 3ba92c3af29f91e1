-- ===== src/Speaker/Sending.antt =====
-- What firmware/src/sonar_codec_service.c gives to the bus, and the events that acknowledge it.
use air_born_sonar.Common.{
  ℕ, zero, suc, ◌+◌, ◌≡◌, Bool, ◌&&◌, List, [], ◌∷◌, ◌++◌, if◌then◌else◌, ◌==◌, ltb, sub32,
}
use air_born_sonar.Speaker.{
  SpeakerConfig, SpeakerIo, Speaker, codec_address, bytes_at, is_configuring, is_wait_ack,
}
use air_born_sonar.Speaker.Ownership.{Call, event_call, step}

-- The first `n` writes of the table, each with its address and its number, which is its token.
abbrev pub table : SpeakerConfig → ℕ → List (ℕ × List ℕ × ℕ)
table config zero = []
table config (suc n) = table config n ++ (codec_address, bytes_at config n, n + 1) ∷ []

-- The write in progress is acknowledged in time by an event with its own token.
abbrev pub answers : Speaker → ℕ → Bool → ℕ → Bool
answers s token acknowledged now =
    is_configuring s.state
    && is_wait_ack s.phase
    && acknowledged
    && token == s.token
    && ltb (sub32 now s.phase_tick) s.config.write_timeout_ticks

-- How many writes a call acknowledges.
abbrev pub answered : Call → Speaker → ℕ
answered (event_call token acknowledged now) s = if answers s token acknowledged now then 1 else 0
answered _ s = 0

-- How many writes were given to the bus.
abbrev pub due : Speaker → ℕ
due s = if is_configuring s.state && is_wait_ack s.phase then s.index + 1 else s.index

-- How many writes are acknowledged in a run.
abbrev pub acked : {W : Type 0} → SpeakerIo W → List Call → Speaker × W → ℕ
acked io [] s = 0
acked io (e ∷ es) s = answered e s.0 + acked io es (step io e s)

-- `sent` are the writes that the bus was given, the oldest first.
pub record Logs {W : Type 0} (io : SpeakerIo W) (sent : W → List (ℕ × List ℕ × ℕ)) : Type 0 where
  pub write :
      (address : ℕ) (bytes : List ℕ) (token : ℕ) (w : W)
      → sent (io.write address bytes token w).1 ≡ sent w ++ (address, bytes, token) ∷ []
  pub abort : (w : W) → sent (io.abort w).1 ≡ sent w
  pub enable : (on : Bool) (w : W) → sent (io.enable on w).1 ≡ sent w
