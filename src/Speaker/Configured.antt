-- ===== src/Speaker/Configured.antt =====
-- The configuration that firmware/src/sonar_codec_service.c keeps.
use air_born_sonar.Common.{ℕ, ◌+◌, ◌≡◌, refl, ◌∙◌, false, List, [], ◌∷◌, some, arith, u8}
use air_born_sonar.Speaker.{
  SpeakerConfig, SpeakerIo, Speaker, init, mute, fail, begin, issue_write, poll, acknowledge, event,
  enable, cancel,
}
use air_born_sonar.Speaker.Ownership.{
  Call, begin_call, poll_call, event_call, enable_call, cancel_call, step, run,
}

pub init-config : (config : SpeakerConfig) (s : Speaker) → init config ≡ some s → s.config ≡ config
unfolding init
init-config config s e = ground (arith, e)

module _ {W : Type 0} (io : SpeakerIo W) where
  issue_write-config :
      (s : Speaker) (now : ℕ) (w : W) → (issue_write io s now w).0.config ≡ s.config
  unfolding issue_write fail mute
  issue_write-config s now w = ground arith

  poll-config : (s : Speaker) (now : ℕ) (w : W) → (poll io s now w).0.config ≡ s.config
  unfolding poll fail mute
  poll-config s now w = ground (arith, issue_write-config s now w)

  acknowledge-config :
      (s : Speaker) (now : ℕ) (w : W) → (acknowledge io s now w).0.config ≡ s.config
  unfolding acknowledge
  acknowledge-config s now w =
      let s' = record s { bus_owned = false; index = u8 (s.index + 1) } in
      ground (arith, issue_write-config s' now w)

  step-config : (e : Call) (s : Speaker) (w : W) → (step io e (s, w)).0.config ≡ s.config
  unfolding begin event enable cancel fail mute
  step-config (begin_call now) s w = ground arith
  step-config (poll_call now) s w = poll-config s now w
  step-config (event_call token acknowledged now) s w =
      let (s', w') = poll io s now w in
      ground (arith, poll-config s now w, acknowledge-config s' now w')
  step-config (enable_call on) s w = ground arith
  step-config cancel_call s w = ground arith

  pub run-config : (es : List Call) (s : Speaker) (w : W) → (run io es (s, w)).0.config ≡ s.config
  run-config [] s w = refl
  run-config (e ∷ es) s w =
      run-config es (step io e (s, w)).0 (step io e (s, w)).1 ∙ step-config e s w
