-- ===== src/Speaker/Tests.antt =====
-- Runs of the codec service, on a bus that takes every write.
use air_born_sonar.Common.{ℕ, ◌≡◌, refl, ◌++◌, true, false, List, [], ◌∷◌}
use air_born_sonar.Speaker.{
  off, ready, fault, ok, fail, wait_power, SpeakerConfig, SpeakerIo, Speaker, encode, mute, begin,
  issue_write, poll, acknowledge, event,
}
use air_born_sonar.Speaker.Ownership.{Call, begin_call, poll_call, event_call, run}
use air_born_sonar.Speaker.Sending.{acked}

abbrev config : SpeakerConfig
config = record { powerup_ticks = 10; vmid_ticks = 80; write_timeout_ticks = 100; volume = 127 }

-- The world is the list of the writes, the oldest first.
abbrev bus : SpeakerIo (List (ℕ × List ℕ × ℕ))
bus = record {
  write = λ address bytes token w. (true, w ++ (address, bytes, token) ∷ []);
  abort = λ w. (true, w);
  enable = λ on w. (true, w);
}

abbrev fresh : Speaker
fresh = record {
  config = config;
  state = off;
  cause = ok;
  phase = wait_power;
  phase_tick = 0;
  token = 0;
  index = 0;
  bus_owned = false;
  output_enabled = false;
  mute_confirmed = false;
}

-- A whole configuration.
abbrev all_ten : List Call
all_ten =
    begin_call 0
    ∷ poll_call 9
    ∷ poll_call 10
    ∷ event_call 1 true 11
    ∷ event_call 2 true 12
    ∷ event_call 3 true 13
    ∷ event_call 4 true 14
    ∷ event_call 5 true 15
    ∷ event_call 6 true 16
    ∷ event_call 7 true 17
    ∷ event_call 8 true 18
    ∷ poll_call 98
    ∷ event_call 9 true 99
    ∷ event_call 10 true 100
    ∷ []

all_ten_ready : (run bus all_ten (fresh, [])).0.state ≡ ready
unfolding begin mute poll issue_write event acknowledge encode
all_ten_ready = refl

all_ten-acked : acked bus all_ten (fresh, []) ≡ 10
unfolding begin mute poll issue_write event acknowledge encode
all_ten-acked = refl

-- An event with an old token, and one that says the write failed, acknowledge nothing.
abbrev refused : List Call
refused =
    begin_call 0
    ∷ poll_call 10
    ∷ event_call 1 true 11
    ∷ event_call 1 true 12
    ∷ event_call 2 false 13
    ∷ event_call 2 true 14
    ∷ []

refused-acked : acked bus refused (fresh, []) ≡ 1
unfolding begin mute poll issue_write event acknowledge encode fail
refused-acked = refl

refused_fault : (run bus refused (fresh, [])).0.state ≡ fault
unfolding begin mute poll issue_write event acknowledge encode fail
refused_fault = refl
