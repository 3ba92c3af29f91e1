-- ===== src/Supervisor/Order.antt =====
-- The order in which the heartbeats of firmware/src/sonar_supervisor.c arrive.
use air_born_sonar.Common.{ℕ, ◌+◌, ◌≡◌, ◌≢◌, Bool, List, [], ◌∷◌, u32}
use air_born_sonar.Health.{Heartbeat, Health, fault_sequence}
use air_born_sonar.Supervisor.{
  Watch, unstarted, watching, latched, halted, Supervisor, heartbeat, supervise,
}

-- An event: the experiment task reports at a tick, or the watching task gets to run.
pub data Event : Type 0 where
  beat : ℕ → Event
  watch : Bool → ℕ → Event

abbrev pub step : Event → Supervisor → Supervisor
step (beat now) s = heartbeat now s
step (watch has_watchdog now) s = supervise has_watchdog now s

abbrev pub run : List Event → Supervisor → Supervisor
run [] s = s
run (e ∷ es) s = run es (step e s)

-- The heartbeats have the sequence numbers from `from` up to, and without, `to`, modulo 2^32.
abbrev pub Consecutive : ℕ → List Heartbeat → ℕ → Type 0
Consecutive from [] to = from ≡ to
Consecutive from (e ∷ es) to = (e.sequence ≡ from) × Consecutive (u32 (from + 1)) es to

-- What the watching task has seen fits what is in the queue.
abbrev WatchFits : Watch → List Heartbeat → ℕ → Type 0
WatchFits unstarted queue to = Consecutive 0 queue to
WatchFits (watching h announced last_report) queue to =
    Consecutive h.next_sequence queue to × (h.state ≢ fault_sequence)
WatchFits (latched h) queue to = h.state ≢ fault_sequence
WatchFits halted queue to = Unit

abbrev Fits : Supervisor → Type 0
Fits s = WatchFits s.watch s.queue s.sequence
