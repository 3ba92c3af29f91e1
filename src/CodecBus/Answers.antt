-- ===== src/CodecBus/Answers.antt =====
-- What firmware/src/sonar_codec_bus.c answers to a write.
use air_born_sonar.Common.{
  ℕ, ◌+◌, ◌≤◌, ◌≡◌, ◌≢◌, refl, ◌⊎◌, Bool, true, false, List, [], ◌∷◌, Option, none, some, arith,
  has_bit, not, ◌&&◌, if◌then◌else◌,
}
use air_born_sonar.CodecBus.{BusIo, CodecBus, CodecEvent, has_error, is_free, write, event, abort}
use air_born_sonar.CodecBus.Register

-- A write in progress has a token that is not zero.
pub record IsValid (b : CodecBus) : Type 0 where
  pub owned : b.active ≡ true → b.token ≢ 0
  pub ended : b.terminal ≡ true → b.active ≡ true

pub data Call : Type 0 where
  write_call : ℕ → ℕ → ℕ → ℕ → Call
  event_call abort_call : Call

-- How many of the answers are for a token.
abbrev pub count : Option CodecEvent → ℕ
count none = 0
count (some e) = 1

-- 1 while a write waits for its answer.
abbrev pub due : CodecBus → ℕ
due b = if b.active && not b.terminal then 1 else 0

abbrev pub accepted : Bool → ℕ
accepted true = 1
accepted false = 0

module _ {W : Type 0} (io : BusIo W) where
  -- The state after a call, the writes that it accepted and the answers that it gave.
  abbrev pub step : Call → CodecBus × W → ℕ × ℕ × (CodecBus × W)
  step (write_call a x y token) s = let (ok, s') = write io a x y token s in (accepted ok, 0, s')
  step event_call s = let (e, s') = event io s in (0, count e, s')
  step abort_call s = let (ok, s') = abort io s in (0, 0, s')

  abbrev pub run : List Call → CodecBus × W → ℕ × ℕ × (CodecBus × W)
  run [] s = (0, 0, s)
  run (c ∷ cs) s =
      let (written, answered, s') = step c s in
      let (written', answered', s'') = run cs s' in (written + written', answered + answered', s'')

  -- What every call keeps, with the writes that it accepted and the answers that it gave.
  abbrev Balances : CodecBus → ℕ → ℕ → CodecBus → Type 0
  Balances b written answered b' =
      IsValid b'
      × (answered + due b' ≤ written + due b)
      × (b.quarantined ≡ true → (written ≡ 0) × (b'.quarantined ≡ true))

  write-Balances :
      (a x y token : ℕ) (b : CodecBus) (w : W)
      → IsValid b
      → let (ok, (b', w')) = write io a x y token (b, w) in Balances b (accepted ok) 0 b'
  unfolding write
  write-Balances a x y token b w v = ground arith

  event-Balances :
      (b : CodecBus) (w : W)
      → IsValid b
      → let (e, (b', w')) = event io (b, w) in Balances b 0 (count e) b'
  unfolding event
  event-Balances b w v = ground arith

  abort-Balances : (b : CodecBus) (w : W) → IsValid b → Balances b 0 0 (abort io (b, w)).1.0
  unfolding abort
  abort-Balances b w v = ground arith

  step-Balances :
      (c : Call) (b : CodecBus) (w : W)
      → IsValid b
      → let (written, answered, (b', w')) = step c (b, w) in Balances b written answered b'
  step-Balances (write_call a x y token) b w v = write-Balances a x y token b w v
  step-Balances event_call b w v = event-Balances b w v
  step-Balances abort_call b w v = abort-Balances b w v

  -- Over any calls a write is answered once at most: the answers are no more than the writes that were
  -- accepted, with one that was due at the beginning, and less one that is due at the end. The state stays
  -- valid.
  bus_run_lem :
      (cs : List Call) (b : CodecBus) (w : W)
      → IsValid b
      → let (written, answered, (b', w')) = run cs (b, w) in
        IsValid b' × (answered + due b' ≤ written + due b)
  bus_run_lem [] b w v = ground arith
  bus_run_lem (c ∷ cs) b w v =
      let (written, answered, (b', w')) = step c (b, w) in
      let (v', l, q) = step-Balances c b w v in
      let (v'', l') = bus_run_lem cs b' w' v' in (v'', omega arith)

  -- A bus that could not be reset is never written again.
  pub bus_run_quarantined :
      (cs : List Call) (b : CodecBus) (w : W)
      → IsValid b
      → b.quarantined ≡ true
      → ((run cs (b, w)).0 ≡ 0) × ((run cs (b, w)).2.0.quarantined ≡ true)
  bus_run_quarantined [] b w v q = (refl, q)
  bus_run_quarantined (c ∷ cs) b w v q =
      let (written, answered, (b', w')) = step c (b, w) in
      let (v', l, k) = step-Balances c b w v in
      let (z', q') = bus_run_quarantined cs b' w' v' (k q).1 in (omega (arith, (k q).0, z'), q')

  -- An answer carries the token of the write. An acknowledgement is given only after both bytes were
  -- queued, without an error bit, with the bus free again and the queue empty; an error ends the write
  -- as refused, and it stays on the bus until an abort.
  pub event_lem :
      (b : CodecBus) (w : W) (e : CodecEvent)
      → (event io (b, w)).0 ≡ some e
      → let irq = (io.read Register.isr w).0 in
        let status = (io.read Register.sr (io.read Register.isr w).1).0 in
        let b' = (event io (b, w)).1.0 in
        (e.token ≡ b.token)
        × ((event io (event io (b, w)).1).0 ≡ none)
        × ((e.acknowledged ≡ true)
              × (b.waiting_for_busy ≡ false)
              × (has_error irq ≡ false)
              × (has_bit irq 4 ≡ true)
              × (is_free status ≡ true)
              × (b'.active ≡ false)
            ⊎ (e.acknowledged ≡ false)
              × (has_error irq ≡ true)
              × (b'.active ≡ true)
              × (b'.terminal ≡ true))
  unfolding event
  event_lem b w e h = ground arith
