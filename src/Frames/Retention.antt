-- ===== src/Frames/Retention.antt =====
-- Frames of firmware/src/sonar_frames.c are kept until the host has acknowledged them.
use air_born_sonar.Common.{
  ℕ, ◌<◌, ◌≡◌, ◌≢◌, ◌⊎◌, inl, inr, Bool, true, false, List, [], ◌∷◌, arith, length, set, length-set,
  get_or-set_self, get_or-set_ne,
}
use native.Mathlib.Decide.{ℕ_discrete}
use air_born_sonar.Frames.{
  FrameMeta, free, filling, ready, sending, Slot, Frames, slot_at, zero_slot, acquire, publish,
  frames_take, finish, discard,
}
use air_born_sonar.Frames.Pool.{acquire_lem, frames_take_lem}

-- The calls of the capturing task and of the sender.
pub data Op : Type 0 where
  acquire_op : Op
  publish_op : ℕ → FrameMeta → Op
  take_op : ℕ → Op
  finish_op : ℕ → Bool → Op
  discard_op : ℕ → Op

abbrev pub step : Frames → Op → Frames
step p acquire_op = (acquire p).0
step p (publish_op i m) = (publish p i m).0
step p (take_op through) = (frames_take p through).0
step p (finish_op i ack) = (finish p i ack).0
step p (discard_op i) = discard p i

abbrev pub run : Frames → List Op → Frames
run p [] = p
run p (o ∷ os) = run (step p o) os

-- The coordinator discards only the slot that it is filling.
abbrev pub IsLegal : Frames → Op → Type 0
IsLegal p (discard_op i) = (slot_at p i).state ≡ filling
IsLegal p _ = Unit

abbrev pub AllLegal : Frames → List Op → Type 0
AllLegal p [] = Unit
AllLegal p (o ∷ os) = IsLegal p o × AllLegal (step p o) os

-- The call is not the acknowledgement of slot `j`.
abbrev pub IsNoAck : ℕ → Op → Type 0
IsNoAck j (finish_op i true) = i ≢ j
IsNoAck j _ = Unit

abbrev pub NoAcks : ℕ → List Op → Type 0
NoAcks j [] = Unit
NoAcks j (o ∷ os) = IsNoAck j o × NoAcks j os

-- Slot `j` holds the published frame `m`.
pub record IsHeld (p : Frames) (j : ℕ) (m : FrameMeta) : Type 0 where
  pub inside : j < length p
  pub held : ((slot_at p j).state ≡ ready) ⊎ ((slot_at p j).state ≡ sending)
  pub same : (slot_at p j).frame ≡ m

pub slot_at-set :
    (p : Frames) (i j : ℕ) (v : Slot)
    → j < length p
    → (i ≡ j) × (slot_at (set p i v) j ≡ v) ⊎ (i ≢ j) × (slot_at (set p i v) j ≡ slot_at p j)
slot_at-set p i j v h = elim (ℕ_discrete i j) [
  | yes e ↦ inl (e, rw e (get_or-set_self p j v zero_slot h))
  | no n ↦ inr (n, get_or-set_ne p i j v zero_slot n)
]

-- A write to another slot, or one that keeps the frame and leaves it READY or SENDING.
pub set-IsHeld :
    (p : Frames) (i j : ℕ) (m : FrameMeta) (v : Slot)
    → IsHeld p j m
    → (i ≡ j → ((v.state ≡ ready) ⊎ (v.state ≡ sending)) × (v.frame ≡ m))
    → IsHeld (set p i v) j m
set-IsHeld p i j m v h keep = ground (arith, slot_at-set p i j v h.inside, length-set p i v)

pub acquire-IsHeld : (p : Frames) (j : ℕ) (m : FrameMeta) → IsHeld p j m → IsHeld (acquire p).0 j m
acquire-IsHeld p j m h = elim (acquire_lem p) [
  | inl (e, all) ↦ rw e h
  | inr (i, e, found) ↦ rw e (set-IsHeld p i j m _ h (λ q. ground (arith, found.is_free)))
]

take-IsHeld :
    (p : Frames) (through j : ℕ) (m : FrameMeta)
    → IsHeld p j m
    → IsHeld (frames_take p through).0 j m
take-IsHeld p through j m h = elim (frames_take_lem p through) [
  | inl (e, all) ↦ rw e h
  | inr (i, e, found) ↦ rw e (set-IsHeld p i j m _ h (λ q. ground arith))
]

pub step-IsHeld :
    (p : Frames) (o : Op) (j : ℕ) (m : FrameMeta)
    → IsLegal p o
    → IsNoAck j o
    → IsHeld p j m
    → IsHeld (step p o) j m
unfolding publish finish discard
step-IsHeld p acquire_op j m l n h = acquire-IsHeld p j m h
step-IsHeld p (publish_op i x) j m l n h =
    ground (arith, set-IsHeld p i j m (record { state = ready; frame = x }) h)
step-IsHeld p (take_op through) j m l n h = take-IsHeld p through j m h
step-IsHeld p (finish_op i true) j m l n h =
    ground (arith, set-IsHeld p i j m (record (slot_at p i) { state = free }) h)
step-IsHeld p (finish_op i false) j m l n h =
    ground (arith, set-IsHeld p i j m (record (slot_at p i) { state = ready }) h)
step-IsHeld p (discard_op i) j m l n h = set-IsHeld p i j m _ h (λ q. ground arith)

-- No capture is lost: a published frame stays in its slot, with its metadata, through any further
-- captures, transfers, failed transfers and discards of the slot being filled, until the sender
-- finishes that slot with an acknowledgement.
pub run-IsHeld :
    (os : List Op) (p : Frames) (j : ℕ) (m : FrameMeta)
    → AllLegal p os
    → NoAcks j os
    → IsHeld p j m
    → IsHeld (run p os) j m
run-IsHeld [] p j m l n h = h
run-IsHeld (o ∷ os) p j m l n h =
    run-IsHeld os (step p o) j m l.1 n.1 (step-IsHeld p o j m l.0 n.0 h)

-- `publish` stores the frame exactly if the slot exists and is FILLING, and the slot then holds it;
-- otherwise it changes nothing.
pub publish-IsHeld :
    (p : Frames) (i : ℕ) (m : FrameMeta)
    → ((publish p i m).1 ≡ true)
        × (i < length p)
        × ((slot_at p i).state ≡ filling)
        × IsHeld (publish p i m).0 i m
      ⊎ ((publish p i m).1 ≡ false)
        × ((publish p i m).0 ≡ p)
        × ((length p ≡ i) ⊎ ((length p < i) ⊎ ((slot_at p i).state ≢ filling)))
unfolding publish
publish-IsHeld p i m = ground (
  arith,
  slot_at-set p i i (record { state = ready; frame = m }),
  length-set p i (record { state = ready; frame = m }),
)
