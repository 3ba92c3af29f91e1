-- ===== src/Frames/Pool.antt =====
-- What each operation of the pool of firmware/src/sonar_frames.c does to the slots.
use air_born_sonar.Common.{
  ℕ, zero, suc, ◌+◌, ◌≤◌, ◌<◌, ◌≡◌, ◌≢◌, refl, ◌⊎◌, inl, inr, Bool, true, false, Option, none, some,
  [], ◌∷◌, arith, length, u32_max, Bool-cases, ◌&&◌, ◌||◌, ltb, leb,
}
use air_born_sonar.Frames.{
  FrameState, free, filling, ready, sending, Slot, Frames, slot_at, set_state, is_free, is_ready,
  is_none, first_free, acquire, choose, frames_take,
}

-- The slot at `i` is the first free one.
pub record IsFirstFree (p : Frames) (i : ℕ) : Type 0 where
  pub inside : i < length p
  pub is_free : (slot_at p i).state ≡ free
  pub before : (n : ℕ) → n < i → (slot_at p n).state ≢ free

pub NoneFree : Frames → Type 0
NoneFree p = (n : ℕ) → n < length p → (slot_at p n).state ≢ free

is_free-true : (s : FrameState) → is_free s ≡ true → s ≡ free
is_free-true s h = ground arith

is_free-false : (s : FrameState) → is_free s ≡ false → s ≢ free
is_free-false s h = ground arith

first_free_lem :
    (p : Frames) (k : ℕ)
    → (first_free p k ≡ none) × NoneFree p
      ⊎ ((i : ℕ) × (first_free p k ≡ some (k + i)) × IsFirstFree p i)
unfolding first_free NoneFree
first_free_lem [] k = inl (refl, λ n lt. absurd (omega arith))
first_free_lem (s ∷ ss) k = elim (Bool-cases (is_free s.state)) [
  | inl f ↦ inr (
    0,
    ground arith,
    record {
      inside = omega arith;
      is_free = is_free-true s.state f;
      before = λ n lt. absurd (omega arith);
    },
  )
  | inr f ↦ elim (first_free_lem ss (k + 1)) [
    | inl (e, all) ↦ inl (ground arith, λ n. shift n f all)
    | inr (i, e, found) ↦ inr (
      suc i,
      ground arith,
      record {
        inside = omega (arith, found.inside);
        is_free = found.is_free;
        before = λ n. below n i f found.before;
      },
    )
  ]
]
  where
    shift :
        (n : ℕ)
        → is_free s.state ≡ false
        → NoneFree ss
        → n < length (s ∷ ss)
        → (slot_at (s ∷ ss) n).state ≢ free
    shift zero f all lt = is_free-false s.state f
    shift (suc n) f all lt = all n (omega arith)

    below :
        (n i : ℕ)
        → is_free s.state ≡ false
        → ((m : ℕ) → m < i → (slot_at ss m).state ≢ free)
        → n < suc i
        → (slot_at (s ∷ ss) n).state ≢ free
    below zero i f h lt = is_free-false s.state f
    below (suc n) i f h lt = h n (omega arith)

-- `acquire` returns the first free slot, which alone it marks FILLING; it returns none and changes
-- nothing exactly if no slot is free.
pub acquire_lem :
    (p : Frames)
    → (acquire p ≡ (p, none)) × NoneFree p
      ⊎ ((i : ℕ) × (acquire p ≡ (set_state p i filling, some i)) × IsFirstFree p i)
unfolding acquire
acquire_lem p = elim (first_free_lem p 0) [
  | inl (e, all) ↦ inl (rw e, all)
  | inr (i, e, found) ↦ inr (i, rw e (ground arith), found)
]

-- A frame that may be sent.
abbrev pub IsEligible : ℕ → Slot → Type 0
IsEligible through s = (s.state ≡ ready) × (s.frame.sequence ≤ through)

abbrev pub sequence_at : Frames → ℕ → ℕ
sequence_at p i = (slot_at p i).frame.sequence

record IsKept (p : Frames) (through : ℕ) (chosen : Option ℕ) (oldest : ℕ) (r : Option ℕ)
    : Type 0 where
  same : r ≡ chosen
  older :
      (n : ℕ)
      → n < length p
      → IsEligible through (slot_at p n)
      → (chosen ≢ none) × (oldest ≤ sequence_at p n)

pub record IsOldest (p : Frames) (through i : ℕ) : Type 0 where
  pub inside : i < length p
  pub eligible : IsEligible through (slot_at p i)
  pub least :
      (n : ℕ) → n < length p → IsEligible through (slot_at p n) → sequence_at p i ≤ sequence_at p n

pub NoneEligible : Frames → ℕ → Type 0
NoneEligible p through = (n : ℕ) → n < length p → ¬ IsEligible through (slot_at p n)

abbrev better : Slot → ℕ → Option ℕ → ℕ → Bool
better s through chosen oldest =
    is_ready s.state
    && leb s.frame.sequence through
    && (is_none chosen || ltb s.frame.sequence oldest)

better-true :
    (s : Slot) (through : ℕ) (chosen : Option ℕ) (oldest : ℕ)
    → better s through chosen oldest ≡ true
    → IsEligible through s × ((chosen ≡ none) ⊎ (s.frame.sequence < oldest))
better-true s through chosen oldest h = ground arith

better-false :
    (s : Slot) (through : ℕ) (chosen : Option ℕ) (oldest : ℕ)
    → better s through chosen oldest ≡ false
    → IsEligible through s
    → (chosen ≢ none) × (oldest ≤ s.frame.sequence)
better-false s through chosen oldest h e = ground arith

choose-better :
    (s : Slot) (ss : Frames) (k through : ℕ) (chosen : Option ℕ) (oldest : ℕ)
    → better s through chosen oldest ≡ true
    → choose (s ∷ ss) k through chosen oldest ≡ choose ss (k + 1) through (some k) s.frame.sequence
unfolding choose
choose-better s ss k through chosen oldest b = rw b

choose-worse :
    (s : Slot) (ss : Frames) (k through : ℕ) (chosen : Option ℕ) (oldest : ℕ)
    → better s through chosen oldest ≡ false
    → choose (s ∷ ss) k through chosen oldest ≡ choose ss (k + 1) through chosen oldest
unfolding choose
choose-worse s ss k through chosen oldest b = rw b

-- A property of every eligible slot, from the head and the tail.
cons-eligible {ℓ} :
    (P : Slot → Type ℓ) (s : Slot) (ss : Frames) (through : ℕ)
    → (IsEligible through s → P s)
    → ((n : ℕ) → n < length ss → IsEligible through (slot_at ss n) → P (slot_at ss n))
    → (n : ℕ) → n < length (s ∷ ss)
    → IsEligible through (slot_at (s ∷ ss) n)
    → P (slot_at (s ∷ ss) n)
cons-eligible P s ss through h hs zero lt e = h e
cons-eligible P s ss through h hs (suc n) lt e = hs n (omega arith) e

shift_some : (r : Option ℕ) (k i : ℕ) → r ≡ some (k + 1 + i) → r ≡ some (k + suc i)
shift_some r k i h = ground arith

choose_lem :
    (p : Frames) (k through : ℕ) (chosen : Option ℕ) (oldest : ℕ)
    → IsKept p through chosen oldest (choose p k through chosen oldest)
      ⊎ ((i : ℕ) × (choose p k through chosen oldest ≡ some (k + i))
          × IsOldest p through i
          × ((chosen ≡ none) ⊎ (sequence_at p i < oldest)))
choose_lem [] k through chosen oldest =
    inl (record { same = unfold choose in refl; older = λ n lt e. absurd (omega arith) })
choose_lem (s ∷ ss) k through chosen oldest = elim (Bool-cases (better s through chosen oldest)) [
  | inl b ↦
      rw (choose-better s ss k through chosen oldest b)
        (elim (choose_lem ss (k + 1) through (some k) s.frame.sequence) [
          | inl kept ↦ inr (
            0,
            ground (arith, kept.same),
            record {
              inside = omega arith;
              eligible = (better-true s through chosen oldest b).0;
              least =
                  cons-eligible (λ t. s.frame.sequence ≤ t.frame.sequence) s ss through
                    (λ e. omega arith) (λ n lt e. (kept.older n lt e).1);
            },
            (better-true s through chosen oldest b).1,
          )
          | inr (i, e, found, less) ↦ inr (
            suc i,
            shift_some _ k i e,
            record {
              inside = omega (arith, found.inside);
              eligible = found.eligible;
              least =
                  cons-eligible (λ t. sequence_at ss i ≤ t.frame.sequence) s ss through
                    (λ e'. ground arith) found.least;
            },
            ground (arith, better-true s through chosen oldest b),
          )
        ])
  | inr b ↦
      rw (choose-worse s ss k through chosen oldest b)
        (elim (choose_lem ss (k + 1) through chosen oldest) [
          | inl kept ↦ inl (record {
            same = kept.same;
            older =
                cons-eligible (λ t. (chosen ≢ none) × (oldest ≤ t.frame.sequence)) s ss through
                  (better-false s through chosen oldest b) kept.older;
          })
          | inr (i, e, found, less) ↦ inr (
            suc i,
            shift_some _ k i e,
            record {
              inside = omega (arith, found.inside);
              eligible = found.eligible;
              least =
                  cons-eligible (λ t. sequence_at ss i ≤ t.frame.sequence) s ss through
                    (λ e'. ground (arith, better-false s through chosen oldest b e')) found.least;
            },
            less,
          )
        ])
]

-- `frames_take` returns the READY slot with the least sequence number of those up to `through`, and
-- marks it alone SENDING; it returns none and changes nothing exactly if there is no such slot.
pub frames_take_lem :
    (p : Frames) (through : ℕ)
    → (frames_take p through ≡ (p, none)) × NoneEligible p through
      ⊎ ((i : ℕ) × (frames_take p through ≡ (set_state p i sending, some i)) × IsOldest p through i)
unfolding frames_take NoneEligible
frames_take_lem p through = elim (choose_lem p 0 through none u32_max) [
  | inl kept ↦ inl (rw kept.same, λ n lt e. (kept.older n lt e).0 refl)
  | inr (i, e, found, less) ↦ inr (i, rw e (ground arith), found)
]
