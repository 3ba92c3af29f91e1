-- ===== src/I2c/Divider.antt =====
-- The divider that firmware/src/sonar_ps_i2c.c chooses for the clock of the bus.
use air_born_sonar.Common.{
  ℕ, zero, suc, ◌/◌, ◌≤◌, ◌<◌, ◌≡◌, refl, sym, ◌∙◌, ◌⊎◌, inl, inr, false, some, arith, u32_max,
}
use air_born_sonar.I2c.{I2cIo, I2c, rate_error, divider_of, search, init}

search_least : (n f scl i : ℕ) → i < n → (search n f scl).0 ≤ rate_error f scl i
unfolding search
search_least zero f scl i l = absurd (omega arith)
search_least (suc n) f scl i l = ground (arith, search_least n f scl i)

search_step :
    (n f scl : ℕ)
    → (search (suc n) f scl ≡ search n f scl)
      ⊎ (search (suc n) f scl ≡ (rate_error f scl n, divider_of n))
unfolding search
search_step n f scl = ground arith

-- What the search finds is the start or a divider with its error.
abbrev Found : ℕ → ℕ → ℕ → ℕ × ℕ → Type 0
Found n f scl (best, divider) =
    (best ≡ u32_max) ⊎ ((i : ℕ) × (i < n) × (divider ≡ divider_of i) × (best ≡ rate_error f scl i))

later : (n f scl : ℕ) (r : ℕ × ℕ) → Found n f scl r → Found (suc n) f scl r
later n f scl r (inl e) = inl e
later n f scl r (inr (i, l, d, e)) = inr (i, omega arith, d, e)

search-Found : (n f scl : ℕ) → Found n f scl (search n f scl)
unfolding search
search-Found zero f scl = inl refl
search-Found (suc n) f scl = elim (search_step n f scl) [
  | inl e ↦ rw e (later n f scl (search n f scl) (search-Found n f scl))
  | inr e ↦ rw e (inr (n, omega arith, refl, refl))
]

accepted :
    {W : Type 0} (io : I2cIo W) (f scl timeout : ℕ) (w : W) (b : I2c)
    → (init io f scl timeout w).0 ≡ some b
    → ((search 256 f scl).0 ≤ scl / 20)
      × (scl ≤ 400000)
      × (b.divider ≡ (search 256 f scl).1)
      × (b.timeout_ticks ≡ timeout)
      × (0 < timeout)
      × (timeout < 0x80000000)
      × (b.quarantined ≡ false)
unfolding init
accepted io f scl timeout w b h = ground arith

-- An accepted start-up chooses a divider of the best rate: the error of its rate is at most a twentieth of
-- the wanted rate, and no other setting of the two dividers has a smaller one. Nothing is quarantined.
pub i2c_init_lem :
    {W : Type 0} (io : I2cIo W) (f scl timeout : ℕ) (w : W) (b : I2c)
    → (init io f scl timeout w).0 ≡ some b
    → ((i : ℕ) × (i < 256)
        × (b.divider ≡ divider_of i)
        × (rate_error f scl i ≤ scl / 20)
        × ((j : ℕ) → j < 256 → rate_error f scl i ≤ rate_error f scl j))
      × (b.timeout_ticks ≡ timeout)
      × (0 < timeout)
      × (timeout < 0x80000000)
      × (b.quarantined ≡ false)
i2c_init_lem io f scl timeout w b h =
    let (small, bound, divider, same, low, high, free) = accepted io f scl timeout w b h in
    elim (search-Found 256 f scl) [
      | inl e ↦ absurd (omega arith)
      | inr (i, l, d, e) ↦ (
        (i, l, divider ∙ d, omega arith, λ j k. rw (sym e) (search_least 256 f scl j k)),
        same,
        low,
        high,
        free,
      )
    ]
