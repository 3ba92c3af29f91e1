-- ===== src/ControlServer/Connection/Sessions.antt =====
-- The numbers of the connections of firmware/src/sonar_control_server.c.
use air_born_sonar.Common.{
  ℕ, ◌+◌, ◌≤◌, ◌<◌, ◌≡◌, refl, sym, ap, ◌∙◌, ◌⊎◌, inl, inr, false, List, [], ◌∷◌, ◌++◌, Option,
  none, some, arith, u32_max, Bool-cases,
}
use native.Mathlib.Decide.{ℕ_discrete}
use air_born_sonar.ControlServer.{Request}
use air_born_sonar.ControlServer.Connection.{Link, ending, serve, connection_closed, server_round}
use air_born_sonar.ControlServer.Connection.Wire.{Records, Served, serve-Served}

module _ {W : Type 0} (link : Link W) (asked : W → List Request)
    (records : Records link asked) where
  -- What a round of the server asks.
  abbrev ServerRound : ℕ → ℕ → W → W → Type 0
  ServerRound session session' w w' =
      (session' ≡ session) × (asked w' ≡ asked w)
      ⊎ (session < u32_max)
        × (session' ≡ session + 1)
        × ((asked w' ≡ asked w) ⊎ Served link asked records session' w w')

  closed_lem :
      (session session' : ℕ) (o : Option W) (w' : W)
      → connection_closed link session o ≡ some (session', w')
      → (v : W) × (o ≡ some v) × (session' ≡ session) × (asked w' ≡ asked v)
  unfolding connection_closed
  closed_lem session session' none w' e = cc
  closed_lem session session' (some v) w' e =
      (v, refl, ground arith, ground (arith, records.close v))

  moved-Served :
      (n : ℕ) (w w₁ v w' : W)
      → asked w₁ ≡ asked w
      → asked w' ≡ asked v
      → Served link asked records n w₁ v
      → Served link asked records n w w'
  moved-Served n w w₁ v w' a b (qs, last, now, f, e) = (
    qs,
    last,
    now,
    f,
    b ∙ e ∙ ap (λ x. x ++ (qs ++ record (ending n last) { submitted = now } ∷ [])) a,
  )

  connected :
      (session session' : ℕ) (w w₁ v w' : W)
      → session' ≡ session + 1
      → asked w₁ ≡ asked w
      → asked w' ≡ asked v
      → ((link.nonblocking w₁).0 ≡ false) × (asked v ≡ asked w₁)
        ⊎ Served link asked records (session + 1) w₁ v
      → (asked w' ≡ asked w) ⊎ Served link asked records session' w w'
  connected session session' w w₁ v w' n a b (inl (f, e)) = inl (b ∙ e ∙ a)
  connected session session' w w₁ v w' n a b (inr h) = inr (
      coe 0 1 (i. Served link asked records (sym n i) w w')
        (moved-Served (session + 1) w w₁ v w' a b h))

  -- A round of the server serves one connection under a number that no earlier one had, or asks nothing:
  -- the number never wraps.
  server_round_lem :
      (rounds fuel session session' : ℕ) (w w' : W)
      → session ≤ u32_max
      → server_round link rounds fuel session w ≡ some (session', w')
      → ServerRound session session' w w'
  unfolding server_round
  server_round_lem rounds fuel session session' w w' l e =
      let (accepted, w₁) = link.accept w in
      elim (Bool-cases accepted) [
        | inr f ↦ inl (ground arith, ground (arith, records.accept w, records.pause w₁))
        | inl f ↦ elim (ℕ_discrete session u32_max) [
          | yes g ↦ inl (ground arith, ground (arith, records.accept w, records.close w₁))
          | no g ↦
              let (v, s, n, k) =
                closed_lem (session + 1) session' (serve link rounds fuel (session + 1) w₁) w'
                  (ground arith) in
              let h = serve-Served link asked records rounds fuel (session + 1) w₁ v s in
              inr (omega arith, n, connected session session' w w₁ v w' n (records.accept w) k h)
        ]
      ]
