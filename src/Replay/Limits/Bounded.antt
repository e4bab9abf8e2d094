-- ===== src/Replay/Limits/Bounded.antt =====
-- src/cua/replay/executor.py: every ceiling counts, and a capability may only narrow it.
use computer_use_automation.Base.{
  ℕ, ◌≤◌, ◌≡◌, ◌↔◌, ◌⊎◌, refl, Option, none, some, List, [], ◌∷◌, All, arith,
}
use computer_use_automation.Replay.Limits.{
  Ceilings, RunClock, Overrun, own_or, first_of, positive, least, over, limits_of,
  duration_exceeded,
}

-- A limit that is not positive is none.
pub Allows : ℕ → ℕ → Type 0
Allows limit elapsed = (limit ≡ 0) ⊎ (elapsed ≤ limit)

-- The run has not outlived the executor's ceiling, nor its capability's.
pub Within : Ceilings → RunClock → Type 0
Within x run =
    Allows (own_or x.max_duration_ms x.configured.max_duration_ms) run.elapsed
    × Allows run.capability.policy.max_duration_ms run.elapsed

over-Allows :
    (a b elapsed : ℕ)
    → (over (positive (a ∷ b ∷ [])) elapsed ≡ none) ↔ (Allows a elapsed × Allows b elapsed)
unfolding over positive least Allows
over-Allows a b elapsed = ground arith

first_of-none : (a b : Option Overrun) → (first_of a b ≡ none) ↔ ((a ≡ none) × (b ≡ none))
first_of-none none b = ((λ h. (refl, h)), λ k. k.1)
first_of-none (some o) b = ((λ h. absurd (ground arith)), λ k. absurd (ground arith))

-- A run is not found over its budget exactly when neither it nor any run that it serves has taken longer
-- than the executor's ceiling (the configured one, where it has none of its own) or than the ceiling of
-- its capability, a ceiling of 0 being none.
pub duration_exceeded-Within :
    (x : Ceilings) (runs : List RunClock) → (duration_exceeded x runs ≡ none) ↔ All (Within x) runs
unfolding duration_exceeded Within limits_of
duration_exceeded-Within x [] = ((λ _. tt), λ _. refl)
duration_exceeded-Within x (run ∷ parents) =
    let (to, from) = duration_exceeded-Within x parents in
    let (here, back) =
      over-Allows (own_or x.max_duration_ms x.configured.max_duration_ms)
        run.capability.policy.max_duration_ms run.elapsed in
    let (apart, together) =
      first_of-none (over (limits_of x run.capability) run.elapsed) (duration_exceeded x parents) in
    ((λ h. (here ((apart h).0), to ((apart h).1))), λ k. together (back k.0, from k.1))
