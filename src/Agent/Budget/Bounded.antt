-- ===== src/Agent/Budget/Bounded.antt =====
-- src/cua/agent/loop.py: whatever the model does, the run ends.
use computer_use_automation.Base.{ℕ, zero, suc, ◌+◌, ◌≤◌, ◌<◌, ◌≡◌, refl, Option, none, some, arith}
use computer_use_automation.Agent.Budget.{
  StopReason, Budget, exceeded, Turn, failed, no_call, finish, give_up, acted, after_turn, on_turn,
  on_limit, discover,
}

pub exceeded-none : (now : ℕ) (b : Budget) → exceeded now b ≡ none → b.steps < b.max_steps
unfolding exceeded
exceeded-none now b h = ground arith

pub max_steps-after_turn : (t : Turn) (b : Budget) → (after_turn t b).1.max_steps ≡ b.max_steps
unfolding after_turn
max_steps-after_turn failed b = refl
max_steps-after_turn (no_call tokens) b = refl
max_steps-after_turn (finish tokens) b = refl
max_steps-after_turn (give_up tokens) b = refl
max_steps-after_turn (acted tokens progressed denied) b = refl

-- A turn takes one step, and none only if it ends the run.
pub steps-after_turn :
    (t : Turn) (b : Budget)
    → ((after_turn t b).1.steps ≤ b.steps + 1)
      × (((after_turn t b).0 ≡ none) → (after_turn t b).1.steps ≡ b.steps + 1)
unfolding after_turn
steps-after_turn failed b = (omega arith, λ h. absurd (ground arith))
steps-after_turn (no_call tokens) b = (omega arith, λ h. refl)
steps-after_turn (finish tokens) b = (omega arith, λ h. refl)
steps-after_turn (give_up tokens) b = (omega arith, λ h. refl)
steps-after_turn (acted tokens progressed denied) b = (omega arith, λ h. refl)

module _ (turns : ℕ → Turn) (elapsed : ℕ → ℕ) where
  -- The loop from a budget ends with a reason, within the steps that the budget allows.
  abbrev Ends : ℕ → ℕ → Budget → Type 0
  Ends fuel n b =
      (reason : StopReason) × (last : Budget) × (discover turns elapsed fuel n b
        ≡ some (reason, last))
      × (last.steps ≤ b.max_steps)

  discover-Ends :
      (fuel n : ℕ) (b : Budget)
      → b.steps ≤ b.max_steps
      → b.max_steps < b.steps + fuel
      → Ends fuel n b
  unfolding discover
  discover-Ends zero n b le lt = absurd (omega arith)
  discover-Ends (suc fuel) n b le lt =
      at_limit (exceeded (elapsed n) b) refl
        (λ a c. discover-Ends fuel (suc n) (after_turn (turns n) b).1 a c)
    where
      next : Budget
      next = (after_turn (turns n) b).1

      at_turn :
          (r : Option StopReason)
          → (after_turn (turns n) b).0 ≡ r
          → b.steps < b.max_steps
          → (next.steps ≤ next.max_steps
              → next.max_steps < next.steps + fuel
              → Ends fuel (suc n) next)
          → (reason : StopReason) × (last : Budget) × (on_turn
                (r, next)
                (discover turns elapsed fuel (suc n) next)
              ≡ some (reason, last))
            × (last.steps ≤ b.max_steps)
      at_turn (some reason) e under ih =
          (reason, next, refl, omega (arith, (steps-after_turn (turns n) b).0))
      at_turn none e under ih =
          let m = max_steps-after_turn (turns n) b in
          let st = (steps-after_turn (turns n) b).1 e in
          let (reason, last, found, bound) = ih (omega (arith, m, st)) (omega (arith, m, st)) in
          (reason, last, found, omega (arith, m, bound))

      at_limit :
          (r : Option StopReason)
          → exceeded (elapsed n) b ≡ r
          → (next.steps ≤ next.max_steps
              → next.max_steps < next.steps + fuel
              → Ends fuel (suc n) next)
          → (reason : StopReason) × (last : Budget) × (on_limit r b
                (on_turn (after_turn (turns n) b) (discover turns elapsed fuel (suc n) next))
              ≡ some (reason, last))
            × (last.steps ≤ b.max_steps)
      at_limit (some reason) e ih = (reason, b, refl, le)
      at_limit none e ih =
          at_turn (after_turn (turns n) b).0 refl (exceeded-none (elapsed n) b e) ih

  -- Whatever the model does and whatever the clock says, a run that starts with no steps taken ends, in
  -- no more rounds than one more than the steps its budget allows, and takes no more steps than those.
  pub discover_bounded :
      (b : Budget)
      → b.steps ≡ 0
      → (reason : StopReason) × (last : Budget) × (discover turns elapsed (b.max_steps + 1) 0 b
          ≡ some (reason, last))
        × (last.steps ≤ b.max_steps)
  discover_bounded b h = discover-Ends (b.max_steps + 1) 0 b (omega arith) (omega arith)
