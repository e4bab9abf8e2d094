-- ===== src/Agent/Discovery/Bounded.antt =====
-- src/cua/agent/loop.py: whatever the model and the surface do, a discovery run ends within its budget.
use computer_use_automation.Base.{
  ℕ, zero, suc, String, ◌+◌, ◌≤◌, ◌<◌, ◌≡◌, refl, Option, none, some, arith,
}
use mathlib.Core.Path.{subst}
use computer_use_automation.Runtime.Command.{Session}
use computer_use_automation.Replay.Executor.State.{value, raised, unfinished}
use computer_use_automation.Agent.Budget.{StopReason, Budget, exceeded, Turn, after_turn}
use computer_use_automation.Agent.Budget.Bounded.{
  exceeded-none, max_steps-after_turn, steps-after_turn,
}
use computer_use_automation.Agent.Perform.{DiscoveryAgent}
use computer_use_automation.Agent.Discovery.{
  DiscoveryHost, Progress, turn, Ended, on_stop, on_turn, on_limit, rounds, ended, run,
}

module _ {W : Type 0} (a : DiscoveryAgent W) (h : DiscoveryHost W) (goal target_url : String) where
  -- A run that returned took so many steps at most, and one that has not returned let an exception out.
  unfoldable pub Within : ℕ → Ended a h goal target_url → Type 0
  Within most (value (reason, b), p) = b.steps ≤ most
  Within most (raised, p) = Unit {0}
  Within most (unfinished, p) = ⊥

  rounds-Within :
      (fuel n : ℕ) (b : Budget) (p : Progress W)
      → b.steps ≤ b.max_steps
      → b.max_steps < b.steps + fuel
      → Within b.max_steps (rounds a h goal target_url fuel n b p)
  unfolding rounds Within
  rounds-Within zero n b p le lt = absurd (omega arith)
  rounds-Within (suc fuel) n b p le lt =
      at_limit (exceeded (h.elapsed n) b) refl (rounds-Within fuel (suc n))
    where
      rest : Budget → Progress W → Ended a h goal target_url
      rest = rounds a h goal target_url fuel (suc n)

      Bounds : Type 0
      Bounds =
          (c : Budget) (q : Progress W)
          → c.steps ≤ c.max_steps
          → c.max_steps < c.steps + fuel
          → Within c.max_steps (rest c q)

      at_turn :
          (t : Turn) (q : Progress W) (r : Option StopReason)
          → (after_turn t b).0 ≡ r
          → b.steps < b.max_steps
          → Bounds
          → Within b.max_steps (on_stop a h goal target_url rest (r, (after_turn t b).1) q)
      at_turn t q (some reason) e under ih = omega (arith, (steps-after_turn t b).0)
      at_turn t q none e under ih =
          let m = max_steps-after_turn t b in
          let st = (steps-after_turn t b).1 e in
          subst (λ most. Within most (rest (after_turn t b).1 q)) m
            (ih (after_turn t b).1 q (omega (arith, m, st)) (omega (arith, m, st)))

      at_answer :
          (r : Option Turn × Progress W)
          → b.steps < b.max_steps
          → Bounds
          → Within b.max_steps (on_turn a h goal target_url rest b r)
      at_answer (none, q) under ih = tt
      at_answer (some t, q) under ih = at_turn t q (after_turn t b).0 refl under ih

      at_limit :
          (r : Option StopReason)
          → exceeded (h.elapsed n) b ≡ r
          → Bounds
          → Within b.max_steps
              (on_limit a h goal target_url rest r b (turn a h goal target_url n p) p)
      at_limit (some reason) e ih = le
      at_limit none e ih =
          at_answer (turn a h goal target_url n p) (exceeded-none (h.elapsed n) b e) ih

  Within-ended :
      (most : ℕ) (e : Ended a h goal target_url)
      → Within most e
      → Within most (ended a h goal target_url e)
  unfolding Within
  Within-ended most (value (reason, b), p) w = w
  Within-ended most (raised, p) w = w
  Within-ended most (unfinished, p) w = w

  -- Whatever the model answers, the clock says and the surface does, a discovery run whose budget has no
  -- steps taken does not run on: it returns, with no more steps taken than the budget allows, or lets
  -- an exception out.
  pub run-Within :
      (b : Budget) (s : Session W) → b.steps ≡ 0 → Within b.max_steps (run a h goal target_url b s)
  unfolding run
  run-Within b s fresh =
      Within-ended b.max_steps _
        (rounds-Within (b.max_steps + 1) 0 b _ (omega (arith, fresh)) (omega (arith, fresh)))
