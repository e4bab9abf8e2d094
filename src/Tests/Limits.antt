-- ===== src/Tests/Limits.antt =====
-- src/cua/replay/executor.py: the ceilings of a remedy's run, and a supervised run.
use computer_use_automation.Base.{◌≡◌, ◌↔◌, refl, none, some, [], ◌∷◌, All}
use computer_use_automation.Domain.Actor.{human}
use computer_use_automation.Hitl.Lease as Lease
use computer_use_automation.Hitl.Lease.{Lease, held_by, human_control, plus, paused}
use computer_use_automation.Replay.Limits.{
  Ceilings, RunClock, duration_exceeded, positive, least, over, limits_of, step_budget,
  lease_available, other_holds,
}
use computer_use_automation.Replay.Limits.Bounded.{Within, duration_exceeded-Within}
use computer_use_automation.Tests.Data.{policy, save_form}

abbrev ceilings : Ceilings
ceilings = record { max_steps = none; max_duration_ms = some 0; configured = policy.budgets }

abbrev short : RunClock
short = record { capability = save_form; elapsed = 400 }

abbrev long : RunClock
long = record { capability = save_form; elapsed = 1001 }

-- The remedy is within its time, and the run that it serves is not.
parent_overran :
    duration_exceeded ceilings (short ∷ long ∷ []) ≡ some (record { budget = 1000; elapsed = 1001 })
unfolding duration_exceeded limits_of positive least over
parent_overran = refl

duration_exceeded-Within_example :
    (duration_exceeded ceilings (short ∷ long ∷ []) ≡ none)
    ↔ All (Within ceilings) (short ∷ long ∷ [])
duration_exceeded-Within_example = duration_exceeded-Within ceilings (short ∷ long ∷ [])

own_steps : step_budget ceilings save_form ≡ 5
unfolding step_budget
own_steps = refl

operator_holds :
    lease_available (some (record (Lease.new "s1") { holder = human; state = human_control })) 7
    ≡ some (other_holds human human_control)
unfolding lease_available Lease.new
operator_holds = refl
