-- ===== src/Replay/Limits.antt =====
-- src/cua/replay/executor.py: what bounds a run, and whether automation may act. The reasons are data
-- types; a run is given with the runs that it serves, and with the time that each has taken.
pub mod Bounded
pub mod Supervised
use computer_use_automation.Base.{
  ℕ, Bool, true, false, not, Option, none, some, List, [], ◌∷◌, ltb, if◌then◌else◌,
}
use computer_use_automation.Domain.Actor.{Actor, automation, is_actor}
use computer_use_automation.Domain.Capability.{Capability}
use computer_use_automation.Policy.Config.{Budgets}
use computer_use_automation.Hitl.Lease.{Lease, ControlState, expired}

-- The executor's own ceilings, and those of the policy's configuration.
pub record Ceilings : Type 0 where
  pub max_steps : Option ℕ
  pub max_duration_ms : Option ℕ
  pub configured : Budgets

abbrev pub own_or : Option ℕ → ℕ → ℕ
own_or none configured = configured
own_or (some own) configured = own

abbrev pub lesser : ℕ → ℕ → ℕ
lesser a b = if ltb b a then b else a

unfoldable pub step_budget : Ceilings → Capability → ℕ
step_budget x c = lesser (own_or x.max_steps x.configured.max_steps) c.policy.max_steps

-- A run's capability, and the whole milliseconds since the run began.
pub record RunClock : Type 0 where
  pub capability : Capability
  pub elapsed : ℕ

pub record Overrun : Type 0 where
  pub budget : ℕ
  pub elapsed : ℕ

-- `[b for b in ... if b > 0]`
unfoldable pub positive : List ℕ → List ℕ
positive [] = []
positive (b ∷ bs) = let rest = positive bs in if ltb 0 b then b ∷ rest else rest

unfoldable pub least : ℕ → List ℕ → ℕ
least b [] = b
least b (c ∷ cs) = least (lesser b c) cs

-- `min(limits)` against the time, if there are limits.
unfoldable pub over : List ℕ → ℕ → Option Overrun
over [] elapsed = none
over (b ∷ bs) elapsed =
    if ltb (least b bs) elapsed
    then some (record { budget = least b bs; elapsed = elapsed })
    else none

abbrev pub first_of : Option Overrun → Option Overrun → Option Overrun
first_of (some o) later = some o
first_of none later = later

unfoldable pub limits_of : Ceilings → Capability → List ℕ
limits_of x c =
    positive (own_or x.max_duration_ms x.configured.max_duration_ms ∷ c.policy.max_duration_ms ∷ [])

-- The run, and then the run that it is a remedy for.
unfoldable pub duration_exceeded : Ceilings → List RunClock → Option Overrun
duration_exceeded x [] = none
duration_exceeded x (run ∷ parents) =
    first_of (over (limits_of x run.capability) run.elapsed) (duration_exceeded x parents)

-- `_epochs`: the epoch that the run holds, and the lease's, if there is a broker.
unfoldable pub epochs : Option ℕ → Option Lease → ℕ × Option ℕ
epochs held none = (own_or held 1, none)
epochs held (some l) = (own_or held 1, some l.epoch)

pub data Unavailable : Type 0 where
  other_holds : Actor → ControlState → Unavailable
  hold_lapsed : Unavailable

-- The broker's lease, if there is a broker.
unfoldable pub lease_available : Option Lease → ℕ → Option Unavailable
lease_available none now = none
lease_available (some l) now =
    if not (is_actor l.holder automation)
    then some (other_holds l.holder l.state)
    else if expired l now
    then some hold_lapsed
    else none
