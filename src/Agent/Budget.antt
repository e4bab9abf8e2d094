-- ===== src/Agent/Budget.antt =====
-- src/cua/agent/stop.py, with `StopReason` of domain/discovery.py and the loop of agent/loop.py that it
-- bounds. Durations are in one unit, and the clock's reading is an argument. A turn is what it reports
-- to the budget; what its tool call does is Agent/Perform.
pub mod Bounded
pub mod Streaks
use computer_use_automation.Base.{
  ℕ, zero, suc, ◌+◌, Bool, true, false, Option, none, some, List, [], ◌∷◌, leb, if◌then◌else◌,
}

pub data StopReason : Type 0 where
  goal_met gave_up max_steps_hit timeout token_budget dead_end policy_wall error : StopReason

pub record Budget : Type 0 where
  pub max_steps : ℕ
  pub max_duration : ℕ
  pub max_tokens : ℕ
  pub max_unchanged_steps : ℕ
  pub max_consecutive_denials : ℕ
  pub steps : ℕ
  pub tokens : ℕ
  pub unchanged_steps : ℕ
  pub consecutive_denials : ℕ

unfoldable pub record_step : ℕ → Bool → Bool → Budget → Budget
record_step tokens progressed denied b = record b {
  steps = b.steps + 1;
  tokens = b.tokens + tokens;
  unchanged_steps = if progressed then 0 else b.unchanged_steps + 1;
  consecutive_denials = if denied then b.consecutive_denials + 1 else 0;
}

-- The first limit that has been hit, with so much time elapsed.
unfoldable pub exceeded : ℕ → Budget → Option StopReason
exceeded elapsed b =
    if leb b.max_steps b.steps
    then some max_steps_hit
    else if leb b.max_duration elapsed
    then some timeout
    else if leb b.max_tokens b.tokens
    then some token_budget
    else if leb b.max_unchanged_steps b.unchanged_steps
    then some dead_end
    else if leb b.max_consecutive_denials b.consecutive_denials
    then some policy_wall
    else none

-- One turn of the model: it fails, proposes nothing, ends the run, or acts.
pub data Turn : Type 0 where
  failed : Turn
  no_call finish give_up : ℕ → Turn
  acted : ℕ → Bool → Bool → Turn

-- The budget after a turn, and why the run ends with it, if it does.
unfoldable pub after_turn : Turn → Budget → Option StopReason × Budget
unfolding record_step
after_turn failed b = (some error, b)
after_turn (no_call tokens) b = (none, record_step tokens false false b)
after_turn (finish tokens) b = (some goal_met, record_step tokens true false b)
after_turn (give_up tokens) b = (some gave_up, record_step tokens true false b)
after_turn (acted tokens progressed denied) b = (none, record_step tokens progressed denied b)

on_turn : Option StopReason × Budget → Option (StopReason × Budget) → Option (StopReason × Budget)
on_turn (some reason, b) rest = some (reason, b)
on_turn (none, b) rest = rest

on_limit : Option StopReason → Budget → Option (StopReason × Budget) → Option (StopReason × Budget)
on_limit (some reason) b rest = some (reason, b)
on_limit none b rest = rest

-- The loop from turn `n`, for so many rounds at most; `elapsed n` is the clock's reading before turn `n`.
unfoldable pub discover : (ℕ → Turn) → (ℕ → ℕ) → ℕ → ℕ → Budget → Option (StopReason × Budget)
unfolding on_turn on_limit after_turn exceeded
discover turns elapsed zero n b = none
discover turns elapsed (suc fuel) n b =
    let rest = discover turns elapsed fuel (suc n) (after_turn (turns n) b).1 in
    on_limit (exceeded (elapsed n) b) b (on_turn (after_turn (turns n) b) rest)
