-- ===== src/Replay/Classify.antt =====
-- src/cua/replay/classify.py, with `ObservationClass` of domain/result.py: what a screen means. The
-- reasons are left unformatted.
pub mod Reading
pub mod Verified
use computer_use_automation.Base.{
  String, Bool, true, false, Option, none, some, List, [], ◌∷◌, if◌then◌else◌,
}
use computer_use_automation.Domain.Snapshot.{UiSnapshot}
use computer_use_automation.Domain.Text.{TextHost}
use computer_use_automation.Domain.Predicates.{Predicate, Inputs, evaluate}
use computer_use_automation.Domain.Capability.{Capability, Step, Outcome, RecoveryRule}

pub data ObservationClass : Type 0 where
  expected business_outcome recoverable unexpected_state : ObservationClass

pub data ClassReason : Type 0 where
  declared_outcome recovery_rule unmet_precondition : String → ClassReason
  checkpoint_satisfied checkpoint_unmet precondition_satisfied nothing_declared : ClassReason

pub record Classification : Type 0 where
  pub observation : ObservationClass
  pub outcome : Option Outcome
  pub recovery : Option RecoveryRule
  pub reason : ClassReason

-- `proceed`
unfoldable pub proceed : ObservationClass → Bool
proceed expected = true
proceed _ = false

module _ (host : TextHost) (snapshot : UiSnapshot) (inputs : Inputs) where
  -- The first of a list whose assertion holds on the screen.
  unfoldable pub first_detected : {A : Type 0} → (A → Predicate) → List A → Option A
  first_detected detect [] = none
  first_detected detect (x ∷ xs) =
      let rest = first_detected detect xs in
      if evaluate host (detect x) snapshot inputs then some x else rest

  abbrev plain : ObservationClass → ClassReason → Classification
  plain observation reason = record {
    observation = observation;
    outcome = none;
    recovery = none;
    reason = reason;
  }

  -- What the code asserts about a point: `met` says why it goes on, `unmet` why it stops.
  asserted : Predicate → ClassReason → ClassReason → Classification
  asserted p met unmet =
      if evaluate host p snapshot inputs then plain expected met else plain unexpected_state unmet

  at_precondition : String → Option Predicate → Classification
  unfolding asserted
  at_precondition id none = plain expected nothing_declared
  at_precondition id (some p) = asserted p precondition_satisfied (unmet_precondition id)

  at_step : Option Step → Classification
  unfolding at_precondition
  at_step none = plain expected nothing_declared
  at_step (some step) = at_precondition step.id step.precondition

  -- Steps 3 and 4: the declared expectation.
  by_expectation : Capability → Option Step → Bool → Classification
  unfolding at_step asserted
  by_expectation c step checking =
      if checking then asserted c.checkpoint checkpoint_satisfied checkpoint_unmet else at_step step

  -- Step 2: a declared transient condition.
  by_recovery : Capability → Option Step → Bool → Option RecoveryRule → Classification
  unfolding by_expectation
  by_recovery c step checking (some rule) = record {
    observation = recoverable;
    outcome = none;
    recovery = some rule;
    reason = recovery_rule rule.id;
  }
  by_recovery c step checking none = by_expectation c step checking

  -- Step 1: a declared business outcome.
  by_outcome : Capability → Option Step → Bool → Option Outcome → Classification
  unfolding by_recovery
  by_outcome c step checking (some o) = record {
    observation = business_outcome;
    outcome = some o;
    recovery = none;
    reason = declared_outcome o.code;
  }
  by_outcome c step checking none =
      by_recovery c step checking (first_detected (λ r. r.detect) c.recovery)

  unfoldable pub classify : Capability → Option Step → Bool → Classification
  unfolding by_outcome
  classify c step checking = by_outcome c step checking (first_detected (λ o. o.detect) c.outcomes)
