-- ===== src/Replay/Result.antt =====
-- src/cua/domain/result.py: how a run ended, and what its caller gets. The reason of a failure is the
-- data that its message is formatted from.
use computer_use_automation.Base.{ℕ, String, Bool, not, Option, List, is_some}
use computer_use_automation.Domain.Predicates.{Predicate, ValueExpr}
use computer_use_automation.Domain.Result.{FailureCode}
use computer_use_automation.Policy.Irreversible.{GrantRefusal}
use computer_use_automation.Targeting.Resolver.{Resolution, TargetResolutionError}
use computer_use_automation.Runtime.Command.{DispatchOutcome}
use computer_use_automation.Replay.Classify.{ClassReason}
use computer_use_automation.Replay.Inputs.{InputError}
use computer_use_automation.Replay.Bind.{BindError}
use computer_use_automation.Replay.Limits.{Overrun, Unavailable}
use computer_use_automation.Replay.Transforms.{TransformError}

pub data RunStatus : Type 0 where
  success business_outcome needs_human failed : RunStatus

-- Why a remedy's capability cannot be run.
pub data CannotRun : Type 0 where
  nested own_remedy no_source not_found not_sealed : CannotRun
  too_many_steps : ℕ → ℕ → CannotRun
  bad_arguments : InputError → CannotRun
  unbound_argument : BindError → CannotRun

-- What a message says, with what it names.
pub data Why : Type 0 where
  unavailable : Unavailable → Why
  over_step_budget : ℕ → ℕ → Why
  invalid_inputs : InputError → Why
  gate_closed : GrantRefusal → Why
  entrypoint_unreached : DispatchOutcome → Why
  overran : Overrun → Why
  read_as : ClassReason → Why
  unbound : BindError → Why
  assertion_unmet : Predicate → Why
  condition_unmet : Predicate → ℕ → Why
  unreadable_output : String → String → String → Why
  not_transformed : TransformError → Why
  dispatch_said : DispatchOutcome → Why
  wait_expired : Why
  postcondition_unmet : String → Why
  total_spent : ℕ → ℕ → Why
  rule_spent : String → ℕ → Why
  remedy_refused : String → DispatchOutcome → Why
  remedy_barred : String → CannotRun → Why
  remedy_gate_closed : String → GrantRefusal → Why
  remedy_failed : String → Why → Why
  remedy_answered : String → String → Why
  remedy_ended : String → RunStatus → Why
  nowhere_to_resume : String → Why

-- `ResolutionDebug`, as the dispatcher built it or from a resolution.
pub data ResolutionDebug : Type 0 where
  from_error : TargetResolutionError → ResolutionDebug
  from_resolution : Resolution → ResolutionDebug

pub record FailureDetail : Type 0 where
  pub code : FailureCode
  pub message : Why
  pub step_id : Option String
  pub expected : Option Predicate
  pub observed : Option String
  pub resolution : Option ResolutionDebug

pub record BusinessOutcome : Type 0 where
  pub code : String
  pub values : List (String × ValueExpr)

pub record InterventionRef : Type 0 where
  pub intervention_id : String
  pub reason : Why
  pub step_id : Option String
  pub step_index : Option ℕ
  pub outputs_so_far : List (String × String)

-- `drift_score` is the fraction of two counts, and 0 where the second is 0.
pub record RunResult : Type 0 where
  pub status : RunStatus
  pub capability_id : String
  pub capability_version : String
  pub run_id : String
  pub outputs : List (String × String)
  pub outcome : Option BusinessOutcome
  pub error : Option FailureDetail
  pub intervention : Option InterventionRef
  pub steps_executed : ℕ
  pub steps_total : ℕ
  pub duration_ms : ℕ
  pub drift_score : ℕ × ℕ
  pub strategy_mix : List (String × ℕ)
  pub recovery_attempts : ℕ
  pub evidence_ref : Option String

-- `_shape_matches_status`: whether the validator lets the result pass.
abbrev shape_for : RunStatus → RunResult → Bool
shape_for RunStatus.business_outcome r = is_some r.outcome
shape_for RunStatus.failed r = is_some r.error
shape_for RunStatus.needs_human r = is_some r.intervention
shape_for RunStatus.success r = not (is_some r.error)

unfoldable pub shape_matches_status : RunResult → Bool
shape_matches_status r = shape_for r.status r

abbrev pub code_of_status : RunStatus → ℕ
code_of_status RunStatus.success = 0
code_of_status RunStatus.business_outcome = 0
code_of_status RunStatus.failed = 1
code_of_status RunStatus.needs_human = 2

unfoldable pub exit_code : RunResult → ℕ
exit_code r = code_of_status r.status

abbrev pub status_name : RunStatus → String
status_name RunStatus.success = "success"
status_name RunStatus.business_outcome = "business_outcome"
status_name RunStatus.needs_human = "needs_human"
status_name RunStatus.failed = "failed"
