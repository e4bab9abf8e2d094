-- ===== src/Replay/Executor/Recovery.antt =====
-- src/cua/replay/executor.py: the declared remedies of a transient condition. A capability that runs as
-- a remedy goes through the step loop, which is an argument here: `nested`.
use computer_use_automation.Base.{
  ℕ, suc, ◌+◌, String, Bool, true, false, not, Option, none, some, List, [], ◌∷◌, ◌++◌, ◌==◌,
  length, get_or, ltb, if◌then◌else◌, Result, ok, err,
}
use computer_use_automation.Domain.Actor.{automation}
use computer_use_automation.Domain.Snapshot.{UiSnapshot}
use computer_use_automation.Domain.Predicates.{ValueExpr, Inputs}
use computer_use_automation.Domain.Action.{Action, irreversible, is_risk}
use computer_use_automation.Domain.Capability.{
  Capability, Step, RecoveryRule, Remedy, perform, run_capability, hash_is_valid,
}
use computer_use_automation.Domain.Capability.Summary.{ref, sensitive_names, max_risk}
use computer_use_automation.Domain.Result.{
  FailureCode, recovery_exhausted, policy_denied, action_failed,
}
use computer_use_automation.Policy.Irreversible.{GrantRefusal, refusal}
use computer_use_automation.Evidence.Json.{Fields, str, num, field, end}
use computer_use_automation.Evidence.Bus as Bus
use computer_use_automation.Runtime.Command.{Command, DispatchOutcome, DispatchStatus, done}
use computer_use_automation.Replay.Inputs.{InputError, Supplied, validate_inputs}
use computer_use_automation.Replay.Bind.{BindError, Resolved, resolve_value}
use computer_use_automation.Replay.Limits.{step_budget}
use computer_use_automation.Replay.Result.{
  RunStatus, CannotRun, nested, own_remedy, no_source, not_found, not_sealed, too_many_steps,
  bad_arguments, unbound_argument, Why, total_spent, rule_spent, remedy_refused, remedy_barred,
  remedy_gate_closed, remedy_failed, remedy_answered, remedy_ended, FailureDetail, BusinessOutcome,
  RunResult,
}
use computer_use_automation.Replay.Executor.State.{
  ReplayExecutor, Live, RunState, M, ◌>>=◌, ◌>>◌, return, Exit, evidence_of, put_evidence, observe,
  dispatch, note, read_clock, grant_of,
}
use computer_use_automation.Replay.Executor.Ending.{
  Details, no_details, is_remedy, verify_checkpoint,
}
use computer_use_automation.Replay.Executor.Stepping.{Progress, going, ended, stop, epochs_now}

abbrev pub at_screen : UiSnapshot → Details
at_screen seen = record no_details { snapshot = some seen }

abbrev pub is_done : DispatchStatus → Bool
is_done done = true
is_done _ = false

abbrev pub of_inputs : Result InputError Inputs → Result CannotRun Inputs
of_inputs (ok inputs) = ok inputs
of_inputs (err e) = err (bad_arguments e)

abbrev pub for_capability :
    Capability → Result CannotRun Inputs → Result CannotRun (Capability × Inputs)
for_capability c (ok inputs) = ok (c, inputs)
for_capability c (err e) = err e

-- `resolve_value` of each argument, without a resolver of secrets.
abbrev pub with_argument : String → Resolved → Result BindError Supplied → Result BindError Supplied
with_argument name (err e) rest = err e
with_argument name (ok (text, s)) (err e) = err e
with_argument name (ok (text, s)) (ok rest) = ok ((name, some text) ∷ rest)

module _ {W : Type 0} where
  -- A part of a run, unless it has ended.
  abbrev pub next_step : Progress → (RunState → M W Progress) → M W Progress
  next_step (going st) go = go st
  next_step (ended st r) go = return (ended st r)

  abbrev pub with_keys {ℓ} : {A : Type ℓ} → List String → Exit A × Live W → Exit A × Live W
  with_keys keys (e, w) = (e, put_evidence (record (evidence_of w) { sensitive_keys = keys }) w)

  -- More sensitive keys while a call runs: `finally`, the old ones are put back however it ends.
  abbrev pub restoring : {A : Type 0} → List String → M W A → M W A
  restoring more m v = with_keys (evidence_of v).sensitive_keys (
      m (
        put_evidence
          (record (evidence_of v) { sensitive_keys = (evidence_of v).sensitive_keys ++ more }) v))

module _ {W : Type 0} (x : ReplayExecutor W) where
  unfoldable pub arguments_of :
      Inputs → Inputs → List (String × ValueExpr) → Result BindError Supplied
  arguments_of inputs outputs [] = ok []
  arguments_of inputs outputs ((name, v) ∷ rest) =
      with_argument name (resolve_value x.secret_host inputs outputs none v)
        (arguments_of inputs outputs rest)

  -- `_approval_gate`
  unfoldable pub approval_gate : Capability → Option GrantRefusal
  approval_gate c =
      if is_risk (max_risk c) irreversible
      then refusal x.dispatcher.host.derivation (grant_of x) c x.replay_gates
      else none

  abbrev pub validated : Capability → Result BindError Supplied → Result CannotRun Inputs
  validated c (err e) = err (unbound_argument e)
  validated c (ok supplied) = of_inputs (validate_inputs x.input_host c.inputs supplied)

  -- What of the remedy's capability can be said before it runs: its inputs, or why it cannot run.
  unfoldable pub fit_to_run :
      RunState → List (String × ValueExpr) → Capability → Result CannotRun Inputs
  unfolding arguments_of
  fit_to_run st arguments c =
      if not (hash_is_valid x.dispatcher.host.derivation.compute_hash c)
      then err not_sealed
      else if ltb (step_budget x.ceilings c) (length c.steps)
      then err (too_many_steps (length c.steps) (step_budget x.ceilings c))
      else validated c (arguments_of st.inputs st.outputs arguments)

  abbrev pub fit_if_found :
      RunState
      → List (String × ValueExpr)
      → Option Capability
      → Result CannotRun (Capability × Inputs)
  fit_if_found st arguments none = err not_found
  fit_if_found st arguments (some c) = for_capability c (fit_to_run st arguments c)

  abbrev pub find_fit :
      RunState
      → String
      → List (String × ValueExpr)
      → Option (String → Option Capability)
      → Result CannotRun (Capability × Inputs)
  find_fit st id arguments none = err no_source
  find_fit st id arguments (some source) = fit_if_found st arguments (source id)

  -- The checks of `_run_capability` up to the gate.
  unfoldable pub prepare :
      RunState → String → List (String × ValueExpr) → Result CannotRun (Capability × Inputs)
  unfolding is_remedy
  prepare st id arguments =
      if is_remedy st
      then err nested
      else if id == st.capability.id
      then err own_remedy
      else find_fit st id arguments x.capabilities

  -- `_State` of a remedy.
  unfoldable pub remedial : RunState → Capability → Inputs → ℕ → RunState
  remedial st c inputs now = record {
    capability = c;
    run_id = st.run_id;
    started = now;
    inputs = inputs;
    outputs = [];
    steps_executed = 0;
    step_index = none;
    resolutions = 0;
    drifted = 0;
    recovery_attempts = st.recovery_attempts;
    strategies = [];
    parents = record { capability = st.capability; started = st.started } ∷ st.parents;
  }

  -- `_verify_checkpoint`, if no step has ended the run.
  unfoldable pub finish : Progress → M W (RunState × RunResult)
  finish (ended st r) = return (st, r)
  finish (going st) = do r ← verify_checkpoint x st; return (st, r)

  unfoldable pub why_ended :
      String → Option FailureDetail → Option BusinessOutcome → RunStatus → Why
  why_ended rule (some e) outcome status = remedy_failed rule e.message
  why_ended rule none (some o) status = remedy_answered rule o.code
  why_ended rule none none status = remedy_ended rule status

  unfoldable pub code_ended : Option FailureDetail → FailureCode
  code_ended (some e) = e.code
  code_ended none = recovery_exhausted

  unfoldable pub after_status :
      RunState → RecoveryRule → UiSnapshot → RunResult → RunStatus → M W Progress
  unfolding why_ended code_ended
  after_status st rule seen r RunStatus.success = return (going st)
  after_status st rule seen r status =
      stop x st (code_ended r.error) (why_ended rule.id r.error r.outcome status) (at_screen seen)

  -- The attempts of the remedy are those of the run that it serves.
  unfoldable pub after_remedy :
      RunState → RecoveryRule → UiSnapshot → RunState × RunResult → M W Progress
  unfolding after_status
  after_remedy st rule seen (t, r) =
      after_status (record st { recovery_attempts = t.recovery_attempts }) rule seen r r.status

  unfoldable pub remedy_refusal :
      RunState → RecoveryRule → UiSnapshot → DispatchOutcome → M W Progress
  remedy_refusal st rule seen o =
      if is_done o.status
      then return (going st)
      else stop x st (get_or o.failure_code action_failed) (remedy_refused rule.id o)
          (at_screen seen)

  -- A remedy's action is dispatched as it is declared: its references are not resolved.
  abbrev pub remedy_command : RunState → Action → UiSnapshot → ℕ × Option ℕ → Command
  remedy_command st action seen (held, current) = record {
    action = action;
    snapshot = seen;
    actor = automation;
    session_id = x.session_id;
    lease_epoch = held;
    expected_epoch = current;
    capability = some st.capability;
    declared_risk = none;
    confirmed = false;
    grant = none;
  }

  unfoldable pub perform_remedy : RunState → RecoveryRule → UiSnapshot → Action → M W Progress
  unfolding remedy_refusal
  perform_remedy st rule seen action = do
    now ← epochs_now x
    looked ← observe x
    o ← dispatch x (remedy_command st action looked now)
    remedy_refusal st rule seen o

  -- The loop over the steps, by the runner of one step.
  module _ (runner : RunState → Step → ℕ → M W Progress) where
    unfoldable pub run_steps : RunState → ℕ → List Step → M W Progress
    run_steps st index [] = return (going st)
    run_steps st index (step ∷ steps) = do
      p ← runner st step index
      next_step p (λ t. run_steps t (suc index) steps)

    unfoldable pub remedy_events : RecoveryRule → Capability → Fields
    remedy_events rule c = field "rule" (str rule.id) (
        field "remedy" (str "run_capability")
          (field "capability" (str (ref c)) (field "content_hash" (str c.content_hash) end)))

    unfoldable pub remedy_run : RunState → Capability → M W (RunState × RunResult)
    unfolding finish run_steps
    remedy_run st c = do p ← run_steps st 0 c.steps; finish p

    unfoldable pub run_prepared :
        RunState → RecoveryRule → UiSnapshot → Capability → Inputs → M W Progress
    unfolding after_remedy remedy_run remedy_events remedial
    run_prepared st rule seen c inputs = do
      note x Bus.recovery 0 (remedy_events rule c)
      now ← read_clock x
      ending ← restoring (sensitive_names c) (remedy_run (remedial st c inputs now) c)
      after_remedy st rule seen ending

    unfoldable pub through_gate :
        RunState
        → RecoveryRule
        → UiSnapshot
        → Capability
        → Inputs
        → Option GrantRefusal
        → M W Progress
    unfolding run_prepared
    through_gate st rule seen c inputs (some g) =
        stop x st policy_denied (remedy_gate_closed rule.id g) (at_screen seen)
    through_gate st rule seen c inputs none = run_prepared st rule seen c inputs

    unfoldable pub if_prepared :
        RunState → RecoveryRule → UiSnapshot → Result CannotRun (Capability × Inputs) → M W Progress
    unfolding through_gate
    if_prepared st rule seen (err why) =
        stop x st recovery_exhausted (remedy_barred rule.id why) (at_screen seen)
    if_prepared st rule seen (ok (c, inputs)) = through_gate st rule seen c inputs (approval_gate c)

    unfoldable pub apply_remedy : RunState → RecoveryRule → UiSnapshot → Remedy → M W Progress
    unfolding if_prepared perform_remedy
    apply_remedy st rule seen (perform action) = perform_remedy st rule seen action
    -- `_run_capability`
    apply_remedy st rule seen (run_capability id arguments) =
        if_prepared st rule seen (prepare st id arguments)

    unfoldable pub apply_all : RunState → RecoveryRule → UiSnapshot → List Remedy → M W Progress
    unfolding apply_remedy
    apply_all st rule seen [] = return (going st)
    apply_all st rule seen (remedy ∷ rest) = do
      p ← apply_remedy st rule seen remedy
      next_step p (λ t. apply_all t rule seen rest)

    unfoldable pub recover_counted : RunState → RecoveryRule → ℕ → UiSnapshot → M W Progress
    unfolding apply_all
    recover_counted st rule attempts seen =
        if ltb x.max_recovery_attempts_total st.recovery_attempts
        then stop x st recovery_exhausted
            (total_spent st.recovery_attempts x.max_recovery_attempts_total) (at_screen seen)
        else if ltb rule.max_attempts attempts
        then stop x st recovery_exhausted (rule_spent rule.id rule.max_attempts) (at_screen seen)
        else do
          note x Bus.recovery 0 (
              field "rule" (str rule.id)
                (field "attempt" (num attempts) (field "max_attempts" (num rule.max_attempts) end)))
          apply_all st rule seen rule.remedy

    -- `_recover`
    unfoldable pub recover : RunState → RecoveryRule → ℕ → UiSnapshot → M W Progress
    unfolding recover_counted
    recover st rule attempts seen =
        recover_counted (record st { recovery_attempts = st.recovery_attempts + 1 }) rule attempts
          seen
