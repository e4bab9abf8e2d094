-- ===== src/Replay/Executor/Flow.antt =====
-- src/cua/replay/executor.py: the step loop, and a run. `_record`, which
-- writes a report to a file, is left out. A run's clocks are compared at one reading of the clock.
use computer_use_automation.Base.{
  ℕ, zero, suc, String, Bool, true, false, ◌&&◌, ◌||◌, Option, none, some, List, [], ◌∷◌, length,
  drop, get_or, ltb, nat_eq, if◌then◌else◌, Result, ok, err,
}
use computer_use_automation.Domain.Actor.{automation}
use computer_use_automation.Domain.Snapshot.{UiSnapshot}
use computer_use_automation.Domain.Predicates.{Inputs}
use computer_use_automation.Domain.Text.{codes}
use computer_use_automation.Domain.Action.{navigate}
use computer_use_automation.Domain.Capability.{Capability, Step, Outcome, RecoveryRule}
use computer_use_automation.Domain.Capability.Summary.{ref, sensitive_names}
use computer_use_automation.Domain.Result.{
  FailureCode, timed_out, lease_lost_code, policy_denied, input_validation_failed,
  surface_unavailable,
}
use computer_use_automation.Policy.Irreversible.{GrantRefusal}
use computer_use_automation.Evidence.Json.{Fields, str, field, end}
use computer_use_automation.Evidence.Bus as Bus
use computer_use_automation.Hitl.Lease.{Lease}
use computer_use_automation.Runtime.Command.{Command, DispatchOutcome}
use computer_use_automation.Replay.Inputs.{InputError, Supplied, validate_inputs}
use computer_use_automation.Replay.Classify.{ObservationClass, Classification, classify}
use computer_use_automation.Replay.Limits.{
  Overrun, Unavailable, step_budget, duration_exceeded, lease_available,
}
use computer_use_automation.Replay.Result.{
  Why, unavailable, over_step_budget, invalid_inputs, gate_closed, entrypoint_unreached, overran,
  read_as, RunResult,
}
use computer_use_automation.Replay.Executor.State.{
  ReplayExecutor, RunState, M, ◌>>=◌, ◌>>◌, return, out_of_rounds, value, lease_of, observe,
  dispatch, note, read_clock, draw_id, next_reading, set_sensitive_keys, clocks_of,
}
use computer_use_automation.Replay.Executor.Ending.{no_details, fail, answer}
use computer_use_automation.Replay.Executor.Stepping.{
  Progress, ended, stop, at_step, epochs_now, dispatch_step,
}
use computer_use_automation.Replay.Executor.Recovery.{
  next_step, approval_gate, run_steps, recover, is_done, finish,
}

abbrev pub observation_name : ObservationClass → String
observation_name ObservationClass.expected = "expected"
observation_name ObservationClass.business_outcome = "business_outcome"
observation_name ObservationClass.recoverable = "recoverable"
observation_name ObservationClass.unexpected_state = "unexpected_state"

-- What the step loop does on a screen: the first of the cases that the classification has.
pub data Reaction : Type 0 where
  answers : Outcome → Reaction
  recovers : RecoveryRule → Reaction
  stops : Reaction
  acts : Reaction

abbrev pub on_expectation : ObservationClass → Reaction
on_expectation ObservationClass.unexpected_state = stops
on_expectation _ = acts

abbrev pub on_rule : Option RecoveryRule → ObservationClass → Reaction
on_rule (some rule) observation = recovers rule
on_rule none observation = on_expectation observation

abbrev pub reaction_of : Option Outcome → Option RecoveryRule → ObservationClass → Reaction
reaction_of (some o) rule observation = answers o
reaction_of none rule observation = on_rule rule observation

module _ {W : Type 0} (x : ReplayExecutor W) where
  -- The clocks of a run and of the runs that it serves.
  abbrev pub overrun_of : RunState → ℕ → Option Overrun
  overrun_of st now =
      duration_exceeded x.ceilings
        (clocks_of now (record { capability = st.capability; started = st.started } ∷ st.parents))

  module _ (runner : RunState → Step → ℕ → M W Progress) where
    abbrev pub StepAgain : Type 0
    StepAgain = RunState → ℕ → M W Progress

    unfoldable pub react :
        StepAgain → RunState → Step → ℕ → ℕ → UiSnapshot → Classification → Reaction → M W Progress
    unfolding stop
    react again st step index attempts seen verdict (answers o) = do
      r ← answer x st o
      return (ended st r)
    react again st step index attempts seen verdict (recovers rule) = do
      p ← recover x runner st rule (suc attempts) seen
      next_step p (λ t. again t (suc attempts))
    react again st step index attempts seen verdict stops =
        stop x st FailureCode.unexpected_state (read_as verdict.reason)
          (record (at_step step seen) { expected = step.precondition })
    react again st step index attempts seen verdict acts = dispatch_step x st step index seen

    unfoldable pub on_screen : StepAgain → RunState → Step → ℕ → ℕ → UiSnapshot → M W Progress
    unfolding react
    on_screen again st step index attempts seen = do
      let verdict = classify x.text_host seen st.inputs st.capability (some step) false
      note x Bus.classify 0 (
          field "step" (str step.id) (
            field "observation" (str (observation_name verdict.observation))
              (field "reason" (str (x.texts.message (read_as verdict.reason))) end)))
      react again st step index attempts seen verdict
          (reaction_of verdict.outcome verdict.recovery verdict.observation)

    unfoldable pub if_in_time : StepAgain → RunState → Step → ℕ → ℕ → Option Overrun → M W Progress
    unfolding on_screen stop
    if_in_time again st step index attempts (some o) =
        stop x st timed_out (overran o) (record no_details { step = some step })
    if_in_time again st step index attempts none = do
      seen ← observe x
      on_screen again st step index attempts seen

    -- The loop of `_run_step`, for so many rounds at most.
    unfoldable pub rounds_of_step : ℕ → Step → ℕ → RunState → ℕ → M W Progress
    unfolding if_in_time
    rounds_of_step zero step index st attempts = out_of_rounds
    rounds_of_step (suc rounds) step index st attempts =
        let again = rounds_of_step rounds step index in
        do now ← read_clock x; if_in_time again st step index attempts (overrun_of st now)

  -- As many rounds as recoveries are allowed, and the one that finds that they are spent.
  abbrev pub enough_rounds : ℕ
  enough_rounds = suc x.max_recovery_attempts_total

  -- `_run_step`, where so many runs may serve one another.
  unfoldable pub step_at : ℕ → RunState → Step → ℕ → M W Progress
  unfolding rounds_of_step
  step_at zero st step index = out_of_rounds
  step_at (suc depth) st step index =
      rounds_of_step (step_at depth) enough_rounds step index
        (record st { step_index = some index }) 0

  -- A remedy does not run another.
  unfoldable pub run_step : RunState → Step → ℕ → M W Progress
  unfolding step_at
  run_step = step_at 2

  abbrev pub adopted : Option ℕ → Option Lease → Option ℕ
  adopted (some e) l = some e
  adopted none none = none
  adopted none (some l) = some l.epoch

  unfoldable pub adopt_epoch : M W (Unit {0})
  adopt_epoch v = (value tt, record v { lease_epoch = adopted v.lease_epoch (lease_of v.site) })

  -- `_lease_available`
  unfoldable pub check_lease : M W (Option Unavailable)
  check_lease = do
    n ← next_reading x
    λ v. (value (lease_available (lease_of v.site) (x.around.utc_now n)), v)

  -- The run ends before its first step.
  unfoldable pub refuse : RunState → FailureCode → Why → M W RunResult
  refuse st code why = fail x st code why no_details

  -- The steps from `start`, and then the checkpoint.
  unfoldable pub run_from : ℕ → RunState → M W RunResult
  unfolding run_steps finish
  run_from start st = do
    p ← run_steps x run_step st start (drop start st.capability.steps)
    ending ← finish x p
    return (ending.1)

  abbrev pub entry_command : RunState → UiSnapshot → ℕ × Option ℕ → Command
  entry_command st seen (held, current) = record {
    action = record { risk = none; operation = navigate st.capability.entrypoint };
    snapshot = seen;
    actor = automation;
    session_id = x.session_id;
    lease_epoch = held;
    expected_epoch = current;
    capability = some st.capability;
    declared_risk = none;
    confirmed = false;
    grant = none;
  }

  unfoldable pub after_entry : RunState → DispatchOutcome → M W RunResult
  unfolding run_from refuse
  after_entry st o =
      if is_done o.status
      then run_from 0 st
      else refuse st (get_or o.failure_code surface_unavailable) (entrypoint_unreached o)

  -- `startswith(("http://", "https://"))`
  unfoldable pub has_prefix : List ℕ → List ℕ → Bool
  has_prefix [] t = true
  has_prefix (p ∷ ps) [] = false
  has_prefix (p ∷ ps) (c ∷ cs) = let rest = has_prefix ps cs in if nat_eq p c then rest else false

  abbrev pub is_web : String → Bool
  is_web url = has_prefix (codes "http://") (codes url) || has_prefix (codes "https://") (codes url)

  -- The entry URL is loaded under policy, as any navigation is.
  unfoldable pub open_entry : RunState → M W RunResult
  unfolding after_entry
  open_entry st = do
    now ← epochs_now x
    seen ← observe x
    o ← dispatch x (entry_command st seen now)
    after_entry st o

  unfoldable pub open_and_run : ℕ → RunState → M W RunResult
  unfolding open_entry has_prefix run_from
  open_and_run start st =
      if nat_eq start 0 && is_web st.capability.entrypoint then open_entry st else run_from start st

  unfoldable pub after_gate : ℕ → RunState → Option GrantRefusal → M W RunResult
  unfolding open_and_run refuse
  after_gate start st (some g) = refuse st policy_denied (gate_closed g)
  after_gate start st none = open_and_run start st

  unfoldable pub after_inputs : ℕ → RunState → Result InputError Inputs → M W RunResult
  unfolding after_gate refuse
  after_inputs start st (err e) = refuse st input_validation_failed (invalid_inputs e)
  after_inputs start st (ok inputs) =
      after_gate start (record st { inputs = inputs }) (approval_gate x st.capability)

  unfoldable pub after_lease : ℕ → RunState → Supplied → Option Unavailable → M W RunResult
  unfolding after_inputs refuse
  after_lease start st supplied (some u) = refuse st lease_lost_code (unavailable u)
  after_lease start st supplied none =
      if ltb (step_budget x.ceilings st.capability) (length st.capability.steps)
      then refuse st policy_denied
          (over_step_budget (length st.capability.steps) (step_budget x.ceilings st.capability))
      else after_inputs start st (validate_inputs x.input_host st.capability.inputs supplied)

  abbrev pub new_state : Capability → String → ℕ → Inputs → ℕ → RunState
  new_state c run_id now outputs attempts = record {
    capability = c;
    run_id = run_id;
    started = now;
    inputs = [];
    outputs = outputs;
    steps_executed = 0;
    step_index = none;
    resolutions = 0;
    drifted = 0;
    recovery_attempts = attempts;
    strategies = [];
    parents = [];
  }

  unfoldable pub start_fields : Capability → Supplied → Fields
  start_fields c supplied = field "kind" (str "replay") (
      field "capability" (str (ref c)) (
        field "content_hash" (str c.content_hash) (field "inputs" (x.texts.supplied supplied) end)))

  -- `_execute`, with a run id that is given or drawn.
  unfoldable pub execute : Capability → Supplied → ℕ → Inputs → ℕ → String → M W RunResult
  unfolding adopt_epoch check_lease after_lease start_fields
  execute c supplied start outputs attempts run_id = do
    now ← read_clock x
    adopt_epoch
    set_sensitive_keys x (sensitive_names c)
    note x Bus.run_start 0 (start_fields c supplied)
    free ← check_lease
    after_lease start (new_state c run_id now outputs attempts) supplied free

  -- `run`
  unfoldable pub run : Capability → Supplied → M W RunResult
  unfolding execute
  run c supplied = do id ← draw_id x; execute c supplied 0 [] 0 id
