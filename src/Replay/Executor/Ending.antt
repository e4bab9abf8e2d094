-- ===== src/Replay/Executor/Ending.antt =====
-- src/cua/replay/executor.py: how a run ends, by `_fail`, `_business_outcome` or `_verify_checkpoint`.
-- A request for an operator is drawn an id here, which its broker's own replaces.
use Prim.Native.String
use computer_use_automation.Base.{
  ℕ, String, Bool, true, false, ◌&&◌, not, Option, none, some, List, [], ◌∷◌, map, length, get_or,
  lookup, is_empty, if◌then◌else◌, Result, ok, err,
}
use computer_use_automation.Domain.Snapshot.{UiSnapshot}
use computer_use_automation.Domain.Predicates.{
  Predicate, ValueExpr, literal, input_ref, secret_ref, output_ref, Inputs,
}
use computer_use_automation.Domain.Capability.{Step, Outcome, is_set}
use computer_use_automation.Domain.Capability.Summary.{ref, asks_for_human}
use computer_use_automation.Domain.Result.{FailureCode, code_name, code_among, checkpoint_failed}
use computer_use_automation.Evidence.Json.{Items, Fields, str, arr, nil, cons, field, end}
use computer_use_automation.Evidence.Bus as Bus
use computer_use_automation.Evidence.Bus.{EventType}
use computer_use_automation.Targeting.Resolver.{Resolution, TargetResolutionError}
use computer_use_automation.Runtime.Capture.{CaptureHost, CaptureRefs, capture, optional_text}
use computer_use_automation.Hitl.Handoff.{SessionBroker, BrokerError, Escalation}
use computer_use_automation.Hitl.Broker as Broker
use computer_use_automation.Replay.Classify.{ObservationClass, expected, Classification, classify}
use computer_use_automation.Replay.Result.{
  RunStatus, Why, read_as, ResolutionDebug, from_error, from_resolution, FailureDetail, RunResult,
  status_name,
}
use computer_use_automation.Replay.Executor.State.{
  ReplayExecutor, Site, alone, supervised, Live, RunState, M, ◌>>=◌, ◌>>◌, return, Exit, value,
  raised, session_of, put_session, note, observe, read_clock, draw_id, next_reading, elapsed_ms,
}

-- The keyword arguments of `_fail`.
pub record Details : Type 0 where
  pub step : Option Step
  pub snapshot : Option UiSnapshot
  pub expected : Option Predicate
  pub resolution : Option Resolution
  pub resolution_debug : Option TargetResolutionError

abbrev pub no_details : Details
no_details = record {
  step = none;
  snapshot = none;
  expected = none;
  resolution = none;
  resolution_debug = none;
}

abbrev pub step_id_of : Option Step → Option String
step_id_of none = none
step_id_of (some step) = some step.id

abbrev pub url_of_snapshot : Option UiSnapshot → Option String
url_of_snapshot none = none
url_of_snapshot (some seen) = some seen.url

abbrev pub debug_of : Option TargetResolutionError → Option Resolution → Option ResolutionDebug
debug_of (some e) found = some (from_error e)
debug_of none (some r) = some (from_resolution r)
debug_of none none = none

unfoldable pub detail_of : FailureCode → Why → Details → FailureDetail
detail_of code why x = record {
  code = code;
  message = why;
  step_id = step_id_of x.step;
  expected = x.expected;
  observed = url_of_snapshot x.snapshot;
  resolution = debug_of x.resolution_debug x.resolution;
}

-- `state.parent is not None`
unfoldable pub is_remedy : RunState → Bool
is_remedy st = not (is_empty st.parents)

unfoldable pub escalates : RunState → FailureCode → Bool
unfolding is_remedy
escalates st code =
    not (is_remedy st)
    && code_among code st.capability.escalation.triggers
    && asks_for_human st.capability.escalation.disposition

-- The fields that the results share; a result of the status has the others set.
unfoldable pub ended_at : RunState → String → RunStatus → ℕ → RunResult
ended_at st run_dir status now = record {
  status = status;
  capability_id = st.capability.id;
  capability_version = st.capability.version;
  run_id = st.run_id;
  outputs = [];
  outcome = none;
  error = none;
  intervention = none;
  steps_executed = st.steps_executed;
  steps_total = length st.capability.steps;
  duration_ms = elapsed_ms st.started now;
  drift_score = (st.drifted, st.resolutions);
  strategy_mix = st.strategies;
  recovery_attempts = st.recovery_attempts;
  evidence_ref = some run_dir;
}

abbrev pub refs_snapshot : Option CaptureRefs → Option String
refs_snapshot none = none
refs_snapshot (some r) = r.snapshot_ref

abbrev pub refs_screenshot : Option CaptureRefs → Option String
refs_screenshot none = none
refs_screenshot (some r) = r.screenshot_ref

abbrev pub texts_of : List String → Items
texts_of [] = nil
texts_of (t ∷ ts) = cons (str t) (texts_of ts)

abbrev pub first_of_pair : String × String → String
first_of_pair p = p.0

-- `state.inputs.get(value.input_name, "") if hasattr(value, "input_name") else value`
unfoldable pub returned_value : Inputs → ValueExpr → ValueExpr
returned_value inputs (input_ref k) = literal (get_or (lookup k inputs) "")
returned_value inputs (literal v) = literal v
returned_value inputs (secret_ref k) = secret_ref k
returned_value inputs (output_ref k) = output_ref k

unfoldable pub returned : Inputs → List (String × ValueExpr) → List (String × ValueExpr)
unfolding returned_value
returned inputs [] = []
returned inputs ((key, v) ∷ rest) = (key, returned_value inputs v) ∷ returned inputs rest

module _ {W : Type 0} (x : ReplayExecutor W) where
  -- A remedy's ending is noted against the run that it serves.
  unfoldable pub emit_end : RunState → EventType → Fields → M W (Unit {0})
  unfolding is_remedy
  emit_end st event fields =
      if is_remedy st
      then note x Bus.note 0 (
          field "note" (str "recovery capability ended")
            (field "capability" (str (ref st.capability)) fields))
      else note x event 0 fields

  abbrev pub capture_with :
      Option (CaptureHost W)
      → RunState
      → FailureCode
      → Why
      → Option UiSnapshot
      → M W (Option CaptureRefs)
  capture_with (some host) st code why (some seen) v =
      let (refs, s) =
        capture host x.dispatcher.redaction (code_name code)
          (String.◌++◌ "failure capture: " (code_name code)) st.capability (x.texts.message why)
          seen (session_of v.site) in
      (value (some refs), put_session s v)
  capture_with (some host) st code why none v = (value none, v)
  capture_with none st code why seen v = (value none, v)

  unfoldable pub capture_failure :
      RunState → FailureCode → Why → Option UiSnapshot → M W (Option CaptureRefs)
  unfolding is_remedy
  capture_failure st code why seen =
      if is_remedy st then return none else capture_with x.capture st code why seen

  abbrev pub escalation_of :
      RunState → FailureCode → Why → Details → Option CaptureRefs → Escalation
  escalation_of st code why details refs = record {
    run_id = st.run_id;
    capability_ref = ref st.capability;
    goal =
        if is_set st.capability.description then st.capability.description else st.capability.title;
    reason = x.texts.message why;
    step_id = step_id_of details.step;
    failure_code = some (code_name code);
    snapshot = details.snapshot;
    snapshot_ref = refs_snapshot refs;
    screenshot_ref = refs_screenshot refs;
  }

  abbrev pub escalated_or_raise :
      Result BrokerError String × SessionBroker W → Live W → Exit String × Live W
  escalated_or_raise (err e, b) v = (raised, record v { site = supervised b })
  escalated_or_raise (ok id, b) v = (value id, record v { site = supervised b })

  abbrev pub escalate_at : Site W → Escalation → String → ℕ → String → M W String
  escalate_at (alone s) e own now id v = (value own, v)
  escalate_at (supervised b) e own now id v =
      escalated_or_raise (Broker.escalate x.dispatcher x.broker_texts b now id e) v

  -- `self.broker.escalate(...)`, if there is a broker; or the id that was drawn.
  unfoldable pub call_operator : Escalation → String → M W String
  call_operator e own = do
    n ← next_reading x
    λ v. escalate_at v.site e own (x.around.utc_now n) (x.around.new_id n) v

  -- The id of the request, if the failure escalates.
  unfoldable pub intervention_for :
      RunState → FailureCode → Why → Details → Option CaptureRefs → M W String
  unfolding call_operator
  intervention_for st code why details refs = do
    own ← draw_id x
    (if escalates st code
        then call_operator (escalation_of st code why details refs) own
        else return own)

  abbrev pub failure_fields : RunState → FailureCode → Why → Details → Option CaptureRefs → Fields
  failure_fields st code why details refs =
      field "status"
        (str (status_name (if escalates st code then RunStatus.needs_human else RunStatus.failed)))
        (field "code" (str (code_name code)) (
          field "step" (optional_text (step_id_of details.step)) (
            field "reason" (str (x.texts.message why)) (
              field "snapshot_ref" (optional_text (refs_snapshot refs))
                (field "screenshot_ref" (optional_text (refs_screenshot refs)) end)))))

  unfoldable pub failure_result : RunState → FailureCode → Why → Details → String → ℕ → RunResult
  unfolding ended_at detail_of
  failure_result st code why details id now =
      if escalates st code
      then record (ended_at st x.texts.run_dir RunStatus.needs_human now) {
        outputs = st.outputs;
        error = some (detail_of code why details);
        intervention = some (record {
          intervention_id = id;
          reason = why;
          step_id = step_id_of details.step;
          step_index = st.step_index;
          outputs_so_far = st.outputs;
        });
      }
      else record (ended_at st x.texts.run_dir RunStatus.failed now) {
        error = some (detail_of code why details);
      }

  -- `_fail`
  unfoldable pub fail : RunState → FailureCode → Why → Details → M W RunResult
  unfolding intervention_for capture_failure emit_end
  fail st code why details = do
    refs ← capture_failure st code why details.snapshot
    id ← intervention_for st code why details refs
    emit_end st (if escalates st code then Bus.escalate else Bus.run_end)
        (failure_fields st code why details refs)
    now ← read_clock x
    return (failure_result st code why details id now)

  -- The result of a declared outcome carries no count of recovery attempts.
  unfoldable pub outcome_result : RunState → Outcome → ℕ → RunResult
  unfolding ended_at returned
  outcome_result st o now = record (ended_at st x.texts.run_dir RunStatus.business_outcome now) {
    outcome = some (record { code = o.code; values = returned st.inputs o.returns });
    recovery_attempts = 0;
  }

  -- `_business_outcome`
  unfoldable pub answer : RunState → Outcome → M W RunResult
  unfolding emit_end
  answer st o = do
    emit_end st Bus.run_end
        (field "status" (str "business_outcome") (field "outcome" (str o.code) end))
    now ← read_clock x
    return (outcome_result st o now)

  unfoldable pub success_result : RunState → ℕ → RunResult
  unfolding ended_at
  success_result st now = record (ended_at st x.texts.run_dir RunStatus.success now) {
    outputs = st.outputs;
  }

  unfoldable pub succeed : RunState → M W RunResult
  unfolding emit_end
  succeed st = do
    emit_end st Bus.run_end (
        field "status" (str "success") (
          field "outputs" (arr (texts_of (x.texts.sorted (map first_of_pair st.outputs))))
            (field "drift_score" (x.texts.drift (st.drifted, st.resolutions)) end)))
    now ← read_clock x
    return (success_result st now)

  abbrev pub is_expected : ObservationClass → Bool
  is_expected expected = true
  is_expected _ = false

  unfoldable pub checkpoint_verdict :
      RunState → UiSnapshot → Classification → Option Outcome → M W RunResult
  unfolding answer fail succeed
  checkpoint_verdict st seen verdict (some o) = answer st o
  checkpoint_verdict st seen verdict none =
      if is_expected verdict.observation
      then succeed st
      else fail st checkpoint_failed (read_as verdict.reason)
          (record no_details { snapshot = some seen; expected = some st.capability.checkpoint })

  -- `_verify_checkpoint`: a verdict of `BUSINESS_OUTCOME` is one that has an outcome.
  unfoldable pub verify_checkpoint : RunState → M W RunResult
  unfolding checkpoint_verdict
  verify_checkpoint st = do
    seen ← observe x
    let verdict = classify x.text_host seen st.inputs st.capability none true
    checkpoint_verdict st seen verdict verdict.outcome
