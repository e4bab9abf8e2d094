-- ===== src/Assist/Recovery.antt =====
-- src/cua/assist/recovery.py: one step of a failed replay, chosen by a model and policed as any other.
-- The model is an argument, and so are the text that it is shown, and how reasons and messages read. What an `AssistOutcome` says is known where the call
-- returns.
pub mod Answered
pub mod Corrected
use Prim.Native.String
use computer_use_automation.Base.{
  ℕ, zero, suc, ◌+◌, String, Bool, true, false, ◌&&◌, not, Option, none, some, List, [], ◌∷◌, ◌==◌,
  get_or, lookup, nat_eq, if◌then◌else◌, Result, ok, err,
}
use computer_use_automation.Domain.Actor.{automation}
use computer_use_automation.Domain.Snapshot.{UiNode, UiSnapshot}
use computer_use_automation.Domain.Snapshot.Tree.{is_text, by_id}
use computer_use_automation.Domain.Text.{codes, strip}
use computer_use_automation.Domain.Predicates.{Inputs, literal}
use computer_use_automation.Domain.Target.{TargetDescriptor}
use computer_use_automation.Domain.Action.{
  Action, Operation, click, type_text, select_option, irreversible, is_risk,
}
use computer_use_automation.Domain.Capability.{Capability, Step}
use computer_use_automation.Domain.Result.{
  FailureCode, target_not_found, target_ambiguous, precondition_failed,
}
use computer_use_automation.Policy.Risk.{classify}
use computer_use_automation.Evidence.Json.{str, num, field, end}
use computer_use_automation.Evidence.Bus as Bus
use computer_use_automation.Targeting.Candidates.{NameHost}
use computer_use_automation.Targeting.Synthesize.{synthesize_descriptor}
use computer_use_automation.Agent.Tools.{ToolCall, LlmResponse, argument, node_id_from}
use computer_use_automation.Agent.Perform.{acts_by}
use computer_use_automation.Runtime.Command.{Command, DispatchOutcome}
use computer_use_automation.Hitl.Reanchor.{ResumeReason}
use computer_use_automation.Replay.Inputs.{Supplied}
use computer_use_automation.Replay.Transforms.{CharHost}
use computer_use_automation.Replay.Result.{RunStatus, FailureDetail, RunResult}
use computer_use_automation.Replay.Executor.State.{
  ReplayExecutor, Live, M, ◌>>=◌, ◌>>◌, return, observe, dispatch, note, next_reading,
}
use computer_use_automation.Replay.Executor.Recovery.{is_done}
use computer_use_automation.Replay.Executor.Flow.{run}
use computer_use_automation.Replay.Executor.Resume.{resume}

-- `LlmPort`, and what it is shown; an answer is that of a reading, and an error is an `LlmError`.
pub record LlmPort : Type 0 where
  pub model_name : String
  pub prompt : Capability → RunResult → UiSnapshot → String
  pub complete : ℕ → String → Result String LlmResponse

pub data AssistReason : Type 0 where
  no_failing_step proposed_nothing not_reversible completed still_failed : AssistReason
  unreachable not_on_page not_available : String → AssistReason
  not_dispatched : DispatchOutcome → AssistReason

pub record AssistOutcome : Type 0 where
  pub attempted : Bool
  pub succeeded : Bool
  pub model_calls : ℕ
  pub reason : Option AssistReason
  pub action : Option (String × TargetDescriptor)

abbrev pub not_attempted : AssistOutcome
not_attempted = record {
  attempted = false;
  succeeded = false;
  model_calls = 0;
  reason = none;
  action = none;
}

pub record AssistedReplay (W : Type 0) : Type 0 where
  pub executor : ReplayExecutor W
  pub llm : LlmPort
  pub names : NameHost
  pub explain : ResumeReason → String
  pub reason_text : AssistReason → String
  pub message : DispatchOutcome → String
  pub session_id : String
  pub lease_epoch : ℕ

-- `code in ASSISTABLE`
unfoldable pub is_assistable_code : FailureCode → Bool
is_assistable_code target_not_found = true
is_assistable_code target_ambiguous = true
is_assistable_code precondition_failed = true
is_assistable_code _ = false

abbrev pub has_failed : RunStatus → Bool
has_failed RunStatus.failed = true
has_failed RunStatus.needs_human = true
has_failed _ = false

abbrev pub assistable_error : Option FailureDetail → Bool
assistable_error none = false
assistable_error (some e) = is_assistable_code e.code

-- `_is_assistable`
unfoldable pub is_assistable : AssistOutcome → RunResult → Bool
is_assistable o r = if o.attempted then false else has_failed r.status && assistable_error r.error

unfoldable pub index_of : String → List Step → Option ℕ
index_of id [] = none
index_of id (step ∷ steps) =
    let rest = elim (index_of id steps) as (λ _. Option ℕ) [
      | none ↦ none
      | some i ↦ some (suc i)
    ] in
    if step.id == id then some 0 else rest

abbrev pub step_named : Option FailureDetail → String
step_named none = ""
step_named (some e) = get_or e.step_id ""

-- `_failed_index`
unfoldable pub failed_index : Capability → RunResult → Option ℕ
unfolding index_of
failed_index c r =
    if is_text (step_named r.error) then index_of (step_named r.error) c.steps else none

-- `_action_for`: the closed set.
unfoldable pub action_for : ToolCall → TargetDescriptor → Option Action
action_for call target =
    if call.name == "click"
    then some (acts_by (click target))
    else if call.name == "type_text"
    then some (acts_by (type_text target (literal (argument "text" "" call)) true))
    else if call.name == "select_option"
    then some (acts_by (select_option target (literal (argument "value" "" call))))
    else none

module _ {W : Type 0} (a : AssistedReplay W) where
  abbrev x : ReplayExecutor W
  x = a.executor

  unfoldable pub is_reversible : Action → UiNode → Bool
  is_reversible action n = not (
      is_risk
        (classify x.dispatcher.host.url.lower x.dispatcher.policy.risk action (some n) none).tier
        irreversible)

  -- The outcome, and the action that may be dispatched.
  abbrev pub Answer : Type 0
  Answer = Option Action × AssistOutcome

  abbrev pub because : AssistReason → AssistOutcome → AssistOutcome
  because why o = record o { reason = some why }

  unfoldable pub assist_note : String → String → M W (Unit {0})
  assist_note text detail =
      note x Bus.note 0
        (field "note" (str text) (field "detail" (str detail) (field "source" (str "assist") end)))

  unfoldable pub declined : AssistOutcome → AssistReason → M W Answer
  unfolding assist_note
  declined o why = do assist_note (a.reason_text why) ""; return (none, because why o)

  unfoldable pub on_action :
      AssistOutcome → ToolCall → TargetDescriptor → UiNode → Option Action → M W Answer
  unfolding declined is_reversible
  on_action o call target n none = declined o (not_available call.name)
  on_action o call target n (some action) =
      if is_reversible action n
      then return (some action, record o { action = some (call.name, target) })
      else declined o not_reversible

  unfoldable pub on_node : AssistOutcome → ToolCall → UiSnapshot → Option UiNode → M W Answer
  unfolding on_action declined
  on_node o call seen none = declined o (not_on_page call.name)
  on_node o call seen (some n) =
      let target = (synthesize_descriptor a.names n seen).descriptor in
      on_action o call target n (action_for call target)

  unfoldable pub on_calls : AssistOutcome → UiSnapshot → List ToolCall → M W Answer
  unfolding on_node
  on_calls o seen [] = return (none, because proposed_nothing o)
  on_calls o seen (call ∷ calls) =
      on_node o call seen (by_id seen.nodes (node_id_from x.char_host call))

  unfoldable pub on_response : AssistOutcome → UiSnapshot → Result String LlmResponse → M W Answer
  unfolding on_calls
  on_response o seen (err e) = return (none, because (unreachable e) o)
  on_response o seen (ok response) = do
    note x Bus.llm_call 0 (
        field "model" (str a.llm.model_name) (
          field "purpose" (str "assisted_recovery") (
            field "prompt_tokens" (num response.prompt_tokens)
              (field "completion_tokens" (num response.completion_tokens) end))))
    on_calls (record o { model_calls = o.model_calls + 1 }) seen response.tool_calls

  -- `_ask`
  unfoldable pub ask : AssistOutcome → Capability → RunResult → M W Answer
  unfolding on_response
  ask o c r = do
    seen ← observe x
    n ← next_reading x
    on_response o seen (a.llm.complete n (a.llm.prompt c r seen))

  abbrev pub correction : Capability → Action → UiSnapshot → Command
  correction c action seen = record {
    action = action;
    snapshot = seen;
    actor = automation;
    session_id = a.session_id;
    lease_epoch = a.lease_epoch;
    expected_epoch = none;
    capability = some c;
    declared_risk = none;
    confirmed = false;
    grant = none;
  }

  abbrev pub concluded : AssistOutcome → RunResult → RunStatus → RunResult × AssistOutcome
  concluded o r RunStatus.success = (r, because completed (record o { succeeded = true }))
  concluded o r status = (r, because still_failed (record o { succeeded = false }))

  unfoldable pub go_on :
      AssistOutcome → Capability → Supplied → RunResult → ℕ → M W (RunResult × AssistOutcome)
  go_on o c supplied r failed = do
    resumed ← resume x a.explain c supplied (failed + 1) r.outputs 0 none
    return (concluded o resumed resumed.status)

  unfoldable pub after_correction :
      AssistOutcome
      → Capability
      → Supplied
      → RunResult
      → ℕ
      → DispatchOutcome
      → M W (RunResult × AssistOutcome)
  unfolding go_on assist_note
  after_correction o c supplied r failed d =
      if is_done d.status then go_on o c supplied r failed else do
        assist_note "assisted action was refused by policy" (a.message d)
        return (r, because (not_dispatched d) o)

  unfoldable pub on_answer :
      Capability → Supplied → RunResult → ℕ → Answer → M W (RunResult × AssistOutcome)
  unfolding after_correction
  on_answer c supplied r failed (none, o) = return (r, o)
  on_answer c supplied r failed (some action, o) = do
    seen ← observe x
    d ← dispatch x (correction c action seen)
    after_correction o c supplied r failed d

  unfoldable pub correct :
      AssistOutcome → Capability → Supplied → RunResult → Option ℕ → M W (RunResult × AssistOutcome)
  unfolding on_answer ask
  correct o c supplied r none = return (r, because no_failing_step o)
  correct o c supplied r (some failed) = do answer ← ask o c r; on_answer c supplied r failed answer

  unfoldable pub after_run :
      AssistOutcome → Capability → Supplied → RunResult → M W (RunResult × AssistOutcome)
  unfolding correct
  after_run o c supplied r =
      if is_assistable o r
      then correct (record o { attempted = true }) c supplied r (failed_index c r)
      else return (r, o)

  -- `run`
  unfoldable pub assisted_run :
      AssistOutcome → Capability → Supplied → M W (RunResult × AssistOutcome)
  unfolding after_run
  assisted_run o c supplied = do r ← run x c supplied; after_run o c supplied r
