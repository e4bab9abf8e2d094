-- ===== src/Replay/Executor/Stepping.antt =====
-- src/cua/replay/executor.py: one step, once its screen is known to be a fitting one; with the wait of
-- replay/wait.py on the live surface. A deadline is a reading of the clock, in microseconds.
use Prim.Native.Nat.{◌*◌}
use computer_use_automation.Base.{
  ℕ, zero, suc, ◌+◌, String, Bool, true, false, not, Option, none, some, List, all, get_or, lookup,
  insert, leb, if◌then◌else◌, Result, ok, err,
}
use computer_use_automation.Domain.Actor.{automation}
use computer_use_automation.Domain.Snapshot.{UiNode, UiSnapshot}
use computer_use_automation.Domain.Text.{codes}
use computer_use_automation.Domain.Predicates.{Predicate, Inputs, evaluate}
use computer_use_automation.Domain.Action.{
  Action, Operation, assertion, extract, click, type_text, select_option, press_key, navigate,
  reload, scroll, raw_input,
}
use computer_use_automation.Domain.Action as Action
use computer_use_automation.Domain.Capability.{Step, WaitPolicy, predicate, is_set}
use computer_use_automation.Domain.Result.{
  FailureCode, input_validation_failed, precondition_failed, timed_out, action_failed,
}
use computer_use_automation.Policy.Secrets.{SecretResolver}
use computer_use_automation.Evidence.Redact.{Redactor}
use computer_use_automation.Targeting.Resolver.{Resolution}
use computer_use_automation.Runtime.Command.{Command, DispatchOutcome, DispatchStatus, done}
use computer_use_automation.Replay.Wait.{WaitOutcome, condition}
use computer_use_automation.Replay.Bind.{BindError, from_secrets, bind_action}
use computer_use_automation.Replay.Limits.{epochs}
use computer_use_automation.Replay.Transforms.{Text, TransformError, apply_transform}
use computer_use_automation.Replay.Result.{
  Why, unbound, assertion_unmet, condition_unmet, unreadable_output, not_transformed, dispatch_said,
  wait_expired, postcondition_unmet, RunResult,
}
use computer_use_automation.Replay.Executor.State.{
  ReplayExecutor, Live, RunState, M, ◌>>=◌, ◌>>◌, return, raise, out_of_rounds, value, lease_of,
  evidence_of, put_evidence, observe, dispatch, read_clock, next_reading, grant_of,
}
use computer_use_automation.Replay.Executor.Ending.{Details, no_details, fail}

-- What a part of a run gives: the run goes on in a state, or it has ended with a result.
pub data Progress : Type 0 where
  going : RunState → Progress
  ended : RunState → RunResult → Progress

abbrev pub redactor_of : Option SecretResolver → Option Redactor
redactor_of none = none
redactor_of (some s) = s.redactor

-- `or` on texts.
abbrev pub or_text : Option String → String → String
or_text none rest = rest
or_text (some t) rest = if is_set t then t else rest

abbrev pub with_status : DispatchStatus → Bool
with_status done = true
with_status _ = false

-- What an `Extract` asks for.
abbrev pub extraction_of : Operation → Option (String × Option String)
extraction_of (extract t into transform) = some (into, transform)
extraction_of _ = none

-- Which actions are evaluated by the executor itself.
pub data Evaluated : Type 0 where
  asserting : Predicate → Evaluated
  waiting : Predicate → ℕ → Evaluated
  dispatched : Evaluated

abbrev pub evaluated_of : Operation → Evaluated
evaluated_of (assertion p) = asserting p
evaluated_of (Action.wait_for p timeout) = waiting p timeout
evaluated_of _ = dispatched

abbrev pub text_result : (Text → String) → Result TransformError Text → Result TransformError String
text_result from_codes (ok cs) = ok (from_codes cs)
text_result from_codes (err e) = err e

abbrev pub at_step : Step → UiSnapshot → Details
at_step step seen = record no_details { step = some step; snapshot = some seen }

abbrev pub count_strategy : String → List (String × ℕ) → List (String × ℕ)
count_strategy name counts = insert name (get_or (lookup name counts) 0 + 1) counts

abbrev pub counted : (Resolution → String) → Option Resolution → Bool → RunState → RunState
counted name none drifted st = st
counted name (some r) drifted st = record st {
  strategies = count_strategy (name r) st.strategies;
  resolutions = st.resolutions + 1;
  drifted = if drifted then st.drifted + 1 else st.drifted;
}

module _ {W : Type 0} (x : ReplayExecutor W) where
  -- `self._fail(...)`, which ends the run.
  unfoldable pub stop : RunState → FailureCode → Why → Details → M W Progress
  stop st code why details = do r ← fail x st code why details; return (ended st r)

  -- The loop of `wait_for`, for so many polls at most.
  unfoldable pub poll :
      WaitPolicy → Inputs → Option UiSnapshot → ℕ → ℕ → Option UiSnapshot → M W WaitOutcome
  poll policy inputs before deadline zero previous = out_of_rounds
  poll policy inputs before deadline (suc rounds) previous =
      let again = poll policy inputs before deadline rounds in
      do
        seen ← observe x
        (if condition x.text_host inputs policy.for_what policy.until before previous seen
            then return (record { satisfied = true; snapshot = seen })
            else do
              now ← read_clock x
              (if leb deadline now
                  then return (record { satisfied = false; snapshot = seen })
                  else again (some seen)))

  -- `wait_for(..., observe=self.dispatcher.observe)`
  unfoldable pub wait_live : WaitPolicy → Inputs → Option UiSnapshot → M W WaitOutcome
  unfolding poll
  wait_live policy inputs before = do
    n ← next_reading x
    poll policy inputs before (x.around.monotonic n + policy.timeout_ms * 1000)
        (x.around.polls_for n policy.timeout_ms) none

  -- The wait and the postcondition of the step.
  unfoldable pub after_wait : RunState → Step → WaitOutcome → Option Predicate → M W Progress
  unfolding stop
  after_wait st step waited none =
      if not waited.satisfied
      then stop st timed_out wait_expired (at_step step waited.snapshot)
      else return (going st)
  after_wait st step waited (some p) =
      if not waited.satisfied
      then stop st timed_out wait_expired (at_step step waited.snapshot)
      else if not (evaluate x.text_host p waited.snapshot st.inputs)
      then stop st precondition_failed (postcondition_unmet step.id)
          (record (at_step step waited.snapshot) { expected = some p })
      else return (going st)

  unfoldable pub show_effect : RunState → Step → UiSnapshot → M W Progress
  unfolding wait_live after_wait
  show_effect st step seen = do
    waited ← wait_live step.wait st.inputs (some seen)
    after_wait st step waited step.postcondition

  abbrev pub read_value : UiNode → String
  read_value node = or_text node.value (or_text node.name "")

  -- `value.strip()` is empty.
  abbrev pub is_blank : String → Bool
  is_blank t = all x.char_host.is_space (codes t)

  unfoldable pub transformed : Option String → String → Result TransformError String
  transformed none t = ok t
  transformed (some name) t =
      if is_set name
      then text_result x.char_host.from_codes (apply_transform x.char_host name (codes t))
      else ok t

  unfoldable pub store_output :
      RunState → Step → UiSnapshot → String → Result TransformError String → M W Progress
  unfolding show_effect stop
  store_output st step seen into (err e) =
      stop st action_failed (not_transformed e) (at_step step seen)
  store_output st step seen into (ok text) =
      show_effect (record st { outputs = insert into text st.outputs }) step seen

  unfoldable pub extract_value :
      RunState → Step → UiSnapshot → Resolution → String → Option String → M W Progress
  unfolding store_output transformed stop
  extract_value st step seen r into transform =
      if is_blank (read_value r.node)
      then stop st action_failed (unreadable_output step.id r.node.node_id into)
          (record (at_step step seen) { resolution = some r })
      else store_output st step seen into (transformed transform (read_value r.node))

  unfoldable pub check_status : RunState → Step → UiSnapshot → DispatchOutcome → M W Progress
  unfolding show_effect stop
  check_status st step seen o =
      if with_status o.status
      then show_effect st step seen
      else stop st (get_or o.failure_code action_failed) (dispatch_said o)
          (record (at_step step seen) {
            resolution = o.resolution;
            resolution_debug = o.resolution_debug;
          })

  -- An `extract` that resolved is read from the screen at hand, whatever the status.
  unfoldable pub after_dispatch :
      RunState
      → Step
      → UiSnapshot
      → DispatchOutcome
      → Option (String × Option String)
      → Option Resolution
      → M W Progress
  unfolding extract_value check_status
  after_dispatch st step seen o (some (into, transform)) (some r) =
      extract_value st step seen r into transform
  after_dispatch st step seen o (some asked) none = check_status st step seen o
  after_dispatch st step seen o none found = check_status st step seen o

  abbrev pub command_for : RunState → Step → UiSnapshot → Action → ℕ × Option ℕ → Command
  command_for st step seen action (held, current) = record {
    action = action;
    snapshot = seen;
    actor = automation;
    session_id = x.session_id;
    lease_epoch = held;
    expected_epoch = current;
    capability = some st.capability;
    declared_risk = some step.risk;
    confirmed = false;
    grant = some (grant_of x);
  }

  abbrev pub epochs_now : M W (ℕ × Option ℕ)
  epochs_now v = (value (epochs v.lease_epoch (lease_of v.site)), v)

  unfoldable pub act : RunState → Step → ℕ → UiSnapshot → Action → M W Progress
  unfolding after_dispatch
  act st step index seen action = do
    now ← epochs_now
    o ← dispatch x (command_for st step seen action now)
    after_dispatch
        (counted (λ r. x.dispatcher.printer.strategy r.strategy) o.resolution o.drifted
          (record st { steps_executed = index + 1 }))
        step seen o (extraction_of action.operation) o.resolution

  unfoldable pub after_condition : RunState → Step → ℕ → Predicate → ℕ → WaitOutcome → M W Progress
  unfolding stop
  after_condition st step index p timeout waited =
      if waited.satisfied
      then return (going (record st { steps_executed = index + 1 }))
      else stop st timed_out (condition_unmet p timeout)
          (record (at_step step waited.snapshot) { expected = some p })

  -- `assert` and `wait_for` are evaluated here; any other action is dispatched.
  unfoldable pub by_operation : RunState → Step → ℕ → UiSnapshot → Action → Evaluated → M W Progress
  unfolding act after_condition wait_live stop
  by_operation st step index seen action (asserting p) =
      if evaluate x.text_host p seen st.inputs
      then return (going (record st { steps_executed = index + 1 }))
      else stop st precondition_failed (assertion_unmet p)
          (record (at_step step seen) { expected = some p })
  by_operation st step index seen action (waiting p timeout) = do
    waited ←
        wait_live (record { for_what = predicate; timeout_ms = timeout; until = some p }) st.inputs
          none
    after_condition st step index p timeout waited
  by_operation st step index seen action dispatched = act st step index seen action

  -- What the resolver has issued is known to the evidence's redactor, which is the resolver's own.
  abbrev pub share_redactor : Option Redactor → Live W → Live W
  share_redactor none v = v
  share_redactor (some r) v = put_evidence (record (evidence_of v) { redactor = r }) v

  unfoldable pub keep_secrets : Option SecretResolver → M W (Unit {0})
  keep_secrets next v = (value tt, share_redactor (redactor_of next) (record v { secrets = next }))

  unfoldable pub on_bound :
      RunState
      → Step
      → ℕ
      → UiSnapshot
      → Result BindError (Action × Option SecretResolver)
      → M W Progress
  unfolding by_operation stop keep_secrets
  on_bound st step index seen (err (from_secrets e)) = raise
  on_bound st step index seen (err e) =
      stop st input_validation_failed (unbound e) (at_step step seen)
  on_bound st step index seen (ok (action, next)) = do
    keep_secrets next
    by_operation st step index seen action (evaluated_of action.operation)

  -- `_dispatch_step`
  unfoldable pub dispatch_step : RunState → Step → ℕ → UiSnapshot → M W Progress
  unfolding on_bound
  dispatch_step st step index seen v =
      on_bound st step index seen
        (bind_action x.secret_host st.inputs st.outputs v.secrets step.action) v
