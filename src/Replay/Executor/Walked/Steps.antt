-- ===== src/Replay/Executor/Walked/Steps.antt =====
-- src/cua/replay/executor.py: a step and its wait are moves.
use computer_use_automation.Base.{
  ℕ, zero, suc, ◌+◌, String, Option, none, some, refl, Result, ok, err,
}
use computer_use_automation.Domain.Snapshot.{UiSnapshot}
use computer_use_automation.Domain.Predicates.{Predicate, Inputs}
use computer_use_automation.Domain.Action.{Action}
use computer_use_automation.Domain.Capability.{Step, WaitPolicy}
use computer_use_automation.Policy.Secrets.{SecretResolver}
use computer_use_automation.Targeting.Resolver.{Resolution}
use computer_use_automation.Runtime.Command.{DispatchOutcome}
use computer_use_automation.Replay.Wait.{WaitOutcome}
use computer_use_automation.Replay.Bind.{
  BindError, no_input, no_output, no_resolver, from_secrets, bind_action,
}
use computer_use_automation.Replay.Limits.{epochs}
use computer_use_automation.Replay.Transforms.{TransformError}
use computer_use_automation.Replay.Executor.State.{ReplayExecutor, RunState, lease_of}
use computer_use_automation.Replay.Executor.Stepping.{
  poll, wait_live, after_wait, show_effect, store_output, extract_value, check_status,
  after_dispatch, command_for, act, after_condition, Evaluated, asserting, waiting, dispatched,
  by_operation, keep_secrets, on_bound, dispatch_step, extraction_of, counted,
}
use computer_use_automation.Replay.Executor.Moves.{
  Moves-single, Moves-continue, resolves, Walks, Walks-return, Walks-raise, Walks-out_of_rounds,
  Walks-bind, Walks-if,
}
use computer_use_automation.Replay.Executor.Walked.Parts.{
  next_reading-Walks, read_clock-Walks, observe-Walks, dispatch-Moves, stop-Walks,
}

module _ {W : Type 0} (x : ReplayExecutor W) where
  poll-Walks :
      (policy : WaitPolicy) (inputs : Inputs) (before : Option UiSnapshot) (deadline rounds : ℕ)
      (previous : Option UiSnapshot)
      → Walks x (poll x policy inputs before deadline rounds previous)
  unfolding poll
  poll-Walks policy inputs before deadline zero previous = Walks-out_of_rounds x
  poll-Walks policy inputs before deadline (suc rounds) previous =
      Walks-bind x _ _ (observe-Walks x) (λ seen. Walks-if x _ _ _ (Walks-return x _) (
        Walks-bind x _ _ (read_clock-Walks x) (λ now.
          Walks-if x _ _ _ (Walks-return x _)
            (poll-Walks policy inputs before deadline rounds (some seen)))))

  wait_live-Walks :
      (policy : WaitPolicy) (inputs : Inputs) (before : Option UiSnapshot)
      → Walks x (wait_live x policy inputs before)
  unfolding wait_live
  wait_live-Walks policy inputs before = search (Walks-bind x, next_reading-Walks x, poll-Walks)

  after_wait-Walks :
      (st : RunState) (step : Step) (waited : WaitOutcome) (p : Option Predicate)
      → Walks x (after_wait x st step waited p)
  unfolding after_wait
  after_wait-Walks st step waited none = search (Walks-if x, Walks-return x, stop-Walks x)
  after_wait-Walks st step waited (some p) = search (Walks-if x, Walks-return x, stop-Walks x)

  show_effect-Walks :
      (st : RunState) (step : Step) (seen : UiSnapshot) → Walks x (show_effect x st step seen)
  unfolding show_effect
  show_effect-Walks st step seen = search (Walks-bind x, wait_live-Walks, after_wait-Walks)

  store_output-Walks :
      (st : RunState) (step : Step) (seen : UiSnapshot) (into : String)
      (r : Result TransformError String)
      → Walks x (store_output x st step seen into r)
  unfolding store_output
  store_output-Walks st step seen into (err e) = search (stop-Walks x)
  store_output-Walks st step seen into (ok text) = search (show_effect-Walks)

  extract_value-Walks :
      (st : RunState) (step : Step) (seen : UiSnapshot) (r : Resolution) (into : String)
      (transform : Option String)
      → Walks x (extract_value x st step seen r into transform)
  unfolding extract_value
  extract_value-Walks st step seen r into transform =
      search (Walks-if x, stop-Walks x, store_output-Walks)

  check_status-Walks :
      (st : RunState) (step : Step) (seen : UiSnapshot) (o : DispatchOutcome)
      → Walks x (check_status x st step seen o)
  unfolding check_status
  check_status-Walks st step seen o = search (Walks-if x, stop-Walks x, show_effect-Walks)

  after_dispatch-Walks :
      (st : RunState) (step : Step) (seen : UiSnapshot) (o : DispatchOutcome)
      (asked : Option (String × Option String)) (found : Option Resolution)
      → Walks x (after_dispatch x st step seen o asked found)
  unfolding after_dispatch
  after_dispatch-Walks st step seen o (some (into, transform)) (some r) =
      extract_value-Walks st step seen r into transform
  after_dispatch-Walks st step seen o (some asked) none = check_status-Walks st step seen o
  after_dispatch-Walks st step seen o none found = check_status-Walks st step seen o

  act-Walks :
      (st : RunState) (step : Step) (index : ℕ) (seen : UiSnapshot) (action : Action)
      → Walks x (act x st step index seen action)
  unfolding act
  act-Walks st step index seen action = record {
    at = λ v.
        Moves-continue x _ v _
          (λ o.
            after_dispatch-Walks
              (counted (λ r. x.dispatcher.printer.strategy r.strategy) o.resolution o.drifted
                (record st { steps_executed = index + 1 }))
              step seen o (extraction_of action.operation) o.resolution)
          (dispatch-Moves x
            (command_for x st step seen action (epochs v.lease_epoch (lease_of v.site))) v
            (refl, refl, refl, refl));
  }

  after_condition-Walks :
      (st : RunState) (step : Step) (index : ℕ) (p : Predicate) (timeout : ℕ) (waited : WaitOutcome)
      → Walks x (after_condition x st step index p timeout waited)
  unfolding after_condition
  after_condition-Walks st step index p timeout waited =
      search (Walks-if x, Walks-return x, stop-Walks x)

  by_operation-Walks :
      (st : RunState) (step : Step) (index : ℕ) (seen : UiSnapshot) (action : Action)
      (e : Evaluated)
      → Walks x (by_operation x st step index seen action e)
  unfolding by_operation
  by_operation-Walks st step index seen action (asserting p) =
      search (Walks-if x, Walks-return x, stop-Walks x)
  by_operation-Walks st step index seen action (waiting p timeout) =
      search (Walks-bind x, wait_live-Walks, after_condition-Walks)
  by_operation-Walks st step index seen action dispatched = act-Walks st step index seen action

  keep_secrets-Walks : (next : Option SecretResolver) → Walks x (keep_secrets x next)
  keep_secrets-Walks next = record { at = λ v. Moves-single x (resolves v next) }

  on_bound-Walks :
      (st : RunState) (step : Step) (index : ℕ) (seen : UiSnapshot)
      (r : Result BindError (Action × Option SecretResolver))
      → Walks x (on_bound x st step index seen r)
  unfolding on_bound
  on_bound-Walks st step index seen (err (from_secrets e)) = Walks-raise x
  on_bound-Walks st step index seen (err (no_input k)) = search (stop-Walks x)
  on_bound-Walks st step index seen (err (no_output k)) = search (stop-Walks x)
  on_bound-Walks st step index seen (err (no_resolver k)) = search (stop-Walks x)
  on_bound-Walks st step index seen (ok (action, next)) =
      search (Walks-bind x, keep_secrets-Walks, by_operation-Walks)

  pub dispatch_step-Walks :
      (st : RunState) (step : Step) (index : ℕ) (seen : UiSnapshot)
      → Walks x (dispatch_step x st step index seen)
  unfolding dispatch_step
  dispatch_step-Walks st step index seen = record {
    at = λ v.
        (on_bound-Walks st step index seen
            (bind_action x.secret_host st.inputs st.outputs v.secrets step.action)).at
          v;
  }
