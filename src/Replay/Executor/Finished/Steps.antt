-- ===== src/Replay/Executor/Finished/Steps.antt =====
-- src/cua/replay/executor.py: what a step and its wait give.
use computer_use_automation.Base.{
  ℕ, zero, suc, ◌+◌, ◌*◌, ◌≤◌, ◌≡◌, refl, sym, ap, ◌∙◌, arith, String, Bool, false, Option, none,
  some, leb, if◌then◌else◌, Result, ok, err,
}
use mathlib.Core.Path.{subst}
use computer_use_automation.Domain.Snapshot.{UiSnapshot}
use computer_use_automation.Domain.Predicates.{Predicate, Inputs}
use computer_use_automation.Domain.Action.{Action}
use computer_use_automation.Domain.Capability.{Step, WaitPolicy}
use computer_use_automation.Policy.Secrets.{SecretResolver}
use computer_use_automation.Targeting.Resolver.{Resolution}
use computer_use_automation.Runtime.Command.{Command, Session, DispatchOutcome}
use computer_use_automation.Replay.Wait.{WaitOutcome, condition}
use computer_use_automation.Replay.Bind.{
  BindError, no_input, no_output, no_resolver, from_secrets, bind_action,
}
use computer_use_automation.Domain.Result.{FailureCode}
use computer_use_automation.Replay.Result.{Why}
use computer_use_automation.Replay.Executor.Ending.{Details}
use computer_use_automation.Replay.Transforms.{TransformError}
use computer_use_automation.Replay.Executor.State.{
  return, ◌>>=◌, ReplayExecutor, Live, RunState, outcome_or_raise, observe, read_clock, dispatch,
}
use computer_use_automation.Replay.Executor.Stepping.{
  going, stop, evaluated_of, extraction_of, poll, wait_live, after_wait, show_effect, store_output,
  extract_value, check_status, after_dispatch, act, after_condition, Evaluated, asserting, waiting,
  dispatched, by_operation, keep_secrets, on_bound, dispatch_step, counted,
}
use computer_use_automation.Replay.Executor.Finished.{
  Holds-map, Gives-later, Gives-going, IsLater-same, IsLater-trans, Holds, Gives, Holds-value,
  Holds-raised, Holds-continue, Holds-if, Gives-raise, Gives-bind, Gives-either, After, IsLater,
  IsLater-refl, IsPatient,
}
use computer_use_automation.Replay.Executor.Finished.Ends.{stop-Gives}

not_late : (deadline now : ℕ) → leb deadline now ≡ false → deadline ≤ now → ⊥
not_late deadline now e h = ground arith

module _ {W : Type 0} (x : ReplayExecutor W) (patient : IsPatient x.around) where
  observe-reading : (v : Live W) → Holds (λ _ w. w.readings ≡ suc v.readings) (observe x v)
  unfolding observe
  observe-reading v = Holds-value _ _ _ refl

  read_clock-reading :
      (v : Live W)
      → Holds
          (λ now w. (now ≡ x.around.monotonic v.readings) × (w.readings ≡ suc v.readings))
          (read_clock x v)
  unfolding read_clock
  read_clock-reading v = Holds-value _ _ _ (refl, refl)

  after_look :
      (policy : WaitPolicy) (inputs : Inputs) (before : Option UiSnapshot) (deadline rounds : ℕ)
      (seen : UiSnapshot) (v : Live W)
      → (leb deadline (x.around.monotonic v.readings) ≡ false
          → (w : Live W) → w.readings ≡ suc v.readings
          → Holds (λ _ _. Unit {0}) (poll x policy inputs before deadline rounds (some seen) w))
      → Holds
          (λ _ _. Unit {0})
          ((do
            now ← read_clock x
            (if leb deadline now
                then return (record { satisfied = false; snapshot = seen })
                else poll x policy inputs before deadline rounds (some seen)))
            v)
  after_look policy inputs before deadline rounds seen v again =
      Holds-continue _ _ _ _ (read_clock-reading v) (λ now w q.
        Holds-if _ (leb deadline now) _ _ w (λ _. Holds-value _ _ _ tt)
          (λ e. again (ap (leb deadline) (sym (q.0)) ∙ e) w (q.1)))

  -- A poll that has a round for the deadline ends.
  poll-Holds :
      (policy : WaitPolicy) (inputs : Inputs) (before : Option UiSnapshot) (deadline rounds : ℕ)
      (previous : Option UiSnapshot) (v : Live W)
      → deadline ≤ x.around.monotonic (suc (v.readings + rounds * 2))
      → Holds (λ _ _. Unit {0}) (poll x policy inputs before deadline (suc rounds) previous v)
  unfolding poll
  poll-Holds policy inputs before deadline zero previous v h =
      Holds-continue _ _ _ _ (observe-reading v) (λ seen w q.
        Holds-if _ (condition x.text_host inputs policy.for_what policy.until before previous seen)
          _ _ w (λ _. Holds-value _ _ _ tt)
          (λ _. after_look policy inputs before deadline zero seen w (λ late. absurd (
            not_late deadline (x.around.monotonic w.readings) late
              (subst (λ n. deadline ≤ x.around.monotonic n) (omega (arith, q)) h)))))
  poll-Holds policy inputs before deadline (suc rounds) previous v h =
      Holds-continue _ _ _ _ (observe-reading v) (λ seen w q.
        Holds-if _ (condition x.text_host inputs policy.for_what policy.until before previous seen)
          _ _ w (λ _. Holds-value _ _ _ tt)
          (λ _. after_look policy inputs before deadline (suc rounds) seen w (λ late u r.
            poll-Holds policy inputs before deadline rounds (some seen) u
              (subst (λ n. deadline ≤ x.around.monotonic n) (omega (arith, q, r)) h))))

  wait_live-Gives :
      (policy : WaitPolicy) (inputs : Inputs) (before : Option UiSnapshot)
      → Gives (λ _ _. Unit {0}) (wait_live x policy inputs before)
  unfolding wait_live
  wait_live-Gives policy inputs before = record {
    at = λ v.
        with_rounds v.readings (x.around.polls_for v.readings policy.timeout_ms) _ v
          (patient.polls v.readings policy.timeout_ms)
          (patient.passes v.readings policy.timeout_ms);
  }
    where
      with_rounds :
          (n rounds : ℕ) (deadline : ℕ) (v : Live W)
          → 1 ≤ rounds
          → deadline ≤ x.around.monotonic (n + rounds * 2)
          → Holds
              (λ _ _. Unit {0})
              (poll x policy inputs before deadline rounds none (record v { readings = suc n }))
      with_rounds n zero deadline v p h = absurd (omega (arith, p))
      with_rounds n (suc rounds) deadline v p h =
          poll-Holds policy inputs before deadline rounds none (record v { readings = suc n })
            (subst (λ k. deadline ≤ x.around.monotonic k) (omega arith) h)

  pub dispatch-Gives : (c : Command) → Gives (λ _ _. Unit {0}) (dispatch x c)
  unfolding dispatch
  dispatch-Gives c = record { at = λ v. of_outcome _ _ }
    where
      of_outcome :
          (o : Option DispatchOutcome × Session W) (v : Live W)
          → Holds (λ _ _. Unit {0}) (outcome_or_raise o v)
      of_outcome (none, s) v = Holds-raised _ _
      of_outcome (some o, s) v = Holds-value _ _ _ tt

  module _ (cap : ℕ) where
    abbrev pub Fits : RunState → Type 0
    Fits st = st.recovery_attempts ≤ cap

    pub stops :
        (st : RunState) (code : FailureCode) (why : Why) (d : Details)
        → Fits st
        → Gives (After x cap st) (stop x st code why d)
    stops st code why d h = record {
      at = λ v.
          Holds-map _ _ _ ((stop-Gives x cap st code why d (omega (arith, h))).at v) (λ p w k. k.0);
    }

    stays : (st : RunState) → Fits st → Gives (After x cap st) (return (going st))
    stays st h = Gives-going x cap st st (IsLater-refl st) h

    -- A step that needs nothing of the surface is counted, and the run goes on.
    counts :
        (st : RunState) (n : ℕ)
        → Fits st
        → Gives (After x cap st) (return (going (record st { steps_executed = n })))
    counts st n h = Gives-going x cap st _ (IsLater-same st _ refl refl refl refl) h

    after_wait-Gives :
        (st : RunState) (step : Step) (waited : WaitOutcome) (p : Option Predicate)
        → Fits st
        → Gives (After x cap st) (after_wait x st step waited p)
    unfolding after_wait
    after_wait-Gives st step waited none h = search (Gives-either, stops, stays, h)
    after_wait-Gives st step waited (some p) h = search (Gives-either, stops, stays, h)

    show_effect-Gives :
        (st : RunState) (step : Step) (seen : UiSnapshot)
        → Fits st
        → Gives (After x cap st) (show_effect x st step seen)
    unfolding show_effect
    show_effect-Gives st step seen h =
        Gives-bind _ _ _ _ (wait_live-Gives _ _ _)
          (λ waited v _. (after_wait-Gives st step waited step.postcondition h).at v)

    store_output-Gives :
        (st : RunState) (step : Step) (seen : UiSnapshot) (into : String)
        (r : Result TransformError String)
        → Fits st
        → Gives (After x cap st) (store_output x st step seen into r)
    unfolding store_output
    store_output-Gives st step seen into (err e) h = search (stops, h)
    store_output-Gives st step seen into (ok text) h =
        Gives-later x cap _ (IsLater-same st _ refl refl refl refl)
          (show_effect-Gives _ step seen h)

    extract_value-Gives :
        (st : RunState) (step : Step) (seen : UiSnapshot) (r : Resolution) (into : String)
        (transform : Option String)
        → Fits st
        → Gives (After x cap st) (extract_value x st step seen r into transform)
    unfolding extract_value
    extract_value-Gives st step seen r into transform h =
        search (Gives-either, stops, store_output-Gives, h)

    check_status-Gives :
        (st : RunState) (step : Step) (seen : UiSnapshot) (o : DispatchOutcome)
        → Fits st
        → Gives (After x cap st) (check_status x st step seen o)
    unfolding check_status
    check_status-Gives st step seen o h = search (Gives-either, stops, show_effect-Gives, h)

    after_dispatch-Gives :
        (st : RunState) (step : Step) (seen : UiSnapshot) (o : DispatchOutcome)
        (asked : Option (String × Option String)) (found : Option Resolution)
        → Fits st
        → Gives (After x cap st) (after_dispatch x st step seen o asked found)
    unfolding after_dispatch
    after_dispatch-Gives st step seen o (some (into, transform)) (some r) h =
        extract_value-Gives st step seen r into transform h
    after_dispatch-Gives st step seen o (some asked) none h = check_status-Gives st step seen o h
    after_dispatch-Gives st step seen o none found h = check_status-Gives st step seen o h

    counted-IsLater :
        (name : Resolution → String) (found : Option Resolution) (drifted : Bool) (st : RunState)
        → IsLater st (counted name found drifted st)
    counted-IsLater name none drifted st = IsLater-refl st
    counted-IsLater name (some r) drifted st = IsLater-same st _ refl refl refl refl

    counted-Fits :
        (name : Resolution → String) (found : Option Resolution) (drifted : Bool) (st : RunState)
        → Fits st
        → Fits (counted name found drifted st)
    counted-Fits name none drifted st h = h
    counted-Fits name (some r) drifted st h = h

    act-Gives :
        (st : RunState) (step : Step) (index : ℕ) (seen : UiSnapshot) (action : Action)
        → Fits st
        → Gives (After x cap st) (act x st step index seen action)
    unfolding act
    act-Gives st step index seen action h = record {
      at = λ v.
          Holds-continue (λ _ _. Unit {0}) _ _ _ ((dispatch-Gives _).at v)
            (λ o w _.
              let t : RunState = record st { steps_executed = index + 1 } in
              let name : Resolution → String = λ r. x.dispatcher.printer.strategy r.strategy in
              (Gives-later x cap _
                  (IsLater-trans (IsLater-same st t refl refl refl refl)
                    (counted-IsLater name o.resolution o.drifted t))
                  (after_dispatch-Gives (counted name o.resolution o.drifted t) step seen o
                    (extraction_of action.operation) o.resolution
                    (counted-Fits name o.resolution o.drifted t h))).at
                w);
    }

    after_condition-Gives :
        (st : RunState) (step : Step) (index : ℕ) (p : Predicate) (timeout : ℕ)
        (waited : WaitOutcome)
        → Fits st
        → Gives (After x cap st) (after_condition x st step index p timeout waited)
    unfolding after_condition
    after_condition-Gives st step index p timeout waited h = search (Gives-either, counts, stops, h)

    by_operation-Gives :
        (st : RunState) (step : Step) (index : ℕ) (seen : UiSnapshot) (action : Action)
        (e : Evaluated)
        → Fits st
        → Gives (After x cap st) (by_operation x st step index seen action e)
    unfolding by_operation
    by_operation-Gives st step index seen action (asserting p) h =
        search (Gives-either, counts, stops, h)
    by_operation-Gives st step index seen action (waiting p timeout) h =
        Gives-bind _ _ _ _ (wait_live-Gives _ _ _)
          (λ waited v _. (after_condition-Gives st step index p timeout waited h).at v)
    by_operation-Gives st step index seen action dispatched h =
        act-Gives st step index seen action h

    on_bound-Gives :
        (st : RunState) (step : Step) (index : ℕ) (seen : UiSnapshot)
        (r : Result BindError (Action × Option SecretResolver))
        → Fits st
        → Gives (After x cap st) (on_bound x st step index seen r)
    unfolding on_bound keep_secrets
    on_bound-Gives st step index seen (err (from_secrets e)) h = Gives-raise _
    on_bound-Gives st step index seen (err (no_input k)) h = search (stops, h)
    on_bound-Gives st step index seen (err (no_output k)) h = search (stops, h)
    on_bound-Gives st step index seen (err (no_resolver k)) h = search (stops, h)
    on_bound-Gives st step index seen (ok (action, next)) h = record {
      at = λ v.
          (by_operation-Gives st step index seen action (evaluated_of action.operation) h).at _;
    }

    pub dispatch_step-Gives :
        (st : RunState) (step : Step) (index : ℕ) (seen : UiSnapshot)
        → Fits st
        → Gives (After x cap st) (dispatch_step x st step index seen)
    unfolding dispatch_step
    dispatch_step-Gives st step index seen h = record {
      at = λ v.
          (on_bound-Gives st step index seen
              (bind_action x.secret_host st.inputs st.outputs v.secrets step.action) h).at
            v;
    }
