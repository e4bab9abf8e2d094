-- ===== src/Replay/Executor/Finished/Whole.antt =====
-- src/cua/replay/executor.py: what a whole run gives.
use computer_use_automation.Base.{
  ℕ, ◌≤◌, ◌≡◌, refl, arith, String, true, [], Option, none, some, Result, ok, err, ltb, length,
}
use computer_use_automation.Domain.Predicates.{Inputs}
use computer_use_automation.Domain.Capability.{Capability}
use computer_use_automation.Domain.Result.{FailureCode, policy_denied}
use computer_use_automation.Policy.Irreversible.{GrantRefusal}
use computer_use_automation.Runtime.Command.{DispatchOutcome}
use computer_use_automation.Replay.Inputs.{InputError, Supplied, validate_inputs}
use computer_use_automation.Hitl.Reanchor.{Reconciliation, ResumeReason, reconcile}
use computer_use_automation.Replay.Executor.Resume.{from_plan, on_inputs, readopt_epoch, resume}
use computer_use_automation.Replay.Limits.{Unavailable, step_budget}
use computer_use_automation.Replay.Result.{over_step_budget, RunResult, Why}
use computer_use_automation.Replay.Executor.State.{
  ReplayExecutor, Live, RunState, note, read_clock, draw_id, set_sensitive_keys,
}
use computer_use_automation.Replay.Executor.Flow.{
  refuse, run_from, after_entry, open_entry, open_and_run, after_gate, after_inputs, after_lease,
  new_state, adopt_epoch, check_lease, execute, run,
}
use computer_use_automation.Replay.Executor.Finished.{
  Gives, Holds-value, Holds-continue, Holds-map, Gives-bind, Gives-either, is_success, IsSettled,
  IsPatient,
}
use computer_use_automation.Replay.Executor.Finished.Ends.{fail-Gives}
use computer_use_automation.Replay.Executor.Finished.Steps.{dispatch-Gives}
use computer_use_automation.Replay.Executor.Finished.Remedies.{
  finish-Holds, run_steps-Gives, looks-Gives,
}
use computer_use_automation.Replay.Executor.Finished.Rounds.{run_step-Gives}

module _ {W : Type 0} (x : ReplayExecutor W) (cap : ℕ) (patient : IsPatient x.around)
    (room : x.max_recovery_attempts_total ≤ cap) where
  -- How a run of `c` may end: a success is one on the inputs that the arguments bind.
  pub record IsEnding (c : Capability) (supplied : Supplied) (spent : ℕ) (r : RunResult)
      (v : Live W) : Type 0 where
    pub inputs : Inputs
    pub least : ℕ
    pub settled : IsSettled x cap c inputs least r v
    pub counted : is_success r.status ≡ true → spent ≤ r.recovery_attempts
    pub bound :
        is_success r.status ≡ true → validate_inputs x.input_host c.inputs supplied ≡ ok inputs

  refuse-Gives :
      (st : RunState) (supplied : Supplied) (spent : ℕ) (code : FailureCode) (why : Why)
      → st.recovery_attempts ≤ cap
      → Gives (IsEnding st.capability supplied spent) (refuse x st code why)
  unfolding refuse
  refuse-Gives st supplied spent code why h = record {
    at = λ v. Holds-map _ _ _ ((fail-Gives x cap st code why _ (omega (arith, h))).at v) (λ r w k.
        record {
          inputs = st.inputs;
          least = st.recovery_attempts;
          settled = k.0;
          counted = λ e. absurd (ground (arith, k.1, e));
          bound = λ e. absurd (ground (arith, k.1, e));
        });
  }

  run_from-Gives :
      (start : ℕ) (st : RunState) (supplied : Supplied)
      → validate_inputs x.input_host st.capability.inputs supplied ≡ ok st.inputs
      → st.recovery_attempts ≤ cap
      → Gives (IsEnding st.capability supplied st.recovery_attempts) (run_from x start st)
  unfolding run_from
  run_from-Gives start st supplied q h =
      Gives-bind _ _ _ _
        (run_steps-Gives x cap (λ _. Unit {0}) _ (λ _ _ _ _. tt)
          (λ s step index _ k. run_step-Gives x cap patient room s step index k) st start _ tt h)
        (λ p v k. Holds-continue _ _ _ _ (finish-Holds x cap st p v k) (λ e w l.
          Holds-value _ _ w (record {
            inputs = st.inputs;
            least = st.recovery_attempts;
            settled = l.0;
            counted = l.0.counted;
            bound = λ _. q;
          })))

  after_entry-Gives :
      (st : RunState) (supplied : Supplied) (o : DispatchOutcome)
      → validate_inputs x.input_host st.capability.inputs supplied ≡ ok st.inputs
      → st.recovery_attempts ≤ cap
      → Gives (IsEnding st.capability supplied st.recovery_attempts) (after_entry x st o)
  unfolding after_entry
  after_entry-Gives st supplied o q h = search (Gives-either, run_from-Gives, refuse-Gives, q, h)

  open_entry-Gives :
      (st : RunState) (supplied : Supplied)
      → validate_inputs x.input_host st.capability.inputs supplied ≡ ok st.inputs
      → st.recovery_attempts ≤ cap
      → Gives (IsEnding st.capability supplied st.recovery_attempts) (open_entry x st)
  unfolding open_entry
  open_entry-Gives st supplied q h = record {
    at = λ v.
        Holds-continue (λ _ _. Unit {0}) _ _ _ ((looks-Gives x cap patient).at v)
          (λ seen w _.
            Holds-continue (λ _ _. Unit {0}) _ _ _ ((dispatch-Gives x patient _).at w)
              (λ o u _. (after_entry-Gives st supplied o q h).at u));
  }

  open_and_run-Gives :
      (start : ℕ) (st : RunState) (supplied : Supplied)
      → validate_inputs x.input_host st.capability.inputs supplied ≡ ok st.inputs
      → st.recovery_attempts ≤ cap
      → Gives (IsEnding st.capability supplied st.recovery_attempts) (open_and_run x start st)
  unfolding open_and_run
  open_and_run-Gives start st supplied q h =
      search (Gives-either, open_entry-Gives, run_from-Gives, q, h)

  after_gate-Gives :
      (start : ℕ) (st : RunState) (supplied : Supplied) (g : Option GrantRefusal)
      → validate_inputs x.input_host st.capability.inputs supplied ≡ ok st.inputs
      → st.recovery_attempts ≤ cap
      → Gives (IsEnding st.capability supplied st.recovery_attempts) (after_gate x start st g)
  unfolding after_gate
  after_gate-Gives start st supplied (some g) q h = search (refuse-Gives, h)
  after_gate-Gives start st supplied none q h = open_and_run-Gives start st supplied q h

  after_inputs-Gives :
      (start : ℕ) (st : RunState) (supplied : Supplied) (r : Result InputError Inputs)
      → validate_inputs x.input_host st.capability.inputs supplied ≡ r
      → st.recovery_attempts ≤ cap
      → Gives (IsEnding st.capability supplied st.recovery_attempts) (after_inputs x start st r)
  unfolding after_inputs
  after_inputs-Gives start st supplied (err e) q h = search (refuse-Gives, h)
  after_inputs-Gives start st supplied (ok inputs) q h =
      after_gate-Gives start (record st { inputs = inputs }) supplied _ q h

  after_lease-Gives :
      (start : ℕ) (st : RunState) (supplied : Supplied) (free : Option Unavailable)
      → st.recovery_attempts ≤ cap
      → Gives
          (IsEnding st.capability supplied st.recovery_attempts)
          (after_lease x start st supplied free)
  unfolding after_lease
  after_lease-Gives start st supplied (some u) h = search (refuse-Gives, h)
  after_lease-Gives start st supplied none h =
      Gives-either _ (ltb (step_budget x.ceilings st.capability) (length st.capability.steps)) _ _
        (refuse-Gives st supplied st.recovery_attempts policy_denied
          (over_step_budget (length st.capability.steps) (step_budget x.ceilings st.capability)) h)
        (after_inputs-Gives start st supplied _ refl h)

  pub execute-Gives :
      (c : Capability) (supplied : Supplied) (start : ℕ) (outputs : Inputs) (attempts : ℕ)
      (run_id : String)
      → attempts ≤ cap
      → Gives (IsEnding c supplied attempts) (execute x c supplied start outputs attempts run_id)
  unfolding execute read_clock adopt_epoch set_sensitive_keys note check_lease
  execute-Gives c supplied start outputs attempts run_id h = record {
    at = λ v. (after_lease-Gives start (new_state x c run_id _ outputs attempts) supplied _ h).at _;
  }

  pub run-Gives :
      (c : Capability) (supplied : Supplied) → Gives (IsEnding c supplied 0) (run x c supplied)
  unfolding run draw_id
  run-Gives c supplied = record { at = λ v. (execute-Gives c supplied 0 [] 0 _ (omega arith)).at _ }

  module _ (explain : ResumeReason → String) where
    from_plan-Gives :
        (st : RunState) (supplied : Supplied) (outputs : Inputs) (attempts : ℕ)
        (plan : Reconciliation) (n : Option ℕ)
        → st.recovery_attempts ≤ cap
        → attempts ≤ cap
        → Gives
            (IsEnding st.capability supplied attempts)
            (from_plan x explain st supplied outputs attempts plan n)
    unfolding from_plan
    from_plan-Gives st supplied outputs attempts plan none h k = search (refuse-Gives, h)
    from_plan-Gives st supplied outputs attempts plan (some n) h k =
        execute-Gives st.capability supplied n outputs attempts st.run_id k

    on_inputs-Gives :
        (st : RunState) (supplied : Supplied) (outputs : Inputs) (attempts from_index : ℕ)
        (r : Result InputError Inputs)
        → st.recovery_attempts ≤ cap
        → attempts ≤ cap
        → Gives
            (IsEnding st.capability supplied attempts)
            (on_inputs x explain st supplied outputs attempts from_index r)
    unfolding on_inputs note
    on_inputs-Gives st supplied outputs attempts from_index (err e) h k = search (refuse-Gives, h)
    on_inputs-Gives st supplied outputs attempts from_index (ok inputs) h k = record {
      at = λ v.
          Holds-continue (λ _ _. Unit {0}) _ _ _ ((looks-Gives x cap patient).at v)
            (λ seen w _.
              let plan : Reconciliation =
                reconcile x.text_host st.capability seen inputs from_index in
              (from_plan-Gives st supplied outputs attempts plan plan.resume_index h k).at _);
    }

    pub resume-Gives :
        (c : Capability) (supplied : Supplied) (from_index : ℕ) (outputs : Inputs) (attempts : ℕ)
        (run_id : Option String)
        → attempts ≤ cap
        → Gives
            (IsEnding c supplied attempts)
            (resume x explain c supplied from_index outputs attempts run_id)
    unfolding resume readopt_epoch read_clock draw_id
    resume-Gives c supplied from_index outputs attempts none h = record {
      at = λ v.
          (on_inputs-Gives (new_state x c _ _ [] 0) supplied outputs attempts from_index _
              (omega arith) h).at
            _;
    }
    resume-Gives c supplied from_index outputs attempts (some id) h = record {
      at = λ v.
          (on_inputs-Gives (new_state x c id _ [] 0) supplied outputs attempts from_index _
              (omega arith) h).at
            _;
    }
