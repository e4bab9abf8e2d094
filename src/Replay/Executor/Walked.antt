-- ===== src/Replay/Executor/Walked.antt =====
-- src/cua/replay/executor.py: every call that a run makes is a sequence of moves.
pub mod Parts
pub mod Steps
pub mod Remedies
use computer_use_automation.Base.{
  ℕ, zero, suc, arith, String, Bool, true, false, Option, none, some, List, [], ◌∷◌, ◌≡◌, refl,
  Result, ok, err,
}
use mathlib.Core.Path.{subst}
use computer_use_automation.Domain.Snapshot.{UiSnapshot}
use computer_use_automation.Domain.Predicates.{Inputs}
use computer_use_automation.Domain.Capability.{Capability, Step, Outcome}
use computer_use_automation.Domain.Result.{FailureCode}
use computer_use_automation.Replay.Result.{Why}
use computer_use_automation.Domain.Capability.Summary.{sensitive_names}
use computer_use_automation.Evidence.Bus as Bus
use computer_use_automation.Hitl.Lease.{Lease}
use computer_use_automation.Policy.Irreversible.{GrantRefusal}
use computer_use_automation.Runtime.Command.{DispatchOutcome}
use computer_use_automation.Replay.Inputs.{InputError, Supplied}
use computer_use_automation.Replay.Classify.{Classification}
use computer_use_automation.Replay.Limits.{Overrun, Unavailable, epochs, lease_available}
use computer_use_automation.Replay.Executor.State.{
  ReplayExecutor, Surroundings, Live, RunState, M, value, lease_of,
}
use computer_use_automation.Replay.Executor.Stepping.{Progress}
use computer_use_automation.Replay.Executor.Recovery.{approval_gate}
use computer_use_automation.Replay.Executor.Flow.{
  Reaction, answers, recovers, stops, acts, react, on_screen, if_in_time, rounds_of_step, step_at,
  run_step, adopted, adopt_epoch, check_lease, refuse, run_from, entry_command, after_entry,
  open_entry, open_and_run, after_gate, after_inputs, after_lease, start_fields, new_state, execute,
  run, overrun_of, enough_rounds,
}
use computer_use_automation.Replay.Executor.Moves.{
  Moves, stay, Moves-single, adopts, Walks, Walks-return, Walks-out_of_rounds, Walks-bind, Walks-if,
}
use computer_use_automation.Replay.Executor.Walked.Parts.{
  next_reading-Walks, read_clock-Walks, draw_id-Walks, note-Walks, set_sensitive_keys-Walks,
  observe-Walks, observe_then_Moves, fail-Walks, answer-Walks, stop-Walks,
}
use computer_use_automation.Replay.Executor.Walked.Steps.{dispatch_step-Walks}
use computer_use_automation.Replay.Executor.Walked.Remedies.{
  next_step-Walks, finish-Walks, run_steps-Walks, recover-Walks,
}

module _ {W : Type 0} (x : ReplayExecutor W) where
  module _ (runner : RunState → Step → ℕ → M W Progress)
      (walk : (st : RunState) (step : Step) (index : ℕ) → Walks x (runner st step index)) where
    module _ (again : RunState → ℕ → M W Progress)
        (walk_again : (st : RunState) (attempts : ℕ) → Walks x (again st attempts)) (st : RunState)
        (step : Step) (index attempts : ℕ) where
      react-Walks :
          (seen : UiSnapshot) (verdict : Classification) (r : Reaction)
          → Walks x (react x runner again st step index attempts seen verdict r)
      unfolding react
      react-Walks seen verdict (answers o) =
          Walks-bind x _ _ (answer-Walks x st o) (λ r. Walks-return x _)
      react-Walks seen verdict (recovers rule) =
          Walks-bind x _ _ (recover-Walks x runner walk st rule (suc attempts) seen)
            (λ p. next_step-Walks x p _ (λ t. walk_again t (suc attempts)))
      react-Walks seen verdict stops = search (stop-Walks x)
      react-Walks seen verdict acts = dispatch_step-Walks x st step index seen

      on_screen-Walks :
          (seen : UiSnapshot) → Walks x (on_screen x runner again st step index attempts seen)
      unfolding on_screen
      on_screen-Walks seen =
          Walks-bind x _ _ (note-Walks x Bus.classify 0 _ refl) (λ _. search (react-Walks))

      if_in_time-Walks :
          (o : Option Overrun) → Walks x (if_in_time x runner again st step index attempts o)
      unfolding if_in_time
      if_in_time-Walks (some o) = search (stop-Walks x)
      if_in_time-Walks none = search (Walks-bind x, observe-Walks x, on_screen-Walks)

    rounds_of_step-Walks :
        (rounds : ℕ) (step : Step) (index : ℕ) (st : RunState) (attempts : ℕ)
        → Walks x (rounds_of_step x runner rounds step index st attempts)
    unfolding rounds_of_step
    rounds_of_step-Walks zero step index st attempts = Walks-out_of_rounds x
    rounds_of_step-Walks (suc rounds) step index st attempts =
        Walks-bind x _ _ (read_clock-Walks x) (λ now.
          if_in_time-Walks _ (rounds_of_step-Walks rounds step index) st step index attempts
            (overrun_of x st now))

  step_at-Walks :
      (depth : ℕ) (st : RunState) (step : Step) (index : ℕ)
      → Walks x (step_at x depth st step index)
  unfolding step_at
  step_at-Walks zero st step index = Walks-out_of_rounds x
  step_at-Walks (suc depth) st step index =
      rounds_of_step-Walks (step_at x depth) (step_at-Walks depth) (enough_rounds x) step index _ 0

  adopted-Moves :
      (v : Live W) (e : Option ℕ) (l : Option Lease)
      → v.lease_epoch ≡ e
      → lease_of v.site ≡ l
      → Moves x v (record v { lease_epoch = adopted x e l })
  adopted-Moves v (some e) l p q = subst (λ t. Moves x v (record v { lease_epoch = t })) p stay
  adopted-Moves v none none p q = subst (λ t. Moves x v (record v { lease_epoch = t })) p stay
  adopted-Moves v none (some l) p q = Moves-single x (adopts v l p q)

  adopt_epoch-Walks : Walks x (adopt_epoch x)
  unfolding adopt_epoch
  adopt_epoch-Walks = record { at = λ v. adopted-Moves v v.lease_epoch (lease_of v.site) refl refl }

  check_lease-Walks : Walks x (check_lease x)
  unfolding check_lease
  check_lease-Walks =
      Walks-bind x _ (λ n v. (value (lease_available (lease_of v.site) (x.around.utc_now n)), v))
        (next_reading-Walks x) (λ n. record { at = λ v. stay })

  pub refuse-Walks :
      (st : RunState) (code : FailureCode) (why : Why) → Walks x (refuse x st code why)
  unfolding refuse
  refuse-Walks st code why = fail-Walks x st code why _

  run_from-Walks : (start : ℕ) (st : RunState) → Walks x (run_from x start st)
  unfolding run_from run_step
  run_from-Walks start st =
      Walks-bind x _ _ (run_steps-Walks x (step_at x 2) (step_at-Walks 2) st start _)
        (λ p. Walks-bind x _ _ (finish-Walks x p) (λ e. Walks-return x _))

  after_entry-Walks : (st : RunState) (o : DispatchOutcome) → Walks x (after_entry x st o)
  unfolding after_entry
  after_entry-Walks st o = search (Walks-if x, run_from-Walks, refuse-Walks)

  open_entry-Walks : (st : RunState) → Walks x (open_entry x st)
  unfolding open_entry
  open_entry-Walks st = record {
    at = λ v.
        observe_then_Moves x
          (λ seen. entry_command x st seen (epochs v.lease_epoch (lease_of v.site)))
          (after_entry x st) v (λ seen. (refl, refl, refl, refl)) (after_entry-Walks st);
  }

  open_and_run-Walks : (start : ℕ) (st : RunState) → Walks x (open_and_run x start st)
  unfolding open_and_run
  open_and_run-Walks start st = search (Walks-if x, open_entry-Walks, run_from-Walks)

  after_gate-Walks :
      (start : ℕ) (st : RunState) (g : Option GrantRefusal) → Walks x (after_gate x start st g)
  unfolding after_gate
  after_gate-Walks start st (some g) = refuse-Walks st _ _
  after_gate-Walks start st none = open_and_run-Walks start st

  after_inputs-Walks :
      (start : ℕ) (st : RunState) (r : Result InputError Inputs)
      → Walks x (after_inputs x start st r)
  unfolding after_inputs
  after_inputs-Walks start st (err e) = refuse-Walks st _ _
  after_inputs-Walks start st (ok inputs) =
      after_gate-Walks start (record st { inputs = inputs }) (approval_gate x st.capability)

  after_lease-Walks :
      (start : ℕ) (st : RunState) (supplied : Supplied) (u : Option Unavailable)
      → Walks x (after_lease x start st supplied u)
  unfolding after_lease
  after_lease-Walks start st supplied (some u) = refuse-Walks st _ _
  after_lease-Walks start st supplied none = search (Walks-if x, refuse-Walks, after_inputs-Walks)

  pub execute-Walks :
      (c : Capability) (supplied : Supplied) (start : ℕ) (outputs : Inputs) (attempts : ℕ)
      (run_id : String)
      → Walks x (execute x c supplied start outputs attempts run_id)
  unfolding execute
  execute-Walks c supplied start outputs attempts run_id =
      Walks-bind x _ _ (read_clock-Walks x) (λ now. Walks-bind x _ _ adopt_epoch-Walks (λ _.
        Walks-bind x _ _ (set_sensitive_keys-Walks x (sensitive_names c)) (λ _.
          Walks-bind x _ _ (note-Walks x Bus.run_start 0 (start_fields x c supplied) refl) (λ _.
            Walks-bind x _ _ check_lease-Walks (λ free.
              after_lease-Walks start (new_state x c run_id now outputs attempts) supplied free)))))

  pub run-Walks : (c : Capability) (supplied : Supplied) → Walks x (run x c supplied)
  unfolding run
  run-Walks c supplied =
      Walks-bind x _ _ (draw_id-Walks x) (λ id. execute-Walks c supplied 0 [] 0 id)
