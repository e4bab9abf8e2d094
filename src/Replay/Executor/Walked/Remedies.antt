-- ===== src/Replay/Executor/Walked/Remedies.antt =====
-- src/cua/replay/executor.py: remedies are moves, if the steps of a remedy are.
use computer_use_automation.Base.{
  ℕ, suc, String, Option, none, some, List, [], ◌∷◌, refl, Result, ok, err,
}
use computer_use_automation.Domain.Snapshot.{UiSnapshot}
use computer_use_automation.Domain.Predicates.{Inputs}
use computer_use_automation.Domain.Action.{Action}
use computer_use_automation.Domain.Capability.{
  Capability, Step, RecoveryRule, Remedy, perform, run_capability,
}
use computer_use_automation.Domain.Capability.Summary.{sensitive_names}
use computer_use_automation.Policy.Irreversible.{GrantRefusal}
use computer_use_automation.Evidence.Json.{Fields}
use computer_use_automation.Evidence.Bus as Bus
use computer_use_automation.Runtime.Command.{DispatchOutcome}
use computer_use_automation.Replay.Limits.{epochs}
use computer_use_automation.Replay.Result.{RunStatus, CannotRun, RunResult}
use computer_use_automation.Replay.Executor.State.{ReplayExecutor, RunState, M, lease_of}
use computer_use_automation.Replay.Executor.Stepping.{Progress, going, ended}
use computer_use_automation.Replay.Executor.Recovery.{
  next_step, restoring, remedial, finish, after_status, after_remedy, remedy_refusal,
  remedy_command, perform_remedy, run_steps, remedy_run, run_prepared, through_gate, if_prepared,
  apply_remedy, apply_all, recover, prepare, approval_gate,
}
use computer_use_automation.Replay.Executor.Moves.{
  then_move, Moves-single, Moves-trans, masks, Walks, Walks-return, Walks-bind, Walks-if,
}
use computer_use_automation.Replay.Executor.Walked.Parts.{
  read_clock-Walks, note-Walks, observe_then_Moves, verify_checkpoint-Walks, stop-Walks,
}

module _ {W : Type 0} (x : ReplayExecutor W) where
  pub next_step-Walks :
      (p : Progress) (go : RunState → M W Progress)
      → ((st : RunState) → Walks x (go st))
      → Walks x (next_step p go)
  next_step-Walks (going st) go walk = walk st
  next_step-Walks (ended st r) go walk = Walks-return x _

  restoring-Walks :
      {A : Type 0} (more : List String) (m : M W A) → Walks x m → Walks x (restoring more m)
  restoring-Walks more m walk = record {
    at = λ v. then_move (Moves-trans x (Moves-single x (masks v _)) (walk.at _)) (masks _ _);
  }

  pub finish-Walks : (p : Progress) → Walks x (finish x p)
  unfolding finish
  finish-Walks (ended st r) = Walks-return x _
  finish-Walks (going st) = search (Walks-bind x, verify_checkpoint-Walks x, Walks-return x)

  after_status-Walks :
      (st : RunState) (rule : RecoveryRule) (seen : UiSnapshot) (r : RunResult) (status : RunStatus)
      → Walks x (after_status x st rule seen r status)
  unfolding after_status
  after_status-Walks st rule seen r RunStatus.success = Walks-return x _
  after_status-Walks st rule seen r RunStatus.business_outcome = search (stop-Walks x)
  after_status-Walks st rule seen r RunStatus.needs_human = search (stop-Walks x)
  after_status-Walks st rule seen r RunStatus.failed = search (stop-Walks x)

  after_remedy-Walks :
      (st : RunState) (rule : RecoveryRule) (seen : UiSnapshot) (t : RunState × RunResult)
      → Walks x (after_remedy x st rule seen t)
  unfolding after_remedy
  after_remedy-Walks st rule seen (t, r) = search (after_status-Walks)

  remedy_refusal-Walks :
      (st : RunState) (rule : RecoveryRule) (seen : UiSnapshot) (o : DispatchOutcome)
      → Walks x (remedy_refusal x st rule seen o)
  unfolding remedy_refusal
  remedy_refusal-Walks st rule seen o = search (Walks-if x, Walks-return x, stop-Walks x)

  perform_remedy-Walks :
      (st : RunState) (rule : RecoveryRule) (seen : UiSnapshot) (action : Action)
      → Walks x (perform_remedy x st rule seen action)
  unfolding perform_remedy
  perform_remedy-Walks st rule seen action = record {
    at = λ v.
        observe_then_Moves x
          (λ looked. remedy_command x st action looked (epochs v.lease_epoch (lease_of v.site)))
          (remedy_refusal x st rule seen) v (λ looked. (refl, refl, refl, refl))
          (remedy_refusal-Walks st rule seen);
  }

  module _ (runner : RunState → Step → ℕ → M W Progress)
      (walk : (st : RunState) (step : Step) (index : ℕ) → Walks x (runner st step index)) where
    pub run_steps-Walks :
        (st : RunState) (index : ℕ) (steps : List Step)
        → Walks x (run_steps x runner st index steps)
    unfolding run_steps
    run_steps-Walks st index [] = Walks-return x _
    run_steps-Walks st index (step ∷ steps) =
        Walks-bind x _ _ (walk st step index)
          (λ p. next_step-Walks p _ (λ t. run_steps-Walks t (suc index) steps))

    remedy_run-Walks : (st : RunState) (c : Capability) → Walks x (remedy_run x runner st c)
    unfolding remedy_run
    remedy_run-Walks st c = search (Walks-bind x, run_steps-Walks, finish-Walks)

    run_prepared-Walks :
        (st : RunState) (rule : RecoveryRule) (seen : UiSnapshot) (c : Capability) (inputs : Inputs)
        → Walks x (run_prepared x runner st rule seen c inputs)
    unfolding run_prepared
    run_prepared-Walks st rule seen c inputs =
        Walks-bind x _ _ (note-Walks x Bus.recovery 0 _ refl) (λ _.
          Walks-bind x _ _ (read_clock-Walks x) (λ now.
            Walks-bind x
              (restoring (sensitive_names c) (remedy_run x runner (remedial x st c inputs now) c))
              (after_remedy x st rule seen)
              (restoring-Walks (sensitive_names c) _
                (remedy_run-Walks (remedial x st c inputs now) c))
              (after_remedy-Walks st rule seen)))

    through_gate-Walks :
        (st : RunState) (rule : RecoveryRule) (seen : UiSnapshot) (c : Capability) (inputs : Inputs)
        (g : Option GrantRefusal)
        → Walks x (through_gate x runner st rule seen c inputs g)
    unfolding through_gate
    through_gate-Walks st rule seen c inputs (some g) = search (stop-Walks x)
    through_gate-Walks st rule seen c inputs none = run_prepared-Walks st rule seen c inputs

    if_prepared-Walks :
        (st : RunState) (rule : RecoveryRule) (seen : UiSnapshot)
        (r : Result CannotRun (Capability × Inputs))
        → Walks x (if_prepared x runner st rule seen r)
    unfolding if_prepared
    if_prepared-Walks st rule seen (err why) = search (stop-Walks x)
    if_prepared-Walks st rule seen (ok (c, inputs)) =
        through_gate-Walks st rule seen c inputs (approval_gate x c)

    apply_remedy-Walks :
        (st : RunState) (rule : RecoveryRule) (seen : UiSnapshot) (remedy : Remedy)
        → Walks x (apply_remedy x runner st rule seen remedy)
    unfolding apply_remedy
    apply_remedy-Walks st rule seen (perform action) = perform_remedy-Walks st rule seen action
    apply_remedy-Walks st rule seen (run_capability id arguments) =
        if_prepared-Walks st rule seen (prepare x st id arguments)

    apply_all-Walks :
        (st : RunState) (rule : RecoveryRule) (seen : UiSnapshot) (remedies : List Remedy)
        → Walks x (apply_all x runner st rule seen remedies)
    unfolding apply_all
    apply_all-Walks st rule seen [] = Walks-return x _
    apply_all-Walks st rule seen (remedy ∷ rest) =
        Walks-bind x _ _ (apply_remedy-Walks st rule seen remedy)
          (λ p. next_step-Walks p _ (λ t. apply_all-Walks t rule seen rest))

    pub recover-Walks :
        (st : RunState) (rule : RecoveryRule) (attempts : ℕ) (seen : UiSnapshot)
        → Walks x (recover x runner st rule attempts seen)
    unfolding recover
    recover-Walks st rule attempts seen =
        let noted = λ (fields : Fields). note-Walks x Bus.recovery 0 fields refl in
        search (Walks-if x, Walks-bind x, stop-Walks x, noted, apply_all-Walks)
