-- ===== src/Replay/Executor/Finished/Remedies.antt =====
-- src/cua/replay/executor.py: what the remedies of a run give.
use computer_use_automation.Base.{
  ℕ, suc, ◌+◌, ◌≤◌, ◌≡◌, refl, sym, ap, ◌∙◌, arith, String, Bool-cases, inl, inr, Option, none,
  some, true, false, not, is_empty, List, [], ◌∷◌, Result, ok, err, ltb,
}
use computer_use_automation.Domain.Snapshot.{UiSnapshot}
use computer_use_automation.Domain.Predicates.{Inputs, ValueExpr}
use computer_use_automation.Domain.Action.{Action}
use computer_use_automation.Domain.Capability.{
  Capability, Step, RecoveryRule, Remedy, perform, run_capability,
}
use computer_use_automation.Policy.Irreversible.{GrantRefusal}
use computer_use_automation.Runtime.Command.{DispatchOutcome}
use computer_use_automation.Domain.Result.{FailureCode}
use computer_use_automation.Replay.Result.{RunStatus, RunResult, CannotRun, Why}
use computer_use_automation.Replay.Executor.State.{
  return, ReplayExecutor, Live, RunState, M, Exit, value, raised, unfinished, observe, note,
  read_clock,
}
use computer_use_automation.Replay.Executor.Ending.{is_remedy, Details}
use computer_use_automation.Replay.Executor.Stepping.{Progress, going, ended, stop}
use computer_use_automation.Replay.Executor.Recovery.{
  with_keys, prepare, remedial, finish, after_status, after_remedy, remedy_refusal, perform_remedy,
  run_steps, remedy_run, run_prepared, through_gate, if_prepared, apply_remedy, apply_all,
  recover_counted, recover,
}
use computer_use_automation.Replay.Executor.Finished.{
  Gives-going, Holds, Gives, Holds-value, Holds-continue, Holds-map, Gives-bind, Gives-either,
  Gives-if, Gives-next, Gives-later, is_success, Settled, Settled-later, After, goes_on, IsLater,
  IsLater-refl, IsPatient,
}
use computer_use_automation.Replay.Executor.Finished.Ends.{stop-Gives, verify_checkpoint-Gives}
use computer_use_automation.Replay.Executor.Finished.Steps.{dispatch-Gives}

not_over : (a b : ℕ) → ltb a b ≡ false → b ≤ a
not_over a b h = ground arith

pub is_remedy-later : {st t : RunState} → IsLater st t → is_remedy t ≡ is_remedy st
unfolding is_remedy
is_remedy-later p = ap (λ ps. not (is_empty ps)) p.same_parents

module _ {W : Type 0} where
  Holds-with_keys :
      {A : Type 0} (P : A → Type 0) (keys : List String) (r : Exit A × Live W)
      → Holds (λ a _. P a) r
      → Holds (λ a _. P a) (with_keys keys r)
  unfolding Holds
  Holds-with_keys P keys (value a, v) h = h
  Holds-with_keys P keys (raised, v) h = h
  Holds-with_keys P keys (unfinished, v) h = h

module _ {W : Type 0} (x : ReplayExecutor W) (cap : ℕ) where
  -- What is left of a run that has ended, for the run that it serves.
  abbrev pub Left : RunState → RunState × RunResult → Type 0
  Left st (t, r) =
      IsLater st t
      × (t.recovery_attempts ≤ suc cap)
      × (is_success r.status ≡ true → t.recovery_attempts ≤ cap)

  pub finish-Holds :
      (st : RunState) (p : Progress) (v : Live W)
      → After x cap st p v
      → Holds (λ e w. Settled x cap st (e.1) w × Left st e) (finish x p v)
  unfolding finish
  finish-Holds st (going t) v k =
      Holds-continue _ _ _ _ ((verify_checkpoint-Gives x cap t (omega (arith, k.1))).at v) (λ r w s.
        Holds-value _ _ w (Settled-later x cap r w (k.0) s, (k.0, omega (arith, k.1), λ _. k.1)))
  finish-Holds st (ended t r) v k =
      Holds-value _ _ v (k.0, (k.2, k.3, λ e. absurd (ground (arith, k.1, e))))

  -- Steps, by a runner that does for the states that it is given.
  pub run_steps-Gives :
      (Q : RunState → Type 0) (runner : RunState → Step → ℕ → M W Progress)
      → ((st t : RunState) → IsLater st t → Q st → Q t)
      → ((st : RunState) (step : Step) (index : ℕ)
          → Q st
          → st.recovery_attempts ≤ cap
          → Gives (After x cap st) (runner st step index))
      → (st : RunState) (index : ℕ) (steps : List Step) → Q st
      → st.recovery_attempts ≤ cap
      → Gives (After x cap st) (run_steps x runner st index steps)
  unfolding run_steps
  run_steps-Gives Q runner later runs st index [] q h = Gives-going x cap st st (IsLater-refl st) h
  run_steps-Gives Q runner later runs st index (step ∷ steps) q h =
      Gives-next x cap st _ _ (runs st step index q h)
        (λ t p k. run_steps-Gives Q runner later runs t (suc index) steps (later st t p q) k)

  -- A run that is stopped, whatever it may have been.
  pub stopped :
      (st : RunState) (code : FailureCode) (why : Why) (d : Details)
      → st.recovery_attempts ≤ suc cap
      → Gives (After x cap st) (stop x st code why d)
  stopped st code why d h = record {
    at = λ v. Holds-map _ _ _ ((stop-Gives x cap st code why d h).at v) (λ p w k. k.0);
  }

  stays : (st : RunState) → st.recovery_attempts ≤ cap → Gives (After x cap st) (return (going st))
  stays st h = Gives-going x cap st st (IsLater-refl st) h

  after_status-Gives :
      (st : RunState) (rule : RecoveryRule) (seen : UiSnapshot) (r : RunResult) (status : RunStatus)
      → st.recovery_attempts ≤ suc cap
      → (is_success status ≡ true → st.recovery_attempts ≤ cap)
      → Gives (After x cap st) (after_status x st rule seen r status)
  unfolding after_status
  after_status-Gives st rule seen r RunStatus.success h k = stays st (k refl)
  after_status-Gives st rule seen r RunStatus.business_outcome h k = search (stopped, h)
  after_status-Gives st rule seen r RunStatus.needs_human h k = search (stopped, h)
  after_status-Gives st rule seen r RunStatus.failed h k = search (stopped, h)

  after_remedy-Gives :
      (st remedy : RunState) (rule : RecoveryRule) (seen : UiSnapshot) (e : RunState × RunResult)
      → remedy.recovery_attempts ≡ st.recovery_attempts
      → Left remedy e
      → Gives (After x cap st) (after_remedy x st rule seen e)
  unfolding after_remedy
  after_remedy-Gives st remedy rule seen (t, r) q k =
      Gives-later x cap _
        (record {
          same_capability = refl;
          same_inputs = refl;
          same_parents = refl;
          more = omega (arith, q, k.0.more);
        })
        (after_status-Gives (record st { recovery_attempts = t.recovery_attempts }) rule seen r
          r.status (k.1) (k.2))

  module _ (patient : IsPatient x.around) where
    remedy_refusal-Gives :
        (st : RunState) (rule : RecoveryRule) (seen : UiSnapshot) (o : DispatchOutcome)
        → st.recovery_attempts ≤ cap
        → Gives (After x cap st) (remedy_refusal x st rule seen o)
    unfolding remedy_refusal
    remedy_refusal-Gives st rule seen o h =
        let bound : st.recovery_attempts ≤ suc cap = omega (arith, h) in
        search (Gives-either, stays, stopped, h, bound)

    pub looks-Gives : Gives (λ _ _. Unit {0}) (observe x)
    unfolding observe
    looks-Gives = record { at = λ v. Holds-value _ _ _ tt }

    perform_remedy-Gives :
        (st : RunState) (rule : RecoveryRule) (seen : UiSnapshot) (action : Action)
        → st.recovery_attempts ≤ cap
        → Gives (After x cap st) (perform_remedy x st rule seen action)
    unfolding perform_remedy
    perform_remedy-Gives st rule seen action h = record {
      at = λ v.
          Holds-continue (λ _ _. Unit {0}) _ _ _ (looks-Gives.at v)
            (λ looked w _.
              Holds-continue (λ _ _. Unit {0}) _ _ _ ((dispatch-Gives x patient _).at w)
                (λ o u _. (remedy_refusal-Gives st rule seen o h).at u));
    }

    -- A runner of a remedy's steps.
    abbrev pub Runs : (RunState → Step → ℕ → M W Progress) → Type 0
    Runs runner =
        (st : RunState) (step : Step) (index : ℕ)
        → is_remedy st ≡ true
        → st.recovery_attempts ≤ cap
        → Gives (After x cap st) (runner st step index)

    module _ (runner : RunState → Step → ℕ → M W Progress) where
      remedy_run-Gives :
          (st : RunState) (c : Capability)
          → Runs runner
          → is_remedy st ≡ true
          → st.recovery_attempts ≤ cap
          → Gives (λ e _. Left st e) (remedy_run x runner st c)
      unfolding remedy_run
      remedy_run-Gives st c runs q h =
          Gives-bind _ _ _ _
            (run_steps-Gives (λ t. is_remedy t ≡ true) runner (λ s t p e. is_remedy-later p ∙ e)
              runs st 0 c.steps q h)
            (λ p v k. Holds-map _ _ _ (finish-Holds st p v k) (λ e w l. l.1))

      run_prepared-Gives :
          (st : RunState) (rule : RecoveryRule) (seen : UiSnapshot) (c : Capability)
          (inputs : Inputs)
          → Runs runner
          → st.recovery_attempts ≤ cap
          → Gives (After x cap st) (run_prepared x runner st rule seen c inputs)
      unfolding run_prepared note read_clock remedial is_remedy
      run_prepared-Gives st rule seen c inputs runs h = record {
        at = λ v.
            Holds-continue _ _ _ _
              (Holds-with_keys (Left (remedial x st c inputs _)) _ _
                ((remedy_run-Gives (remedial x st c inputs _) c runs refl h).at _))
              (λ e w k. (after_remedy-Gives st (remedial x st c inputs _) rule seen e refl k).at w);
      }

      through_gate-Gives :
          (st : RunState) (rule : RecoveryRule) (seen : UiSnapshot) (c : Capability)
          (inputs : Inputs) (g : Option GrantRefusal)
          → Runs runner
          → st.recovery_attempts ≤ cap
          → Gives (After x cap st) (through_gate x runner st rule seen c inputs g)
      unfolding through_gate
      through_gate-Gives st rule seen c inputs (some g) runs h =
          let bound : st.recovery_attempts ≤ suc cap = omega (arith, h) in search (stopped, bound)
      through_gate-Gives st rule seen c inputs none runs h =
          run_prepared-Gives st rule seen c inputs runs h

      if_prepared-Gives :
          (st : RunState) (rule : RecoveryRule) (seen : UiSnapshot)
          (r : Result CannotRun (Capability × Inputs))
          → ((p : Capability × Inputs) → r ≡ ok p → Runs runner)
          → st.recovery_attempts ≤ cap
          → Gives (After x cap st) (if_prepared x runner st rule seen r)
      unfolding if_prepared
      if_prepared-Gives st rule seen (err why) runs h =
          let bound : st.recovery_attempts ≤ suc cap = omega (arith, h) in search (stopped, bound)
      if_prepared-Gives st rule seen (ok (c, inputs)) runs h =
          through_gate-Gives st rule seen c inputs _ (runs (c, inputs) refl) h

      -- A remedy does not run a capability.
      prepare-plain :
          (st : RunState) (id : String) (arguments : List (String × ValueExpr))
          (p : Capability × Inputs)
          → prepare x st id arguments ≡ ok p
          → is_remedy st ≡ false
      unfolding prepare is_remedy
      prepare-plain st id arguments p e = elim (Bool-cases (is_remedy st)) [
        | inl q ↦ absurd (ground (arith, q, e))
        | inr q ↦ q
      ]

      apply_remedy-Gives :
          (st : RunState) (rule : RecoveryRule) (seen : UiSnapshot) (remedy : Remedy)
          → (is_remedy st ≡ false → Runs runner)
          → st.recovery_attempts ≤ cap
          → Gives (After x cap st) (apply_remedy x runner st rule seen remedy)
      unfolding apply_remedy
      apply_remedy-Gives st rule seen (perform action) runs h =
          perform_remedy-Gives st rule seen action h
      apply_remedy-Gives st rule seen (run_capability id arguments) runs h =
          if_prepared-Gives st rule seen _ (λ p e. runs (prepare-plain st id arguments p e)) h

      apply_all-Gives :
          (st : RunState) (rule : RecoveryRule) (seen : UiSnapshot) (remedies : List Remedy)
          → (is_remedy st ≡ false → Runs runner)
          → st.recovery_attempts ≤ cap
          → Gives (After x cap st) (apply_all x runner st rule seen remedies)
      unfolding apply_all
      apply_all-Gives st rule seen [] runs h = stays st h
      apply_all-Gives st rule seen (remedy ∷ rest) runs h =
          Gives-next x cap st _ _ (apply_remedy-Gives st rule seen remedy runs h)
            (λ t p k. apply_all-Gives t rule seen rest (λ e. runs (sym (is_remedy-later p) ∙ e)) k)

      -- A state with one more attempt.
      abbrev pub bumped : RunState → RunState
      bumped st = record st { recovery_attempts = st.recovery_attempts + 1 }

      -- A recovery goes on only where one more is allowed.
      abbrev pub Recovered : RunState → Progress → Live W → Type 0
      Recovered st p v =
          After x cap (bumped st) p v
          × (goes_on p ≡ true → st.recovery_attempts + 1 ≤ x.max_recovery_attempts_total)

      spent-Gives :
          (st : RunState) (code : FailureCode) (why : Why) (d : Details)
          → st.recovery_attempts ≤ cap
          → Gives (Recovered st) (stop x (bumped st) code why d)
      spent-Gives st code why d h = record {
        at = λ v.
            Holds-map _ _ _ ((stop-Gives x cap (bumped st) code why d (omega (arith, h))).at v)
              (λ p w k. (k.0, λ e. absurd (ground (arith, k.1, e))));
      }

      pub recover-Gives :
          x.max_recovery_attempts_total ≤ cap
          → (st : RunState) (rule : RecoveryRule) (attempts : ℕ) (seen : UiSnapshot)
          → (is_remedy st ≡ false → Runs runner)
          → st.recovery_attempts ≤ cap
          → Gives (Recovered st) (recover x runner st rule attempts seen)
      unfolding recover recover_counted note is_remedy
      recover-Gives room st rule attempts seen runs h =
          Gives-if _ (ltb x.max_recovery_attempts_total (st.recovery_attempts + 1)) _ _
            (λ _. spent-Gives st _ _ _ h)
            (λ e.
              Gives-either _ (ltb rule.max_attempts attempts) _ _ (spent-Gives st _ _ _ h) (record {
                at = λ v.
                    Holds-map _ _ _
                      ((apply_all-Gives (bumped st) rule seen rule.remedy (λ q. runs q)
                          (omega (
                            arith,
                            room,
                            not_over x.max_recovery_attempts_total (st.recovery_attempts + 1) e,
                          ))).at
                        _)
                      (λ p w k. (
                        k,
                        λ _. not_over x.max_recovery_attempts_total (st.recovery_attempts + 1) e,
                      ));
              }))
