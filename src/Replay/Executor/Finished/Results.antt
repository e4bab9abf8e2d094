-- ===== src/Replay/Executor/Finished/Results.antt =====
-- src/cua/replay/executor.py: what a caller can rely on when `run` or `resume` returns.
use computer_use_automation.Base.{
  ℕ, suc, ◌≤◌, ◌≡◌, ◌⊎◌, inl, inr, arith, String, Bool-cases, true, false, Option, ok,
}
use computer_use_automation.Domain.Predicates.{Inputs}
use computer_use_automation.Domain.Capability.{Capability}
use computer_use_automation.Hitl.Reanchor.{ResumeReason}
use computer_use_automation.Replay.Inputs.{Supplied, validate_inputs}
use computer_use_automation.Replay.Result.{shape_matches_status}
use computer_use_automation.Replay.Executor.State.{
  ReplayExecutor, Live, Exit, value, raised, unfinished,
}
use computer_use_automation.Replay.Executor.Flow.{run}
use computer_use_automation.Replay.Executor.Resume.{resume}
use computer_use_automation.Replay.Executor.Finished.{
  Holds, Holds-map, is_success, for_human, Handed, Shows, IsPatient,
}
use computer_use_automation.Replay.Executor.Finished.Whole.{IsEnding, run-Gives, resume-Gives}

Holds-finished :
    {W A : Type 0} (P : A → Live W → Type 0) (r : Exit A × Live W)
    → Holds P r
    → ¬ (r.0 ≡ unfinished)
unfolding Holds
Holds-finished P (value a, v) h e = absurd (ground (arith, e))
Holds-finished P (raised, v) h e = absurd (ground (arith, e))
Holds-finished P (unfinished, v) h e = h

module _ {W : Type 0} (x : ReplayExecutor W) (patient : IsPatient x.around) (c : Capability)
    (supplied : Supplied) (v : Live W) where
  ending :
      Holds
        (IsEnding x x.max_recovery_attempts_total patient (omega arith) c supplied 0)
        (run x c supplied v)
  ending = (run-Gives x x.max_recovery_attempts_total patient (omega arith) c supplied).at v

  -- Where each wait's last poll is past its deadline, a run ends, whatever the surface does: the rounds
  -- of its steps and the levels of its remedies are enough.
  pub run_returns : ¬ ((run x c supplied v).0 ≡ unfinished)
  run_returns = Holds-finished _ _ ending

  -- A run comes back with a result that the validator of results accepts, unless an exception leaves
  -- it: a declared outcome, an error or a request for a person where the status promises one, and no
  -- error in a success.
  pub run-shape_matches_status : Holds (λ r _. shape_matches_status r ≡ true) (run x c supplied v)
  run-shape_matches_status = Holds-map _ _ _ ending (λ r w k. k.settled.shaped)

  -- A run that ends for a person explains a failure that its capability's escalation policy lists and
  -- hands to a person, and leaves the session paused, if a broker supervises it.
  pub run-Handed : Holds (λ r w. (for_human r.status ≡ false) ⊎ Handed c r w) (run x c supplied v)
  run-Handed = Holds-map _ _ _ ending (λ r w k. elim (Bool-cases (for_human r.status)) [
    | inl e ↦ inr (k.settled.handed e)
    | inr e ↦ inl e
  ])

  -- A run that reports a success was given arguments that bind, and ends on a surface whose screen
  -- satisfies the capability's checkpoint on them.
  pub run-Shows :
      Holds
        (λ r w.
          (is_success r.status ≡ false)
          ⊎ ((inputs : Inputs) × (validate_inputs x.input_host c.inputs supplied ≡ ok inputs)
              × Shows x x.max_recovery_attempts_total c inputs w))
        (run x c supplied v)
  run-Shows = Holds-map _ _ _ ending (λ r w k. elim (Bool-cases (is_success r.status)) [
    | inl e ↦ inr (k.inputs, k.bound e, k.settled.verified e)
    | inr e ↦ inl e
  ])

  -- Being resumed does not refresh the budget of recoveries: if the attempts spent before and the budget
  -- are within a cap, a resumed run that succeeds reports no fewer attempts than those spent before, and
  -- one that ends in any way reports at most one more than the cap.
  pub resume-recovery_attempts :
      (explain : ResumeReason → String) (from_index : ℕ) (outputs : Inputs) (attempts cap : ℕ)
      (run_id : Option String)
      → attempts ≤ cap
      → x.max_recovery_attempts_total ≤ cap
      → Holds
          (λ r _.
            (is_success r.status ≡ true → attempts ≤ r.recovery_attempts)
            × (r.recovery_attempts ≤ suc cap))
          (resume x explain c supplied from_index outputs attempts run_id v)
  resume-recovery_attempts explain from_index outputs attempts cap run_id h room =
      Holds-map _ _ _
        ((resume-Gives x cap patient room explain c supplied from_index outputs attempts run_id
            h).at
          v)
        (λ r w k. (k.counted, k.settled.bounded))
