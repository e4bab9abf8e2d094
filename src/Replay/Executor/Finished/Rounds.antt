-- ===== src/Replay/Executor/Finished/Rounds.antt =====
-- src/cua/replay/executor.py: the rounds of a step are enough.
use computer_use_automation.Base.{
  ℕ, zero, suc, ◌+◌, ◌≤◌, ◌<◌, ◌≡◌, refl, sym, ◌∙◌, arith, false, Option, none, some,
}
use computer_use_automation.Domain.Snapshot.{UiSnapshot}
use computer_use_automation.Domain.Capability.{Step}
use computer_use_automation.Replay.Classify.{Classification, classify}
use computer_use_automation.Replay.Limits.{Overrun}
use computer_use_automation.Replay.Executor.State.{
  ReplayExecutor, Live, RunState, M, observe, note, read_clock, out_of_rounds,
}
use computer_use_automation.Replay.Executor.Ending.{is_remedy}
use computer_use_automation.Replay.Executor.Stepping.{Progress, going, ended}
use computer_use_automation.Replay.Executor.Recovery.{next_step}
use computer_use_automation.Replay.Executor.Flow.{
  Reaction, reaction_of, answers, recovers, stops, acts, StepAgain, react, on_screen, if_in_time,
  rounds_of_step, step_at, run_step,
}
use computer_use_automation.Replay.Executor.Finished.{
  Holds, Gives, Holds-value, Holds-map, Gives-bind, After, After-later, Gives-later, IsLater,
  IsLater-refl, IsLater-same, IsPatient,
}
use computer_use_automation.Replay.Executor.Finished.Ends.{answer-Gives}
use computer_use_automation.Replay.Executor.Finished.Steps.{dispatch_step-Gives}
use computer_use_automation.Replay.Executor.Finished.Remedies.{
  stopped, Runs, Recovered, recover-Gives, is_remedy-later,
}

module _ {W : Type 0} (x : ReplayExecutor W) (cap : ℕ) (patient : IsPatient x.around)
    (room : x.max_recovery_attempts_total ≤ cap) where
  module _ (runner : RunState → Step → ℕ → M W Progress) where
    -- Another round may be had, after a recovery that is allowed.
    abbrev pub More : StepAgain x runner → ℕ → RunState → Type 0
    More again attempts st =
        (t : RunState)
        → IsLater (record st { recovery_attempts = st.recovery_attempts + 1 }) t
        → st.recovery_attempts + 1 ≤ x.max_recovery_attempts_total
        → t.recovery_attempts ≤ cap
        → Gives (After x cap t) (again t (suc attempts))

    react-Gives :
        (again : StepAgain x runner) (st : RunState) (step : Step) (index attempts : ℕ)
        (seen : UiSnapshot) (verdict : Classification) (r : Reaction)
        → More again attempts st
        → (is_remedy st ≡ false → Runs x cap patient runner)
        → st.recovery_attempts ≤ cap
        → Gives (After x cap st) (react x runner again st step index attempts seen verdict r)
    unfolding react
    react-Gives again st step index attempts seen verdict (answers o) more runs h =
        Gives-bind _ _ _ _ (answer-Gives x cap st o)
          (λ r v k. Holds-value _ _ v (k.0, k.1, IsLater-refl st, omega (arith, h)))
    react-Gives again st step index attempts seen verdict (recovers rule) more runs h =
        Gives-bind _ _ _ _
          (recover-Gives x cap patient runner room st rule (suc attempts) seen runs h) at_progress
      where
        later : IsLater st (record st { recovery_attempts = st.recovery_attempts + 1 })
        later = record {
          same_capability = refl;
          same_inputs = refl;
          same_parents = refl;
          more = omega arith;
        }

        at_progress :
            (p : Progress) (v : Live W)
            → Recovered x cap patient runner st p v
            → Holds (After x cap st) (next_step p (λ t. again t (suc attempts)) v)
        at_progress (going t) v k =
            Holds-map _ _ _ ((more t (k.0.0) (k.1 refl) (k.0.1)).at v)
              (λ p w a. After-later x cap p w later (After-later x cap p w (k.0.0) a))
        at_progress (ended t r) v k =
            Holds-value _ _ v (After-later x cap (ended t r) v later (k.0))
    react-Gives again st step index attempts seen verdict stops more runs h =
        let bound : st.recovery_attempts ≤ suc cap = omega (arith, h) in
        search (stopped x cap, bound)
    react-Gives again st step index attempts seen verdict acts more runs h =
        dispatch_step-Gives x patient cap st step index seen h

    on_screen-Gives :
        (again : StepAgain x runner) (st : RunState) (step : Step) (index attempts : ℕ)
        (seen : UiSnapshot)
        → More again attempts st
        → (is_remedy st ≡ false → Runs x cap patient runner)
        → st.recovery_attempts ≤ cap
        → Gives (After x cap st) (on_screen x runner again st step index attempts seen)
    unfolding on_screen note
    on_screen-Gives again st step index attempts seen more runs h =
        let verdict : Classification =
          classify x.text_host seen st.inputs st.capability (some step) false in
        record {
          at = λ v.
              (react-Gives again st step index attempts seen verdict
                  (reaction_of verdict.outcome verdict.recovery verdict.observation) more runs h).at
                _;
        }

    if_in_time-Gives :
        (again : StepAgain x runner) (st : RunState) (step : Step) (index attempts : ℕ)
        (o : Option Overrun)
        → More again attempts st
        → (is_remedy st ≡ false → Runs x cap patient runner)
        → st.recovery_attempts ≤ cap
        → Gives (After x cap st) (if_in_time x runner again st step index attempts o)
    unfolding if_in_time observe
    if_in_time-Gives again st step index attempts (some o) more runs h =
        let bound : st.recovery_attempts ≤ suc cap = omega (arith, h) in
        search (stopped x cap, bound)
    if_in_time-Gives again st step index attempts none more runs h = record {
      at = λ v. (on_screen-Gives again st step index attempts _ more runs h).at _;
    }

    -- One round for each recovery that is left, and one more.
    rounds_of_step-Gives :
        (rounds : ℕ) (step : Step) (index : ℕ) (st : RunState) (attempts : ℕ)
        → x.max_recovery_attempts_total < st.recovery_attempts + suc rounds
        → (is_remedy st ≡ false → Runs x cap patient runner)
        → st.recovery_attempts ≤ cap
        → Gives (After x cap st) (rounds_of_step x runner (suc rounds) step index st attempts)
    unfolding rounds_of_step read_clock is_remedy
    rounds_of_step-Gives zero step index st attempts q runs h = record {
      at = λ v.
          (if_in_time-Gives (λ _ _. out_of_rounds) st step index attempts _
              (λ t p within k. absurd (omega (arith, q, within))) runs h).at
            _;
    }
    rounds_of_step-Gives (suc rounds) step index st attempts q runs h = record {
      at = λ v.
          (if_in_time-Gives (rounds_of_step x runner (suc rounds) step index) st step index attempts
              _
              (λ t p within k.
                rounds_of_step-Gives rounds step index t (suc attempts) (omega (arith, q, p.more))
                  (λ e. runs (sym (is_remedy-later p) ∙ e)) k)
              runs h).at
            _;
    }

  -- A step ends, if the runs that serve it do.
  step_at-Gives :
      (depth : ℕ) (st : RunState) (step : Step) (index : ℕ)
      → (is_remedy st ≡ false → Runs x cap patient (step_at x depth))
      → st.recovery_attempts ≤ cap
      → Gives (After x cap st) (step_at x (suc depth) st step index)
  unfolding step_at is_remedy
  step_at-Gives depth st step index runs h =
      Gives-later x cap _ (IsLater-same st _ refl refl refl refl) (
        rounds_of_step-Gives (step_at x depth) x.max_recovery_attempts_total step index
          (record st { step_index = some index }) 0 (omega arith) runs h)

  remedy_step-Gives : Runs x cap patient (step_at x 1)
  remedy_step-Gives st step index q h =
      step_at-Gives 0 st step index (λ e. absurd (ground (arith, q, e))) h

  pub run_step-Gives :
      (st : RunState) (step : Step) (index : ℕ)
      → st.recovery_attempts ≤ cap
      → Gives (After x cap st) (run_step x st step index)
  unfolding run_step
  run_step-Gives st step index h = step_at-Gives 1 st step index (λ _. remedy_step-Gives) h
