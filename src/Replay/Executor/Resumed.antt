-- ===== src/Replay/Executor/Resumed.antt =====
-- src/cua/replay/executor.py: what the surface sees of a resumed run.
use computer_use_automation.Base.{ℕ, String, refl, Option, none, some, Result, ok, err}
use computer_use_automation.Domain.Predicates.{Inputs}
use computer_use_automation.Domain.Capability.{Capability}
use computer_use_automation.Evidence.Bus as Bus
use computer_use_automation.Hitl.Reanchor.{Reconciliation, ResumeReason, reconcile}
use computer_use_automation.Replay.Inputs.{InputError, Supplied}
use computer_use_automation.Replay.Executor.State.{ReplayExecutor, RunState, Live}
use computer_use_automation.Replay.Executor.Resume.{from_plan, on_inputs, id_or_new, resume}
use computer_use_automation.Replay.Executor.Moves.{Walks, Walks-bind, Walks-return}
use computer_use_automation.Replay.Executor.Walked.Parts.{
  observe-Walks, note-Walks, read_clock-Walks, draw_id-Walks,
}
use computer_use_automation.Replay.Executor.Walked.{refuse-Walks, execute-Walks}
use computer_use_automation.Replay.Executor.Surface.{Trail, aside, Moves-Trail}
use computer_use_automation.Replay.Executor.Resume.{readopt_epoch}

module _ {W : Type 0} (x : ReplayExecutor W) (explain : ResumeReason → String) where
  id_or_new-Walks : (run_id : Option String) → Walks x (id_or_new x explain run_id)
  id_or_new-Walks none = draw_id-Walks x
  id_or_new-Walks (some id) = Walks-return x id

  from_plan-Walks :
      (st : RunState) (supplied : Supplied) (outputs : Inputs) (attempts : ℕ)
      (plan : Reconciliation) (n : Option ℕ)
      → Walks x (from_plan x explain st supplied outputs attempts plan n)
  unfolding from_plan
  from_plan-Walks st supplied outputs attempts plan none = refuse-Walks x st _ _
  from_plan-Walks st supplied outputs attempts plan (some n) =
      execute-Walks x st.capability supplied n outputs attempts st.run_id

  on_inputs-Walks :
      (st : RunState) (supplied : Supplied) (outputs : Inputs) (attempts from_index : ℕ)
      (r : Result InputError Inputs)
      → Walks x (on_inputs x explain st supplied outputs attempts from_index r)
  unfolding on_inputs
  on_inputs-Walks st supplied outputs attempts from_index (err e) = refuse-Walks x st _ _
  on_inputs-Walks st supplied outputs attempts from_index (ok inputs) =
      Walks-bind x _ _ (observe-Walks x) (λ seen.
        Walks-bind x _ _ (note-Walks x Bus.note 0 _ refl) (λ _.
          from_plan-Walks st supplied outputs attempts
            (reconcile x.text_host st.capability seen inputs from_index) _))

  pub resume-Trail :
      (c : Capability) (supplied : Supplied) (from_index : ℕ) (outputs : Inputs) (attempts : ℕ)
      (run_id : Option String) (u v : Live W)
      → Trail x u v
      → Trail x u (resume x explain c supplied from_index outputs attempts run_id v).1
  unfolding resume readopt_epoch
  resume-Trail c supplied from_index outputs attempts run_id u v t =
      Moves-Trail x u
        ((Walks-bind x _ _ (id_or_new-Walks run_id) (λ id.
            Walks-bind x _ _ (read_clock-Walks x)
              (λ now. on_inputs-Walks _ supplied outputs attempts from_index _))).at
          _)
        (aside t refl refl)
