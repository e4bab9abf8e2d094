-- ===== src/Replay/Executor/Resume.antt =====
-- src/cua/replay/executor.py: a run that an operator interrupted, resumed on the session that was handed
-- back. How a plan's reason reads is an argument.
use computer_use_automation.Base.{ℕ, String, Option, none, some, [], Result, ok, err}
use computer_use_automation.Domain.Predicates.{Inputs}
use computer_use_automation.Domain.Capability.{Capability}
use computer_use_automation.Domain.Result.{input_validation_failed, unexpected_state}
use computer_use_automation.Evidence.Json.{Json, str, num, null, arr, field, end}
use computer_use_automation.Evidence.Bus as Bus
use computer_use_automation.Hitl.Lease.{Lease}
use computer_use_automation.Hitl.Reanchor.{Reconciliation, ResumeReason, reconcile}
use computer_use_automation.Replay.Inputs.{InputError, Supplied, validate_inputs}
use computer_use_automation.Replay.Result.{invalid_inputs, nowhere_to_resume, RunResult}
use computer_use_automation.Replay.Executor.State.{
  ReplayExecutor, RunState, M, ◌>>=◌, ◌>>◌, return, value, lease_of, observe, note, read_clock,
  draw_id,
}
use computer_use_automation.Replay.Executor.Ending.{texts_of}
use computer_use_automation.Replay.Executor.Flow.{execute, refuse, new_state}

abbrev pub readopted : Option ℕ → Option Lease → Option ℕ
readopted old none = old
readopted old (some l) = some l.epoch

abbrev pub index_json : Option ℕ → Json
index_json none = null
index_json (some n) = num n

module _ {W : Type 0} (x : ReplayExecutor W) (explain : ResumeReason → String) where
  unfoldable pub readopt_epoch : M W (Unit {0})
  readopt_epoch v = (value tt, record v { lease_epoch = readopted v.lease_epoch (lease_of v.site) })

  -- `run_id or new_id(...)`
  abbrev pub id_or_new : Option String → M W String
  id_or_new none = draw_id x
  id_or_new (some id) = return id

  unfoldable pub from_plan :
      RunState → Supplied → Inputs → ℕ → Reconciliation → Option ℕ → M W RunResult
  unfolding refuse execute
  from_plan st supplied outputs attempts plan none =
      refuse x st unexpected_state (nowhere_to_resume (explain plan.reason))
  from_plan st supplied outputs attempts plan (some n) =
      execute x st.capability supplied n outputs attempts st.run_id

  unfoldable pub on_inputs :
      RunState → Supplied → Inputs → ℕ → ℕ → Result InputError Inputs → M W RunResult
  unfolding from_plan refuse
  on_inputs st supplied outputs attempts from_index (err e) =
      refuse x st input_validation_failed (invalid_inputs e)
  on_inputs st supplied outputs attempts from_index (ok inputs) = do
    seen ← observe x
    let plan = reconcile x.text_host st.capability seen inputs from_index
    note x Bus.note 0 (
        field "note" (str "re-anchor after handoff") (
          field "resume_index" (index_json plan.resume_index) (
            field "skipped" (arr (texts_of plan.skipped))
              (field "reason" (str (explain plan.reason)) end))))
    from_plan st supplied outputs attempts plan plan.resume_index

  -- `resume`, from the index at which the run stopped, with what it had read and spent.
  unfoldable pub resume : Capability → Supplied → ℕ → Inputs → ℕ → Option String → M W RunResult
  unfolding on_inputs
  resume c supplied from_index outputs attempts run_id = do
    readopt_epoch
    id ← id_or_new run_id
    now ← read_clock x
    on_inputs (new_state x c id now [] 0) supplied outputs attempts from_index
        (validate_inputs x.input_host c.inputs supplied)
