-- ===== src/Tests/Executor.antt =====
-- src/cua/replay/executor.py on a form that says so when it has been saved.
use computer_use_automation.Base.{
  ℕ, ◌+◌, ◌*◌, ◌≡◌, ◌≤◌, ◌⊎◌, refl, arith, true, false, none, some, [], ◌∷◌, ltb, if◌then◌else◌, ok,
}
use computer_use_automation.Domain.Snapshot.{UiSnapshot}
use computer_use_automation.Domain.Predicates.{Inputs}
use computer_use_automation.Evidence.Json.{null}
use computer_use_automation.Hitl.Handoff.{new_broker}
use computer_use_automation.Runtime.Command.{Setup}
use computer_use_automation.Replay.Executor.State.{
  ReplayExecutor, Live, alone, supervised, world_of, evidence_of, unfinished,
}
use computer_use_automation.Replay.Executor.Flow.{run}
use computer_use_automation.Replay.Executor.Surface.{Trail, run-Trail}
use computer_use_automation.Replay.Executor.Evidenced.{run-IsReconciled}
use computer_use_automation.Replay.Executor.Overtaken.{Drift, run_overtaken}
use computer_use_automation.Replay.Inputs.{validate_inputs}
use computer_use_automation.Replay.Result.{shape_matches_status}
use computer_use_automation.Replay.Executor.Resume.{resume}
use computer_use_automation.Replay.Executor.Finished.{
  Holds, Handed, Shows, IsPatient, is_success, for_human,
}
use computer_use_automation.Replay.Executor.Finished.Results.{
  run_returns, run-shape_matches_status, run-Handed, run-Shows, resume-recovery_attempts,
}
use computer_use_automation.Evidence.Bus.{unauthorized_dispatches}
use computer_use_automation.Evidence.Bus.Reconcile.{IsReconciled}
use computer_use_automation.Hitl.Lease as Lease
use computer_use_automation.Tests.Data.{
  text_host, screen, save_button, save_form, setup, session, policy, texts,
}
use computer_use_automation.Tests.Policy.{secret_host}

abbrev saved : UiSnapshot
saved = record screen { nodes = record save_button { name = some "saved ok" } ∷ [] }

-- Three actions save the form.
abbrev pub form_setup : Setup ℕ
form_setup = record setup {
  driver = record setup.driver { observe = λ w. if ltb w 3 then screen else saved };
}

abbrev pub executor : ReplayExecutor ℕ
executor = record {
  dispatcher = form_setup;
  text_host = text_host;
  input_host = record { fullmatch = λ p t. true; show_reference = λ v. "" };
  secret_host = secret_host;
  char_host = record {
    is_space = λ c. ltb c 33;
    is_digit = λ c. ltb 47 c;
    digit_value = λ c. c;
    decimal = λ n. n ∷ [];
    from_codes = λ t. "";
  };
  capture = none;
  approval = none;
  allow_irreversible = false;
  applied_binding = none;
  capabilities = none;
  session_id = "s";
  replay_gates = policy.replay_gates;
  ceilings = record { max_steps = none; max_duration_ms = none; configured = policy.budgets };
  max_recovery_attempts_total = 2;
  broker_texts = texts;
  texts = record {
    message = λ w. "";
    describe = λ p. "";
    drift = λ d. null;
    supplied = λ a. null;
    sorted = λ names. names;
    run_dir = "runs/r";
  };
  around = record {
    monotonic = λ n. n;
    utc_now = λ n. n;
    new_id = λ n. "id";
    settle = λ n w. w;
    polls_for = λ n timeout. timeout * 1000 + 1;
  };
}

abbrev pub live : Live ℕ
live = record { site = alone session; secrets = none; lease_epoch = none; readings = 0 }

abbrev pub under_broker : Live ℕ
under_broker = record live { site = supervised (new_broker "s" session) }

abbrev pub overtaken : Live ℕ
overtaken = record under_broker { lease_epoch = some 0 }

run-Trail_example : Trail executor under_broker (run executor save_form [] under_broker).1
run-Trail_example = run-Trail executor save_form [] under_broker

run-IsReconciled_example : IsReconciled (evidence_of (run executor save_form [] live).1).trace
unfolding unauthorized_dispatches
run-IsReconciled_example = run-IsReconciled executor save_form [] live refl

run_overtaken_example : Drift executor 0 (world_of (run executor save_form [] overtaken).1)
unfolding new_broker Lease.new
run_overtaken_example =
    run_overtaken executor save_form [] overtaken 0 (Lease.new "s") refl refl (omega arith)

patient : IsPatient executor.around
patient = record { polls = λ n timeout. omega arith; passes = λ n timeout. omega arith }

run_returns_example : ¬ ((run executor save_form [] live).0 ≡ unfinished)
run_returns_example = run_returns executor patient save_form [] live

run-shape_matches_status_example :
    Holds (λ r _. shape_matches_status r ≡ true) (run executor save_form [] live)
run-shape_matches_status_example = run-shape_matches_status executor patient save_form [] live

run-Handed_example :
    Holds
      (λ r w. (for_human r.status ≡ false) ⊎ Handed save_form r w)
      (run executor save_form [] under_broker)
run-Handed_example = run-Handed executor patient save_form [] under_broker

run-Shows_example :
    Holds
      (λ r w.
        (is_success r.status ≡ false)
        ⊎ ((inputs : Inputs) × (validate_inputs executor.input_host save_form.inputs [] ≡ ok inputs)
            × Shows executor 2 save_form inputs w))
      (run executor save_form [] live)
run-Shows_example = run-Shows executor patient save_form [] live

resume-recovery_attempts_example :
    Holds
      (λ r _. (is_success r.status ≡ true → 3 ≤ r.recovery_attempts) × (r.recovery_attempts ≤ 4))
      (resume executor (λ r. "") save_form [] 0 [] 3 (some "r") live)
resume-recovery_attempts_example =
    resume-recovery_attempts executor patient save_form [] live (λ r. "") 0 [] 3 3 (some "r")
      (omega arith) (omega arith)
