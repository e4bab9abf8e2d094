-- ===== src/Tests/Hitl.antt =====
-- src/cua/hitl/ on small runs.
use computer_use_automation.Base.{
  ℕ, ◌+◌, String, ◌≡◌, refl, true, false, none, some, List, [], ◌∷◌, ok, lookup, drop, arith,
}
use computer_use_automation.Domain.Actor.{automation, system}
use computer_use_automation.Hitl.Lease as Lease
use computer_use_automation.Hitl.Lease.{
  Lease, Duration, plus, paused, running, human_control, Request, ask_escalate, ask_claim,
  ask_release, ask_resume, ask_reclaim, serve_all, held_by, assert_held, transition, serve,
  add_time,
}
use computer_use_automation.Hitl.Lease.Invariant.{IsValid, serve_all-new-IsValid}
use computer_use_automation.Hitl.Lease.Stale.{held_by_stale}
use computer_use_automation.Hitl.Intervention.{
  InterventionQueue, InterventionRequest, open_state, claimed,
}
use computer_use_automation.Domain.Predicates.{evaluate, text_content}
use computer_use_automation.Domain.Text.{occurs_in, normalize}
use computer_use_automation.Domain.Snapshot.{UiSnapshot}
use computer_use_automation.Hitl.Reanchor.{changed, diff_snapshots, reconcile}
use computer_use_automation.Hitl.Reanchor.Resume.{Skips, reconcile-Skips}
use computer_use_automation.Hitl.Broker.{escalate, claim}
use computer_use_automation.Hitl.Handoff.{new_broker}
use computer_use_automation.Hitl.Broker.Sound.{IsSound}
use computer_use_automation.Hitl.Broker.Sound.Reached.{
  Call, call_escalate, after_call, Reached, at_start, by_call, Reached-IsSound,
  Reached-paused-claim,
}
use computer_use_automation.Tests.Data.{
  text_host, screen, save_button, save_form, setup, session, texts, stuck, fresh,
}

abbrev round_trip : List Request
round_trip = ask_escalate "stuck" ∷ ask_claim 10 "ann" (plus 60) ∷ ask_release ∷ ask_resume ∷ []

serve_all-new-IsValid_example : IsValid (serve_all (Lease.new "s") round_trip)
serve_all-new-IsValid_example = serve_all-new-IsValid "s" round_trip

-- After the round trip automation holds the session again, at the fifth epoch.
round_trip_held : held_by (serve_all (Lease.new "s") round_trip) 100 automation 5 ≡ true
unfolding held_by serve_all serve Lease.new
round_trip_held = refl

abbrev escalated_lease : Lease
escalated_lease = record {
  session_id = "s";
  holder = system;
  state = paused;
  epoch = 2;
  operator = none;
  expires_at = none;
  history = record { at_epoch = 2; entered = paused; note = Lease.escalated "stuck" } ∷ [];
}

held_by_stale_example :
    held_by (serve_all escalated_lease (ask_claim 10 "ann" (plus 60) ∷ [])) 20 automation 1 ≡ false
unfolding serve Lease.new
held_by_stale_example =
    held_by_stale (Lease.new "s") (ask_escalate "stuck") {l' = escalated_lease} {n = 2} refl
      (ask_claim 10 "ann" (plus 60) ∷ []) 20 automation 1 (omega arith)

abbrev request : String → ℕ → InterventionRequest
request id at = record {
  intervention_id = id;
  session_id = "s";
  run_id = "r";
  capability_ref = "save_form@1";
  goal = "save";
  reason = "stuck";
  step_id = none;
  failure_code = none;
  snapshot_ref = none;
  screenshot_ref = none;
  evidence_ref = none;
  state = open_state;
  operator = none;
  created_at = at;
  claimed_at = none;
  released_at = none;
  human_actions = 0;
  human_delta = "";
  resolution_note = "";
}

abbrev two_requests : InterventionQueue
two_requests = ("b", request "b" 7) ∷ ("a", request "a" 3) ∷ []

abbrev claimed_requests : InterventionQueue
claimed_requests =
    ("b", request "b" 7)
    ∷ ("a", record (request "a" 3) { state = claimed; operator = some "ann"; claimed_at = some 9 })
    ∷ []

-- The first step's effect is on the screen, the second's is not.
reconcile-Skips_example :
    (k : ℕ) × (1 ≡ 0 + k)
    × Skips text_host screen []
        (drop 0 save_form.steps)
        (reconcile text_host save_form screen [] 0).skipped
        k
unfolding reconcile evaluate occurs_in normalize text_content
reconcile-Skips_example = reconcile-Skips text_host screen [] save_form 0 {i = 1} (omega arith) refl

abbrev first_calls : List Call
first_calls = call_escalate 5 "i1" stuck ∷ []

Reached-paused : Reached setup texts (after_call setup texts fresh (call_escalate 5 "i1" stuck))
Reached-paused = by_call (call_escalate 5 "i1" stuck) (at_start "s" session)

Reached-IsSound_example : IsSound (after_call setup texts fresh (call_escalate 5 "i1" stuck))
Reached-IsSound_example =
    Reached-IsSound setup texts (by_call (call_escalate 5 "i1" stuck) (at_start "s" session))

Reached-paused-claim_example :
    (id : String) × ((now : ℕ) (who : String) (hold_for : Duration) (at : ℕ)
      → add_time now hold_for ≡ some at
      → (claim setup texts
          (after_call setup texts fresh (call_escalate 5 "i1" stuck))
          now
          id
          who
          hold_for).0
        ≡ ok ((after_call setup texts fresh (call_escalate 5 "i1" stuck)).lease.epoch + 1))
unfolding after_call escalate Lease.escalate new_broker Lease.new
Reached-paused-claim_example =
    Reached-paused-claim setup texts (by_call (call_escalate 5 "i1" stuck) (at_start "s" session))
      refl

-- The button gets its first value.
abbrev filled_screen : UiSnapshot
filled_screen = record screen { nodes = record save_button { value = some "pressed" } ∷ [] }

first_value_unreported : changed (diff_snapshots screen filled_screen) ≡ false
unfolding changed diff_snapshots lookup
first_value_unreported = refl
