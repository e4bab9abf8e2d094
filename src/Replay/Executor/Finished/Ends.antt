-- ===== src/Replay/Executor/Finished/Ends.antt =====
-- src/cua/replay/executor.py: what the endings of a run give.
use computer_use_automation.Base.{
  ℕ, suc, ◌≤◌, ◌≡◌, inl, inr, refl, sym, ap, ◌∙◌, arith, String, true, false, Bool-cases, Option,
  none, some, Result, ok, err,
}
use mathlib.Core.Path.{subst}
use computer_use_automation.Domain.Capability.{Capability, Outcome}
use computer_use_automation.Domain.Capability.Summary.{asks_for_human}
use computer_use_automation.Domain.Result.{checkpoint_failed, code_among, FailureCode}
use computer_use_automation.Domain.Snapshot.{UiSnapshot}
use computer_use_automation.Domain.Predicates.{Inputs, evaluate}
use computer_use_automation.Evidence.Bus as Bus
use computer_use_automation.Evidence.Bus.{EventType, EvidenceBus}
use computer_use_automation.Evidence.Json.{Fields}
use computer_use_automation.Hitl.Lease as Lease
use computer_use_automation.Hitl.Lease.{Lease, LeaseError, paused}
use computer_use_automation.Hitl.Lease.Moves.{escalate_move}
use computer_use_automation.Hitl.Handoff.{Escalation}
use computer_use_automation.Hitl.Broker as Broker
use computer_use_automation.Runtime.Dispatcher as Dispatcher
use computer_use_automation.Replay.Classify.Verified.{classify-expected}
use computer_use_automation.Replay.Executor.Surface.{world_of-put_session}
use computer_use_automation.Runtime.Capture.{CaptureHost, CaptureRefs}
use computer_use_automation.Replay.Classify.{ObservationClass, Classification, classify}
use computer_use_automation.Replay.Result.{read_as, Why, RunResult, shape_matches_status}
use computer_use_automation.Replay.Executor.State.{
  put_evidence, settled, world_of, ReplayExecutor, Site, alone, supervised, Live, RunState,
  lease_of, note, observe, read_clock, draw_id,
}
use computer_use_automation.Replay.Executor.Ending.{
  no_details, Details, is_remedy, escalates, emit_end, capture_with, capture_failure, escalate_at,
  escalated_or_raise, call_operator, intervention_for, failure_result, detail_of, fail, ended_at,
  outcome_result, answer, success_result, succeed, checkpoint_verdict, verify_checkpoint,
  is_expected,
}
use computer_use_automation.Replay.Executor.Stepping.{stop}
use computer_use_automation.Replay.Executor.Walked.Parts.{lease_of-with_session}
use computer_use_automation.Replay.Executor.Finished.{
  Holds, Holds-value, Holds-raised, Gives, Holds-map, Shows, Settled, After, IsLater-refl, goes_on,
  Gives-return, Holds-continue, Gives-bind, Gives-if, Paused, is_success, After,
}

module _ {W : Type 0} (x : ReplayExecutor W) where
  capture_failure-Gives :
      (st : RunState) (code : FailureCode) (why : Why) (seen : Option UiSnapshot)
      → Gives (λ _ _. Unit {0}) (capture_failure x st code why seen)
  unfolding capture_failure
  capture_failure-Gives st code why seen =
      Gives-if _ (is_remedy st) _ _ (λ _. Gives-return _ _ (λ _. tt))
        (λ _. record { at = λ v. by_host x.capture seen v })
    where
      by_host :
          (host : Option (CaptureHost W)) (s : Option UiSnapshot) (v : Live W)
          → Holds (λ _ _. Unit {0}) (capture_with x host st code why s v)
      by_host none s v = Holds-value _ _ v tt
      by_host (some host) none v = Holds-value _ _ v tt
      by_host (some host) (some s) v = Holds-value _ _ _ tt

  escalate_at-Paused :
      (site : Site W) (e : Escalation) (own : String) (now : ℕ) (id : String) (v : Live W)
      → v.site ≡ site
      → Holds (λ _ w. Paused w) (escalate_at x site e own now id v)
  unfolding Broker.escalate
  escalate_at-Paused (alone s) e own now id v q =
      Holds-value _ own v (λ l h. absurd (ground (arith, sym (ap lease_of q) ∙ h)))
  escalate_at-Paused (supervised b) e own now id v q =
      at_lease (Lease.escalate b.lease e.reason) refl
    where
      at_lease :
          (r : Result LeaseError (Lease × ℕ))
          → Lease.escalate b.lease e.reason ≡ r
          → Holds
              (λ _ w. Paused w)
              (escalated_or_raise x (Broker.escalated x.dispatcher x.broker_texts b now id e r) v)
      at_lease (err m) p = Holds-raised _ _
      at_lease (ok (l, epoch)) p = Holds-value _ _ _ (λ l' h.
          let same : l ≡ l' = ground (arith, h) in
          subst (λ (k : Lease). k.state ≡ paused) same
            ((escalate_move b.lease {l' = l} {e = epoch} e.reason p).1))

  call_operator-Paused :
      (e : Escalation) (own : String) → Gives (λ _ w. Paused w) (call_operator x e own)
  unfolding call_operator
  call_operator-Paused e own = record { at = λ v. escalate_at-Paused v.site e own _ _ _ refl }

  intervention_for-Gives :
      (st : RunState) (code : FailureCode) (why : Why) (d : Details) (refs : Option CaptureRefs)
      → Gives (λ _ w. escalates st code ≡ true → Paused w) (intervention_for x st code why d refs)
  unfolding intervention_for draw_id
  intervention_for-Gives st code why d refs = record {
    at = λ v.
        (Gives-if (λ _ w. escalates st code ≡ true → Paused w) (escalates st code) _ _
            (λ e. record {
              at = λ w.
                  Holds-map (λ _ u. Paused u) _ _ ((call_operator-Paused _ _).at w) (λ id u p h. p);
            })
            (λ e. Gives-return _ _ (λ w h. absurd (ground (arith, e, h))))).at
          _;
  }

  -- What the evidence does not tell is as before when a note has been taken.
  note_keeps :
      (P : Live W → Type 0)
      → ((v : Live W) (e : EvidenceBus) → P v → P (put_evidence e v))
      → (event : EventType) (epoch : ℕ) (fields : Fields) (v : Live W) → P v
      → Holds (λ _ w. P w) (note x event epoch fields v)
  unfolding note
  note_keeps P k event epoch fields v p = Holds-value _ _ _ (k v _ p)

  emit_end_keeps :
      (P : Live W → Type 0)
      → ((v : Live W) (e : EvidenceBus) → P v → P (put_evidence e v))
      → (st : RunState) (event : EventType) (fields : Fields) (v : Live W) → P v
      → Holds (λ _ w. P w) (emit_end x st event fields v)
  unfolding emit_end
  emit_end_keeps P k st event fields v p = elim (Bool-cases (is_remedy st)) [
    | inl e ↦ rw e (note_keeps P k Bus.note 0 _ v p)
    | inr e ↦ rw e (note_keeps P k event 0 fields v p)
  ]

  Paused-evidence :
      (P : Type 0) (v : Live W) (e : EvidenceBus) → (P → Paused v) → P → Paused (put_evidence e v)
  Paused-evidence P v e k p l q = k p l (sym (lease_of-with_session x _ v.site) ∙ q)

  escalates-Handed :
      (st : RunState) (code : FailureCode)
      → escalates st code ≡ true
      → (code_among code st.capability.escalation.triggers ≡ true)
        × (asks_for_human st.capability.escalation.disposition ≡ true)
  unfolding escalates
  escalates-Handed st code e = (ground (arith, e), ground (arith, e))

  -- What is looked at is the surface as it is then.
  observe-Sees : Gives (λ seen w. x.dispatcher.driver.observe (world_of w) ≡ seen) (observe x)
  unfolding observe Dispatcher.observe
  observe-Sees = record {
    at = λ v. Holds-value _ _ _ (
        ap x.dispatcher.driver.observe
          (world_of-put_session _ (settled x v.readings (record v { readings = suc v.readings }))));
  }

  module _ (cap : ℕ) where
    failure_result-IsSettled :
        (st : RunState) (code : FailureCode) (why : Why) (d : Details) (id : String) (now : ℕ)
        (v : Live W)
        → (escalates st code ≡ true → Paused v)
        → st.recovery_attempts ≤ suc cap
        → Settled x cap st (failure_result x st code why d id now) v
          × (is_success (failure_result x st code why d id now).status ≡ false)
    unfolding failure_result ended_at shape_matches_status
    failure_result-IsSettled st code why d id now v p h = elim (Bool-cases (escalates st code)) [
      | inl e ↦ rw e (
        record {
          shaped = refl;
          handed = λ _. record {
            detail = detail_of code why d;
            explained = refl;
            triggered = (escalates-Handed st code e).0;
            asked = (escalates-Handed st code e).1;
            paused_session = p e;
          };
          verified = λ q. absurd (ground (arith, q));
          bounded = h;
          counted = λ q. absurd (ground (arith, q));
        },
        refl,
      )
      | inr e ↦ rw e (
        record {
          shaped = refl;
          handed = λ q. absurd (ground (arith, q));
          verified = λ q. absurd (ground (arith, q));
          bounded = h;
          counted = λ q. absurd (ground (arith, q));
        },
        refl,
      )
    ]

    -- A run that fails has not succeeded.
    abbrev pub Failed : RunState → RunResult → Live W → Type 0
    Failed st r v = Settled x cap st r v × (is_success r.status ≡ false)

    pub fail-Gives :
        (st : RunState) (code : FailureCode) (why : Why) (d : Details)
        → st.recovery_attempts ≤ suc cap
        → Gives (Failed st) (fail x st code why d)
    unfolding fail read_clock
    fail-Gives st code why d h = record {
      at = λ v.
          Holds-continue _ _ _ _ ((capture_failure-Gives st code why d.snapshot).at v) (λ refs u _.
            Holds-continue _ _ _ _ ((intervention_for-Gives st code why d refs).at u) (λ id w p.
              Holds-continue _ _ _ _
                (emit_end_keeps (λ w. escalates st code ≡ true → Paused w)
                  (Paused-evidence (escalates st code ≡ true)) st _ _ w p)
                (λ _ t q. Holds-value _ _ _ (failure_result-IsSettled st code why d id _ _ q h))));
    }

    pub stop-Gives :
        (st : RunState) (code : FailureCode) (why : Why) (d : Details)
        → st.recovery_attempts ≤ suc cap
        → Gives (λ p v. After x cap st p v × (goes_on p ≡ false)) (stop x st code why d)
    unfolding stop
    stop-Gives st code why d h =
        Gives-bind _ _ _ _ (fail-Gives st code why d h)
          (λ r v k. Holds-value _ _ v ((k.0, k.1, IsLater-refl st, h), refl))

    pub answer-Gives : (st : RunState) (o : Outcome) → Gives (Failed st) (answer x st o)
    unfolding answer read_clock outcome_result ended_at shape_matches_status
    answer-Gives st o = record {
      at = λ v.
          Holds-continue _ _ _ _ (emit_end_keeps (λ _. Unit {0}) (λ _ _ _. tt) st _ _ v tt)
            (λ _ w _. Holds-value _ _ _ (
              record {
                shaped = refl;
                handed = λ q. absurd (ground (arith, q));
                verified = λ q. absurd (ground (arith, q));
                bounded = omega arith;
                counted = λ q. absurd (ground (arith, q));
              },
              refl,
            ));
    }

    Shows-evidence :
        (c : Capability) (inputs : Inputs) (v : Live W) (e : EvidenceBus)
        → Shows x cap c inputs v
        → Shows x cap c inputs (put_evidence e v)
    Shows-evidence c inputs v e h = rw (world_of-put_session _ v) h

    succeed-Holds :
        (st : RunState) (v : Live W)
        → st.recovery_attempts ≤ suc cap
        → Shows x cap st.capability st.inputs v
        → Holds (Settled x cap st) (succeed x st v)
    unfolding succeed read_clock success_result ended_at shape_matches_status
    succeed-Holds st v h q =
        Holds-continue _ _ _ _
          (emit_end_keeps (Shows x cap st.capability st.inputs)
            (Shows-evidence st.capability st.inputs) st _ _ v q)
          (λ _ w k. Holds-value _ _ _ (record {
            shaped = refl;
            handed = λ q. absurd (ground (arith, q));
            verified = λ _. k;
            bounded = h;
            counted = λ _. omega arith;
          }))

    checkpoint_verdict-Holds :
        (st : RunState) (seen : UiSnapshot) (verdict : Classification) (o : Option Outcome)
        (v : Live W)
        → st.recovery_attempts ≤ suc cap
        → (is_expected x verdict.observation ≡ true → Shows x cap st.capability st.inputs v)
        → Holds (Settled x cap st) (checkpoint_verdict x st seen verdict o v)
    unfolding checkpoint_verdict
    checkpoint_verdict-Holds st seen verdict (some o) v h q =
        Holds-map _ _ _ ((answer-Gives st o).at v) (λ r w k. k.0)
    checkpoint_verdict-Holds st seen verdict none v h q =
        elim (Bool-cases (is_expected x verdict.observation)) [
          | inl e ↦ rw e (succeed-Holds st v h (q e))
          | inr e ↦ rw e (
              Holds-map _ _ _
                ((fail-Gives st checkpoint_failed (read_as verdict.reason)
                    (record no_details {
                      snapshot = some seen;
                      expected = some st.capability.checkpoint;
                    })
                    h).at
                  v)
                (λ r w k. k.0))
        ]

    eq_expected : (o : ObservationClass) → is_expected x o ≡ true → o ≡ ObservationClass.expected
    eq_expected ObservationClass.expected e = refl
    eq_expected ObservationClass.business_outcome e = absurd (ground (arith, e))
    eq_expected ObservationClass.recoverable e = absurd (ground (arith, e))
    eq_expected ObservationClass.unexpected_state e = absurd (ground (arith, e))

    -- A result of a checkpoint is settled, and a success has been seen.
    pub verify_checkpoint-Gives :
        (st : RunState)
        → st.recovery_attempts ≤ suc cap
        → Gives (Settled x cap st) (verify_checkpoint x st)
    unfolding verify_checkpoint
    verify_checkpoint-Gives st h =
        Gives-bind (λ seen w. x.dispatcher.driver.observe (world_of w) ≡ seen) _ _ _ observe-Sees
          (λ seen w q.
            checkpoint_verdict-Holds st seen
              (classify x.text_host seen st.inputs st.capability none true)
              (classify x.text_host seen st.inputs st.capability none true).outcome w h
              (λ e.
                subst (λ s. evaluate x.text_host st.capability.checkpoint s st.inputs ≡ true)
                  (sym q)
                  (classify-expected x.text_host seen st.inputs st.capability none (
                    eq_expected
                      (classify x.text_host seen st.inputs st.capability none true).observation
                      e))))
