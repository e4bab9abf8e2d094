-- ===== src/Replay/Executor/Walked/Parts.antt =====
-- src/cua/replay/executor.py: the primitive calls, and the ways a run ends, are moves.
use computer_use_automation.Base.{
  ℕ, suc, arith, String, false, Option, none, some, List, ◌≡◌, refl, Result, ok, err,
}
use computer_use_automation.Domain.Actor.{automation}
use computer_use_automation.Domain.Snapshot.{UiSnapshot}
use computer_use_automation.Domain.Capability.{Outcome}
use computer_use_automation.Domain.Result.{FailureCode}
use computer_use_automation.Evidence.Json.{Fields}
use computer_use_automation.Evidence.Bus as Bus
use computer_use_automation.Evidence.Bus.{EventType, is_dispatch}
use computer_use_automation.Runtime.Command.{Command, DispatchOutcome, Session}
use computer_use_automation.Runtime.Dispatcher as Dispatcher
use computer_use_automation.Runtime.Capture.{CaptureHost, CaptureRefs}
use computer_use_automation.Hitl.Handoff.{SessionBroker, BrokerError, Escalation}
use computer_use_automation.Hitl.Broker as Broker
use computer_use_automation.Replay.Classify.{Classification}
use computer_use_automation.Replay.Limits.{epochs}
use computer_use_automation.Replay.Result.{Why}
use computer_use_automation.Replay.Executor.State.{
  ReplayExecutor, Site, alone, supervised, Live, RunState, M, ◌>>=◌, session_of, put_session,
  with_session, lease_of, observe, dispatch, note, read_clock, draw_id, next_reading, settled, look,
  outcome_or_raise, set_sensitive_keys,
}
use computer_use_automation.Replay.Executor.Ending.{
  Details, is_remedy, emit_end, capture_with, capture_failure, escalate_at, escalated_or_raise,
  call_operator, intervention_for, fail, answer, succeed, checkpoint_verdict, verify_checkpoint,
}
use computer_use_automation.Replay.Executor.Stepping.{stop}
use computer_use_automation.Replay.Executor.Moves.{
  Moves, stay, then_move, Moves-single, Moves-trans, Moves-continue, reads, settles, looks, notes,
  captures, masks, dispatches, calls, Walks, Walks-return, Walks-bind, Walks-if,
}

module _ {W : Type 0} (x : ReplayExecutor W) where
  pub next_reading-Walks : Walks x (next_reading x)
  next_reading-Walks = record { at = λ v. Moves-single x (reads v) }

  pub read_clock-Walks : Walks x (read_clock x)
  unfolding read_clock
  read_clock-Walks = Walks-bind x _ _ next_reading-Walks (λ n. Walks-return x _)

  pub draw_id-Walks : Walks x (draw_id x)
  unfolding draw_id
  draw_id-Walks = Walks-bind x _ _ next_reading-Walks (λ n. Walks-return x _)

  pub note-Walks :
      (event : EventType) (epoch : ℕ) (payload : Fields)
      → is_dispatch event ≡ false
      → Walks x (note x event epoch payload)
  unfolding note
  note-Walks event epoch payload h = record {
    at = λ v. Moves-single x (notes v event epoch payload h);
  }

  pub set_sensitive_keys-Walks : (keys : List String) → Walks x (set_sensitive_keys x keys)
  unfolding set_sensitive_keys
  set_sensitive_keys-Walks keys = record { at = λ v. Moves-single x (masks v keys) }

  pub observe-Walks : Walks x (observe x)
  unfolding observe
  observe-Walks =
      Walks-bind x _ (λ n v. look x (settled x n v)) next_reading-Walks
        (λ n. record { at = λ v. then_move (Moves-single x (settles v n)) (looks (settled x n v)) })

  outcome_or_raise_live :
      (o : Option DispatchOutcome × Session W) (v : Live W)
      → (outcome_or_raise o v).1 ≡ put_session o.1 v
  outcome_or_raise_live (none, s) v = refl
  outcome_or_raise_live (some o, s) v = refl

  -- A command at the epochs of the moment.
  abbrev pub AtEpochs : Command → ℕ × Option ℕ → Type 0
  AtEpochs c now =
      (c.actor ≡ automation)
      × (c.session_id ≡ x.session_id)
      × (c.lease_epoch ≡ now.0)
      × (c.expected_epoch ≡ now.1)

  pub dispatch-Moves :
      (c : Command) (v : Live W)
      → AtEpochs c (epochs v.lease_epoch (lease_of v.site))
      → Moves x v (dispatch x c v).1
  unfolding dispatch
  dispatch-Moves c v k =
      rw
        (outcome_or_raise_live
          (Dispatcher.execute x.dispatcher (x.around.new_id v.readings) c (session_of v.site)) _)
        (then_move (Moves-single x (reads v))
          (dispatches _ (x.around.new_id v.readings) c k.0 k.1 k.2 k.3))

  pub lease_of-with_session :
      (s : Session W) (site : Site W) → lease_of (with_session s site) ≡ lease_of site
  lease_of-with_session s (alone old) = refl
  lease_of-with_session s (supervised b) = refl

  -- Looking at the surface leaves the epochs as they are.
  pub observe_then_Moves :
      {B : Type 0} (c : UiSnapshot → Command) (k : DispatchOutcome → M W B) (v : Live W)
      → ((seen : UiSnapshot) → AtEpochs (c seen) (epochs v.lease_epoch (lease_of v.site)))
      → ((o : DispatchOutcome) → Walks x (k o))
      → Moves x v ((do seen ← observe x; o ← dispatch x (c seen); k o) v).1
  unfolding observe
  observe_then_Moves c k v now walk =
      let w : Live W = (look x (settled x v.readings (record v { readings = suc v.readings }))).1 in
      let seen : UiSnapshot =
        (Dispatcher.observe x.dispatcher
          (session_of (settled x v.readings (record v { readings = suc v.readings })).site)).0 in
      Moves-continue x k v (dispatch x (c seen) w) walk (
        Moves-trans x
          (then_move (then_move (Moves-single x (reads v)) (settles _ v.readings))
            (looks (settled x v.readings (record v { readings = suc v.readings }))))
          (dispatch-Moves (c seen) w (
            rw (lease_of-with_session _ (with_session _ v.site), lease_of-with_session _ v.site)
              (now seen))))

  pub emit_end-Walks :
      (st : RunState) (event : EventType) (fields : Fields)
      → is_dispatch event ≡ false
      → Walks x (emit_end x st event fields)
  unfolding emit_end
  emit_end-Walks st event fields h =
      Walks-if x (is_remedy st) _ _ (note-Walks Bus.note 0 _ refl) (note-Walks event 0 fields h)

  capture_with-Walks :
      (host : Option (CaptureHost W)) (st : RunState) (code : FailureCode) (why : Why)
      (seen : Option UiSnapshot)
      → Walks x (capture_with x host st code why seen)
  capture_with-Walks none st code why seen = record { at = λ v. stay }
  capture_with-Walks (some host) st code why none = record { at = λ v. stay }
  capture_with-Walks (some host) st code why (some seen) = record {
    at = λ v. Moves-single x (captures v host _ _ st.capability _ seen);
  }

  capture_failure-Walks :
      (st : RunState) (code : FailureCode) (why : Why) (seen : Option UiSnapshot)
      → Walks x (capture_failure x st code why seen)
  unfolding capture_failure
  capture_failure-Walks st code why seen =
      Walks-if x (is_remedy st) _ _ (Walks-return x none)
        (capture_with-Walks x.capture st code why seen)

  escalated_live :
      (r : Result BrokerError String × SessionBroker W) (v : Live W)
      → (escalated_or_raise x r v).1 ≡ record v { site = supervised r.1 }
  escalated_live (err e, b) v = refl
  escalated_live (ok id, b) v = refl

  escalate_at-Moves :
      (site : Site W) (e : Escalation) (own : String) (now : ℕ) (id : String) (v : Live W)
      → v.site ≡ site
      → Moves x v (escalate_at x site e own now id v).1
  escalate_at-Moves (alone s) e own now id v q = stay
  escalate_at-Moves (supervised b) e own now id v q =
      rw (escalated_live (Broker.escalate x.dispatcher x.broker_texts b now id e) v)
        (Moves-single x (calls v b now id e q))

  call_operator-Walks : (e : Escalation) (own : String) → Walks x (call_operator x e own)
  unfolding call_operator
  call_operator-Walks e own =
      Walks-bind x _ (λ n v. escalate_at x v.site e own (x.around.utc_now n) (x.around.new_id n) v)
        next_reading-Walks (λ n. record { at = λ v. escalate_at-Moves v.site e own _ _ v refl })

  intervention_for-Walks :
      (st : RunState) (code : FailureCode) (why : Why) (d : Details) (refs : Option CaptureRefs)
      → Walks x (intervention_for x st code why d refs)
  unfolding intervention_for
  intervention_for-Walks st code why d refs =
      Walks-bind x _ _ draw_id-Walks
        (λ own. Walks-if x _ _ _ (call_operator-Walks _ own) (Walks-return x own))

  pub fail-Walks :
      (st : RunState) (code : FailureCode) (why : Why) (d : Details)
      → Walks x (fail x st code why d)
  unfolding fail
  fail-Walks st code why d =
      Walks-bind x _ _ (capture_failure-Walks st code why d.snapshot) (λ refs.
        Walks-bind x _ _ (intervention_for-Walks st code why d refs) (λ id.
          Walks-bind x _ _ (emit_end-Walks st _ _ (ground arith))
            (λ _. Walks-bind x _ _ read_clock-Walks (λ now. Walks-return x _))))

  pub answer-Walks : (st : RunState) (o : Outcome) → Walks x (answer x st o)
  unfolding answer
  answer-Walks st o =
      Walks-bind x _ _ (emit_end-Walks st Bus.run_end _ refl)
        (λ _. Walks-bind x _ _ read_clock-Walks (λ now. Walks-return x _))

  succeed-Walks : (st : RunState) → Walks x (succeed x st)
  unfolding succeed
  succeed-Walks st =
      Walks-bind x _ _ (emit_end-Walks st Bus.run_end _ refl)
        (λ _. Walks-bind x _ _ read_clock-Walks (λ now. Walks-return x _))

  checkpoint_verdict-Walks :
      (st : RunState) (seen : UiSnapshot) (verdict : Classification) (o : Option Outcome)
      → Walks x (checkpoint_verdict x st seen verdict o)
  unfolding checkpoint_verdict
  checkpoint_verdict-Walks st seen verdict (some o) = answer-Walks st o
  checkpoint_verdict-Walks st seen verdict none = search (Walks-if x, succeed-Walks, fail-Walks)

  pub verify_checkpoint-Walks : (st : RunState) → Walks x (verify_checkpoint x st)
  unfolding verify_checkpoint
  verify_checkpoint-Walks st = search (Walks-bind x, observe-Walks, checkpoint_verdict-Walks)

  pub stop-Walks :
      (st : RunState) (code : FailureCode) (why : Why) (d : Details)
      → Walks x (stop x st code why d)
  unfolding stop
  stop-Walks st code why d = Walks-bind x _ _ (fail-Walks st code why d) (λ r. Walks-return x _)
