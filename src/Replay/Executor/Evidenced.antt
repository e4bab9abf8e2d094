-- ===== src/Replay/Executor/Evidenced.antt =====
-- src/cua/replay/executor.py with evidence/bus.py: whatever a run does, its trace stays reconciled.
use computer_use_automation.Base.{
  ℕ, String, ◌≡◌, refl, sym, false, Option, none, some, Result, ok, err,
}
use mathlib.Core.Path.{subst}
use computer_use_automation.Domain.Snapshot.{UiSnapshot}
use computer_use_automation.Domain.Capability.{Capability}
use computer_use_automation.Evidence.Redact.{RedactHost, Redactor}
use computer_use_automation.Evidence.Bus as Bus
use computer_use_automation.Evidence.Bus.{
  Event, EvidenceBus, EventType, is_dispatch, emit, event_of,
}
use computer_use_automation.Evidence.Json.{Fields}
use computer_use_automation.Evidence.Bus.Reconcile.{IsReconciled, IsReconciled-snoc, other_kind}
use computer_use_automation.Domain.Actor.{Actor, system}
use computer_use_automation.Runtime.Command.{Session}
use computer_use_automation.Runtime.Dispatcher as Dispatcher
use computer_use_automation.Runtime.Dispatcher.Reconciled.{execute-IsReconciled}
use computer_use_automation.Runtime.Capture.{CaptureHost, capture, note_unseen}
use computer_use_automation.Hitl.Lease as Lease
use computer_use_automation.Hitl.Lease.{Lease, LeaseError}
use computer_use_automation.Hitl.Handoff.{SessionBroker, Escalation}
use computer_use_automation.Hitl.Broker as Broker
use computer_use_automation.Replay.Inputs.{Supplied}
use computer_use_automation.Replay.Executor.State.{
  ReplayExecutor, Site, alone, supervised, Live, session_of, with_session, put_session, evidence_of,
}
use computer_use_automation.Replay.Executor.Stepping.{keep_secrets, redactor_of, share_redactor}
use computer_use_automation.Replay.Executor.Flow.{run}
use computer_use_automation.Replay.Executor.Moves.{
  Move, reads, settles, looks, notes, captures, masks, resolves, adopts, dispatches, calls, Moves,
  stay, then_move,
}
use computer_use_automation.Replay.Executor.Walked.{run-Walks}

emit-IsReconciled :
    (host : RedactHost) (b : EvidenceBus) (event : EventType) (actor : Actor) (epoch : ℕ)
    (payload : Fields)
    → is_dispatch event ≡ false
    → IsReconciled b.trace
    → IsReconciled (emit host b event actor epoch payload).trace
unfolding emit
emit-IsReconciled host b event actor epoch payload h k =
    IsReconciled-snoc b.trace _ k (other_kind h)

session_of-with_session :
    {W : Type 0} (s : Session W) (site : Site W) → session_of (with_session s site) ≡ s
session_of-with_session s (alone old) = refl
session_of-with_session s (supervised b) = refl

module _ {W : Type 0} (x : ReplayExecutor W) where
  abbrev Traced : Live W → Type 0
  Traced v = IsReconciled (evidence_of v).trace

  put-Traced :
      (s : Session W) (v : Live W) → IsReconciled s.evidence.trace → Traced (put_session s v)
  put-Traced s v k =
      subst (λ t. IsReconciled t.evidence.trace) (sym (session_of-with_session s v.site)) k

  capture-Traced :
      (host : CaptureHost W) (label noted : String) (c : Capability) (reason : String)
      (seen : UiSnapshot) (s : Session W)
      → IsReconciled s.evidence.trace
      → IsReconciled
          (capture host x.dispatcher.redaction label noted c reason seen s).1.evidence.trace
  unfolding capture
  capture-Traced host label noted c reason seen s k =
      emit-IsReconciled _ _ Bus.note system 0 _ refl (unseen _)
    where
      unseen :
          (shot : Result String String)
          → IsReconciled (note_unseen host x.dispatcher.redaction shot s.evidence).trace
      unseen (ok file) = k
      unseen (err e) = emit-IsReconciled _ _ Bus.note system 0 _ refl k

  escalate-Traced :
      (b : SessionBroker W) (now : ℕ) (id : String) (e : Escalation)
      → IsReconciled b.session.evidence.trace
      → IsReconciled
          (Broker.escalate x.dispatcher x.broker_texts b now id e).1.session.evidence.trace
  unfolding Broker.escalate
  escalate-Traced b now id e k = at_lease (Lease.escalate b.lease e.reason)
    where
      at_lease :
          (r : Result LeaseError (Lease × ℕ))
          → IsReconciled
              (Broker.escalated x.dispatcher x.broker_texts b now id e r).1.session.evidence.trace
      at_lease (err m) = k
      at_lease (ok (l, epoch)) = emit-IsReconciled _ _ Bus.escalate system epoch _ refl k

  shared-Traced : (r : Option Redactor) (v : Live W) → Traced v → Traced (share_redactor x r v)
  shared-Traced none v k = k
  shared-Traced (some r) v k = put-Traced _ v k

  Move-Traced : {v w : Live W} → Move x v w → Traced v → Traced w
  unfolding Dispatcher.observe keep_secrets
  Move-Traced (reads v) k = k
  Move-Traced (settles v n) k = put-Traced _ v k
  Move-Traced (looks v) k = put-Traced _ v (emit-IsReconciled _ _ Bus.observe system 0 _ refl k)
  Move-Traced (notes v event epoch payload h) k =
      put-Traced _ v (emit-IsReconciled _ _ event _ epoch payload h k)
  Move-Traced (captures v host label noted c reason seen) k =
      put-Traced _ v (capture-Traced host label noted c reason seen (session_of v.site) k)
  Move-Traced (masks v keys) k = put-Traced _ v k
  Move-Traced (resolves v next) k = shared-Traced (redactor_of next) (record v { secrets = next }) k
  Move-Traced (adopts v l p q) k = k
  Move-Traced (dispatches v id c p q r s) k =
      put-Traced _ v (execute-IsReconciled x.dispatcher id c (session_of v.site) k)
  Move-Traced (calls v b now id e q) k =
      escalate-Traced b now id e (subst (λ s. IsReconciled (session_of s).evidence.trace) q k)

  pub Moves-Traced : {u v : Live W} → Moves x u v → Traced u → Traced v
  Moves-Traced stay k = k
  Moves-Traced (then_move p m) k = Move-Traced m (Moves-Traced p k)

  -- However a run ends, and whatever happens around it, a reconciled trace stays reconciled: every
  -- dispatch in it that was not refused, a remedy's included, bears a decision that the trace authorizes.
  pub run-IsReconciled :
      (c : Capability) (supplied : Supplied) (v : Live W)
      → IsReconciled (evidence_of v).trace
      → IsReconciled (evidence_of (run x c supplied v).1).trace
  run-IsReconciled c supplied v = Moves-Traced ((run-Walks x c supplied).at v)
