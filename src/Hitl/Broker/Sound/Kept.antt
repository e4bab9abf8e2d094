-- ===== src/Hitl/Broker/Sound/Kept.antt =====
-- src/cua/hitl/broker.py: what each method makes of a sound broker.
use computer_use_automation.Base.{
  ℕ, String, ◌≡◌, refl, sym, Bool, true, false, not, ◌&&◌, Option, none, some, lookup, insert,
  if◌then◌else◌, Result, ok, err, is_some,
}
use computer_use_automation.Domain.Snapshot.{UiSnapshot}
use computer_use_automation.Domain.Action.{Action, is_raw_input}
use computer_use_automation.Hitl.Lease as Lease
use computer_use_automation.Hitl.Lease.{
  Lease, LeaseError, Duration, plus, minus, ControlState, running, paused, human_control, resuming,
  ask_escalate, ask_claim, ask_release, ask_resume, ask_reclaim, is_state,
}
use computer_use_automation.Hitl.Lease.Invariant.{IsValid, served-IsValid}
use computer_use_automation.Hitl.Lease.Moves.{
  escalate_move, claim_move, release_move, resume_move, reclaim_move,
}
use computer_use_automation.Hitl.Intervention as Queue
use computer_use_automation.Hitl.Intervention.{
  InterventionQueue, InterventionRequest, QueueError, is_claimable, claimed, released,
}
use computer_use_automation.Hitl.Intervention.Changes.{claim-eq-ok}
use computer_use_automation.Hitl.Broker.{
  escalate, escalated, request_of, claim, queue_claimed, lease_claimed, human_action,
  confirm_action, perform, acted, held_then, confirmed_note, release, release_handoff,
  lease_released, sweep, lease_reclaimed, resume, lease_resumed, queue_resolved, delta_of,
  delta_text,
}
use computer_use_automation.Hitl.Handoff.{
  SessionBroker, HandoffRecord, BrokerTexts, Escalation, BrokerError, resolved_queue,
}
use computer_use_automation.Runtime.Command.{Setup, Session, DispatchOutcome}
use computer_use_automation.Hitl.Broker.Sound.{
  IsSound, Tracked, Tracked-same, Tracked-count, Tracked-at, opened-Tracked, claimed-Tracked,
  lookup-put_back_claim, abandoned-Tracked, released-Tracked, Tracked-noted, IsSound-relog,
}

module _ {W : Type 0} (d : Setup W) (texts : BrokerTexts) where
  pub escalate-IsSound :
      (b : SessionBroker W) (now : ℕ) (id : String) (x : Escalation)
      → IsSound b
      → IsSound (escalate d texts b now id x).1
  unfolding escalate request_of Lease.serve
  escalate-IsSound b now id x s = at_lease (Lease.escalate b.lease x.reason) refl
    where
      at_lease :
          (o : Result LeaseError (Lease × ℕ))
          → Lease.escalate b.lease x.reason ≡ o
          → IsSound (escalated d texts b now id x o).1
      at_lease (err e) q = s
      at_lease (ok (l, epoch)) q = record {
        lease_valid =
            served-IsValid b.lease (ask_escalate x.reason) {l' = l} {e = epoch} q s.lease_valid;
        tracked =
            Tracked-at _ _ ((escalate_move b.lease {l' = l} {e = epoch} x.reason q).1)
              (opened-Tracked b.queue (request_of d texts b now id x) b.handoff refl);
      }

  pub resume-IsSound : (b : SessionBroker W) → IsSound b → IsSound (resume d texts b).1
  unfolding resume Tracked Lease.serve
  resume-IsSound b s = at_lease (Lease.resume b.lease) refl
    where
      at_lease :
          (o : Result LeaseError (Lease × ℕ))
          → Lease.resume b.lease ≡ o
          → IsSound (lease_resumed d texts b o).1
      at_lease (err e) q = s
      at_lease (ok (l, epoch)) q = at_queue (resolved_queue b.queue b.handoff)
        where
          valid : IsValid l
          valid = served-IsValid b.lease ask_resume {l' = l} {e = epoch} q s.lease_valid

          track : (w : InterventionQueue) (h : Option HandoffRecord) → Tracked l.state w h
          track w h = Tracked-at w h ((resume_move b.lease {l' = l} {e = epoch} q).1) tt

          at_queue :
              (o : Result QueueError InterventionQueue)
              → IsSound (queue_resolved d texts (record b { lease = l }) epoch o).1
          at_queue (err e) = record { lease_valid = valid; tracked = track _ _ }
          at_queue (ok q) = record { lease_valid = valid; tracked = track _ _ }

  pub sweep-IsSound :
      (b : SessionBroker W) (now : ℕ) (note : String)
      → IsSound b
      → IsSound (sweep d texts b now note).1
  unfolding sweep Lease.serve
  sweep-IsSound b now note s = at_expired (Lease.expired b.lease now)
    where
      at_lease :
          (o : Result LeaseError (Lease × ℕ))
          → Lease.reclaim_expired b.lease now ≡ o
          → IsSound (lease_reclaimed d texts b note o).1
      at_lease (err e) q = s
      at_lease (ok (l, epoch)) q =
          let move = reclaim_move b.lease {l' = l} {e = epoch} now s.lease_valid q in
          let (q', e, t) =
            abandoned-Tracked b.queue b.handoff note (Tracked-at _ _ (sym (move.0)) s.tracked) in
          rw e (record {
            lease_valid =
                served-IsValid b.lease (ask_reclaim now) {l' = l} {e = epoch} q s.lease_valid;
            tracked = Tracked-at q' none (move.1) t;
          })

      at_expired :
          (x : Bool)
          → IsSound
              (if not x
                then (ok false, b)
                else lease_reclaimed d texts b note (Lease.reclaim_expired b.lease now)).1
      at_expired false = s
      at_expired true = at_lease (Lease.reclaim_expired b.lease now) refl

  pub release-IsSound :
      (b : SessionBroker W) (now : ℕ) (after : Option UiSnapshot)
      → IsSound b
      → IsSound (release d texts b now after).1
  unfolding release Lease.serve
  release-IsSound b now after s = at_handoff b.handoff refl
    where
      at_lease :
          (h : HandoffRecord)
          → b.handoff ≡ some h
          → (o : Result LeaseError (Lease × ℕ)) → Lease.release b.lease ≡ o
          → IsSound (lease_released d texts b now h after o).1
      at_lease h k (err e) q = s
      at_lease h k (ok (l, epoch)) q =
          let move = release_move b.lease {l' = l} {e = epoch} q in
          let delta = delta_of d texts h.snapshot_before after in
          let (q', e, t) =
            released-Tracked b.queue h now h.actions (delta_text d texts b delta)
              (rw k at (Tracked-at _ _ (sym (move.0)) s.tracked)) in
          rw e (record {
            lease_valid = served-IsValid b.lease ask_release {l' = l} {e = epoch} q s.lease_valid;
            tracked = Tracked-at q' _ (move.1) (Tracked-noted q' h delta after t);
          })

      at_handoff :
          (h : Option HandoffRecord)
          → b.handoff ≡ h
          → IsSound (release_handoff d texts b now h after).1
      at_handoff none k = s
      at_handoff (some h) k = at_lease h k (Lease.release b.lease) refl

  pub claim-IsSound :
      (b : SessionBroker W) (now : ℕ) (id who : String) (hold_for : Duration)
      → IsSound b
      → IsSound (claim d texts b now id who hold_for).1
  unfolding claim Lease.serve
  claim-IsSound b now id who hold_for s = at_queue (Queue.claim b.queue now id who) refl
    where
      at_queue :
          (o : Result QueueError InterventionQueue)
          → Queue.claim b.queue now id who ≡ o
          → IsSound (queue_claimed d texts b now id who hold_for o).1
      at_queue (err e) h = s
      at_queue (ok q) h =
          let (r, e0, c, at) = claim-eq-ok b.queue now id who h in
          at_lease q r e0 at (Lease.claim b.lease now who hold_for) refl
        where
          at_lease :
              (q : InterventionQueue) (r : InterventionRequest)
              → lookup id b.queue ≡ some r
              → q
                ≡ insert id
                    (record r { state = claimed; operator = some who; claimed_at = some now })
                    b.queue
              → (o : Result LeaseError (Lease × ℕ)) → Lease.claim b.lease now who hold_for ≡ o
              → IsSound (lease_claimed d texts b id who q o).1
          at_lease q r e0 at (err e) k = record {
            lease_valid = s.lease_valid;
            tracked =
                Tracked-same b.lease.state b.queue _ b.handoff
                  (lookup-put_back_claim b.queue q id r now who e0 at) s.tracked;
          }
          at_lease q r e0 at (ok (l, epoch)) k = record {
            lease_valid =
                served-IsValid b.lease (ask_claim now who hold_for) {l' = l} {e = epoch} k
                  s.lease_valid;
            tracked =
                Tracked-at _ _ ((claim_move b.lease {l' = l} {e = epoch} now who hold_for k).1)
                  (rw at (claimed-Tracked b.queue id _ _ refl refl));
          }

  acted-IsSound :
      (b : SessionBroker W) (o : Option DispatchOutcome × Session W)
      → IsSound b
      → IsSound (acted d texts b o).1
  unfolding acted
  acted-IsSound b (none, w) s = IsSound-relog b w s
  acted-IsSound b (some o, w) s = record {
    lease_valid = s.lease_valid;
    tracked = Tracked-count b.lease.state b.queue b.handoff s.tracked;
  }

  perform-IsSound :
      (b : SessionBroker W) (id : String) (action : Action) (confirmed : Bool)
      → IsSound b
      → IsSound (perform d texts b id action confirmed).1
  unfolding perform
  perform-IsSound b id action confirmed s = acted-IsSound b _ s

  held_then-IsSound :
      (h : Option LeaseError) (b : SessionBroker W)
      (next : Result BrokerError DispatchOutcome × SessionBroker W)
      → IsSound b
      → IsSound next.1
      → IsSound (held_then d texts h b next).1
  unfolding held_then
  held_then-IsSound (some e) b next s t = s
  held_then-IsSound none b next s t = t

  if-IsSound :
      {A : Type 0} (x : Bool) (p q : Result BrokerError A × SessionBroker W)
      → IsSound p.1
      → IsSound q.1
      → IsSound (if x then p else q).1
  if-IsSound true p q s t = s
  if-IsSound false p q s t = t

  pub human_action-IsSound :
      (b : SessionBroker W) (now : ℕ) (id : String) (action : Action)
      → IsSound b
      → IsSound (human_action d texts b now id action).1
  unfolding human_action
  human_action-IsSound b now id action s =
      if-IsSound (not (is_state b.lease.state human_control)) _ _ s (
        held_then-IsSound _ b _ s (
          if-IsSound (is_raw_input action && not (is_some b.handoff)) _ _ s
            (perform-IsSound b id action false s)))

  confirmed_note-IsSound :
      (action : Action) (r : Result BrokerError DispatchOutcome × SessionBroker W)
      → IsSound r.1
      → IsSound (confirmed_note d texts action r).1
  unfolding confirmed_note
  confirmed_note-IsSound action (err e, b) s = s
  confirmed_note-IsSound action (ok o, b) s = IsSound-relog b _ s

  pub confirm_action-IsSound :
      (b : SessionBroker W) (now : ℕ) (id : String) (action : Action)
      → IsSound b
      → IsSound (confirm_action d texts b now id action).1
  unfolding confirm_action
  confirm_action-IsSound b now id action s =
      held_then-IsSound _ b _ s
        (confirmed_note-IsSound action _ (perform-IsSound b id action true s))
