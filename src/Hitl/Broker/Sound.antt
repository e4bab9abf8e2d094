-- ===== src/Hitl/Broker/Sound.antt =====
-- src/cua/hitl/broker.py: when the lease, the queue and the handoff agree.
pub mod Kept
pub mod Reached
use computer_use_automation.Base.{
  ℕ, String, ◌≡◌, refl, sym, ◌∙◌, Bool, true, false, not, ◌&&◌, Option, none, some, List, [], ◌∷◌,
  arith, ◌==◌, eq_iff, eq_refl, lookup, insert, lookup-insert, if◌then◌else◌, Result, ok, err,
  Bool-cases, inl, inr, is_some,
}
use computer_use_automation.Domain.Snapshot.{UiSnapshot}
use computer_use_automation.Domain.Action.{Action, is_raw_input}
use computer_use_automation.Hitl.Reanchor.{HumanDelta}
use computer_use_automation.Hitl.Lease as Lease
use computer_use_automation.Hitl.Lease.{
  Lease, LeaseError, Duration, plus, minus, ControlState, running, paused, human_control, resuming,
  ask_escalate, ask_claim, ask_release, ask_resume, ask_reclaim, is_state,
}
use computer_use_automation.Hitl.Lease.Invariant.{IsValid, served-IsValid, new-IsValid}
use computer_use_automation.Hitl.Lease.Moves.{
  escalate_move, claim_move, release_move, resume_move, reclaim_move,
}
use computer_use_automation.Hitl.Intervention as Queue
use computer_use_automation.Hitl.Intervention.{
  InterventionQueue, InterventionRequest, QueueError, is_claimable, claimed, released,
}
use computer_use_automation.Hitl.Intervention.Changes.{
  lookup-insert_self, change_request_ok, claim-eq-ok,
}
use computer_use_automation.Hitl.Broker.{
  escalate, escalated, request_of, claim, queue_claimed, lease_claimed, human_action,
  confirm_action, perform, acted, held_then, confirmed_note, release, release_handoff,
  lease_released, queue_released, sweep, lease_reclaimed, swept, resume, lease_resumed,
  queue_resolved, delta_of, delta_text,
}
use computer_use_automation.Hitl.Handoff.{
  SessionBroker, HandoffRecord, BrokerTexts, Escalation, BrokerError, new_broker, put_back,
  count_action, abandoned_queue, resolved_queue, noted_handoff,
}
use computer_use_automation.Runtime.Command.{Setup, Session, DispatchOutcome}

-- A paused session has a request that can be claimed; one that a person has or has handed back has
-- the request of its handoff claimed or released.
unfoldable pub Tracked : ControlState → InterventionQueue → Option HandoffRecord → Type 0
Tracked running q h = Unit
Tracked paused q h =
    (id : String) × (r : InterventionRequest) × (lookup id q ≡ some r)
    × (is_claimable r.state ≡ true)
Tracked human_control q none = ⊥
Tracked human_control q (some h) =
    (r : InterventionRequest) × (lookup h.intervention_id q ≡ some r) × (r.state ≡ claimed)
Tracked resuming q none = ⊥
Tracked resuming q (some h) =
    (r : InterventionRequest) × (lookup h.intervention_id q ≡ some r) × (r.state ≡ released)

pub record IsSound {W : Type 0} (b : SessionBroker W) : Type 0 where
  pub lease_valid : IsValid b.lease
  pub tracked : Tracked b.lease.state b.queue b.handoff

-- Queues that answer alike track alike, and of a handoff only the id counts.
pub Tracked-same :
    (state : ControlState) (q q' : InterventionQueue) (h : Option HandoffRecord)
    → ((j : String) → lookup j q' ≡ lookup j q)
    → Tracked state q h
    → Tracked state q' h
unfolding Tracked
Tracked-same running q q' h same t = tt
Tracked-same paused q q' h same (id, r, e, c) = (id, r, same id ∙ e, c)
Tracked-same human_control q q' none same t = absurd t
Tracked-same human_control q q' (some h) same (r, e, c) = (r, same h.intervention_id ∙ e, c)
Tracked-same resuming q q' none same t = absurd t
Tracked-same resuming q q' (some h) same (r, e, c) = (r, same h.intervention_id ∙ e, c)

pub Tracked-count :
    (state : ControlState) (q : InterventionQueue) (h : Option HandoffRecord)
    → Tracked state q h
    → Tracked state q (count_action h)
unfolding Tracked
Tracked-count running q h t = tt
Tracked-count paused q h t = t
Tracked-count human_control q none t = absurd t
Tracked-count human_control q (some h) t = t
Tracked-count resuming q none t = absurd t
Tracked-count resuming q (some h) t = t

-- In a state that is known, what is tracked there.
pub Tracked-at :
    {to state : ControlState} (q : InterventionQueue) (h : Option HandoffRecord)
    → state ≡ to
    → Tracked to q h
    → Tracked state q h
Tracked-at q h e t = rw e t

pub opened-Tracked :
    (q : InterventionQueue) (r : InterventionRequest) (h : Option HandoffRecord)
    → is_claimable r.state ≡ true
    → Tracked paused (Queue.open_request q r) h
unfolding Tracked Queue.open_request
opened-Tracked q r h c = (r.intervention_id, r, lookup-insert_self r.intervention_id r q, c)

pub claimed-Tracked :
    (q : InterventionQueue) (id : String) (r : InterventionRequest) (h : HandoffRecord)
    → h.intervention_id ≡ id
    → r.state ≡ claimed
    → Tracked human_control (insert id r q) (some h)
unfolding Tracked
claimed-Tracked q id r h e c = (r, rw e (lookup-insert_self id r q), c)

-- Writing back the entry that was there, over another, restores every answer.
pub lookup-put_back :
    (q : InterventionQueue) (id : String) (r r' : InterventionRequest)
    → lookup id q ≡ some r
    → (j : String) → lookup j (insert id r (insert id r' q)) ≡ lookup j q
lookup-put_back q id r r' e j =
    grind (arith, eq_iff id j, lookup-insert id j r (insert id r' q), lookup-insert id j r' q, e)

-- A refused claim of the lease puts the request back as it was.
pub lookup-put_back_claim :
    (q : InterventionQueue) (q' : InterventionQueue) (id : String) (r : InterventionRequest)
    (now : ℕ) (who : String)
    → lookup id q ≡ some r
    → q' ≡ insert id (record r { state = claimed; operator = some who; claimed_at = some now }) q
    → (j : String)
    → lookup j (put_back q' id (Queue.get_request q id) (Queue.get_request q' id)) ≡ lookup j q
unfolding Queue.get_request
lookup-put_back_claim q q' id r now who e at j = rw at (
    rw e (
      rw
        (lookup-insert_self id
          (record r { state = claimed; operator = some who; claimed_at = some now }) q)
        (lookup-put_back q id r
          (record r { state = claimed; operator = some who; claimed_at = some now }) e j)))

pub abandoned-Tracked :
    (q : InterventionQueue) (h : Option HandoffRecord) (note : String)
    → Tracked human_control q h
    → (q' : InterventionQueue) × (abandoned_queue q h note ≡ ok q') × Tracked paused q' none
unfolding Tracked abandoned_queue Queue.abandon
abandoned-Tracked q none note t = absurd t
abandoned-Tracked q (some h) note (r, e, c) = (
  insert h.intervention_id (record r { state = Queue.abandoned; resolution_note = note }) q,
  change_request_ok q h.intervention_id _ e refl,
  (
    h.intervention_id,
    _,
    lookup-insert_self h.intervention_id
        (record r { state = Queue.abandoned; resolution_note = note }) q,
    refl,
  ),
)

pub released-Tracked :
    (q : InterventionQueue) (h : HandoffRecord) (now actions : ℕ) (delta : String)
    → Tracked human_control q (some h)
    → (q' : InterventionQueue) × (Queue.release q now h.intervention_id actions delta ≡ ok q')
      × Tracked resuming q' (some h)
unfolding Tracked Queue.release
released-Tracked q h now actions delta (r, e, c) = (
  insert h.intervention_id
      (record r {
        state = released;
        released_at = some now;
        human_actions = actions;
        human_delta = delta;
      })
      q,
  change_request_ok q h.intervention_id (Queue.release_one now actions delta) e (rw c refl),
  (_, lookup-insert_self h.intervention_id _ q, refl),
)

pub Tracked-noted :
    (q : InterventionQueue) (h : HandoffRecord) (delta : Option HumanDelta)
    (after : Option UiSnapshot)
    → Tracked resuming q (some h)
    → Tracked resuming q (some (noted_handoff h delta after))
unfolding Tracked noted_handoff
Tracked-noted q h none after t = t
Tracked-noted q h (some delta) after t = t

pub IsSound-relog :
    {W : Type 0} (b : SessionBroker W) (s : Session W)
    → IsSound b
    → IsSound (record b { session = s })
IsSound-relog b s v = record { lease_valid = v.lease_valid; tracked = v.tracked }
