-- ===== src/Hitl/Broker.antt =====
-- src/cua/hitl/broker.py: who may act on a session, and the path of a person's actions through policy.
-- A method may raise after it has changed something, so the broker comes back beside the exception.
-- Each method reads the clock once, as `now`; drawn ids are arguments.
pub mod Sound
pub mod Policed
use computer_use_automation.Base.{
  ℕ, suc, ◌+◌, String, Bool, true, false, ◌&&◌, not, is_some, Option, none, some, List, [], ◌∷◌,
  insert, if◌then◌else◌, Result, ok, err, length,
}
use computer_use_automation.Domain.Actor.{Actor, automation, human, system}
use computer_use_automation.Domain.Snapshot.{UiSnapshot}
use computer_use_automation.Domain.Action.{Action, action_type, is_raw_input}
use computer_use_automation.Evidence.Json.{
  Json, Items, Fields, str, num, null, arr, nil, cons, field, end,
}
use computer_use_automation.Evidence.Redact.{redact_text}
use computer_use_automation.Evidence.Bus as Bus
use computer_use_automation.Evidence.Bus.{EventType, emit}
use computer_use_automation.Hitl.Lease as Lease
use computer_use_automation.Hitl.Lease.{
  Lease, LeaseError, Duration, ControlState, human_control, is_state,
}
use computer_use_automation.Hitl.Intervention as Queue
use computer_use_automation.Hitl.Intervention.{
  InterventionQueue, InterventionRequest, QueueError, open_state,
}
use computer_use_automation.Hitl.Reanchor.{HumanDelta, diff_snapshots}
use computer_use_automation.Runtime.Dispatcher.{execute, observe}
use computer_use_automation.Runtime.Command.{Setup, Session, Command, DispatchOutcome}
use computer_use_automation.Hitl.Handoff.{
  HandoffRecord, SessionBroker, BrokerError, new_broker, BrokerTexts, Escalation, text_json,
  escalate_payload, edited_nodes, values_changed_of, put_back, count_action, noted_handoff,
  abandoned_queue, resolved_queue, from_lease, from_queue, no_operator_holds,
  raw_input_needs_handoff, no_handoff, dispatch_raised,
}

module _ {W : Type 0} (d : Setup W) (texts : BrokerTexts) where
  abbrev Reply : Type 0 → Type 0
  Reply A = Result BrokerError A × SessionBroker W

  abbrev pub log_event : EventType → Actor → ℕ → Fields → SessionBroker W → SessionBroker W
  log_event event actor epoch payload b = record b {
    session = record b.session {
      evidence = emit d.redaction b.session.evidence event actor epoch payload;
    };
  }

  abbrev redacted : SessionBroker W → String → String
  redacted b = redact_text d.redaction b.session.evidence.redactor

  request_of : SessionBroker W → ℕ → String → Escalation → InterventionRequest
  request_of b now id x = record {
    intervention_id = id;
    session_id = b.session_id;
    run_id = x.run_id;
    capability_ref = x.capability_ref;
    goal = redacted b x.goal;
    reason = redacted b x.reason;
    step_id = x.step_id;
    failure_code = x.failure_code;
    snapshot_ref = x.snapshot_ref;
    screenshot_ref = x.screenshot_ref;
    evidence_ref = some texts.run_dir;
    state = open_state;
    operator = none;
    created_at = now;
    claimed_at = none;
    released_at = none;
    human_actions = 0;
    human_delta = "";
    resolution_note = "";
  }

  pub escalated :
      SessionBroker W → ℕ → String → Escalation → Result LeaseError (Lease × ℕ) → Reply String
  unfolding request_of
  escalated b now id x (err e) = (err (from_lease e), b)
  escalated b now id x (ok (l, epoch)) = (
    ok id,
    log_event Bus.escalate system epoch (escalate_payload id x) (record b {
      lease = l;
      queue = Queue.open_request b.queue (request_of b now id x);
      pending_before = x.snapshot;
    }),
  )

  -- The request is returned by its id, under which it is in the queue.
  unfoldable pub escalate : SessionBroker W → ℕ → String → Escalation → Reply String
  unfolding escalated
  escalate b now id x = escalated b now id x (Lease.escalate b.lease x.reason)

  -- After the queue has taken the claim: the lease takes it too, or the request is put back.
  lease_claimed :
      SessionBroker W
      → String
      → String
      → InterventionQueue
      → Result LeaseError (Lease × ℕ)
      → Reply ℕ
  lease_claimed b id who q (err e) = (
    err (from_lease e),
    record b { queue = put_back q id (Queue.get_request b.queue id) (Queue.get_request q id) },
  )
  lease_claimed b id who q (ok (l, epoch)) = (
    ok epoch,
    log_event Bus.lease human epoch
        (field "transition" (str "claimed")
          (field "operator" (str who) (field "intervention" (str id) end)))
        (record b {
          lease = l;
          queue = q;
          handoff = some (record {
            intervention_id = id;
            operator = who;
            actions = 0;
            delta = none;
            snapshot_before = b.pending_before;
            snapshot_after = none;
          });
        }),
  )

  queue_claimed :
      SessionBroker W
      → ℕ
      → String
      → String
      → Duration
      → Result QueueError InterventionQueue
      → Reply ℕ
  unfolding lease_claimed
  queue_claimed b now id who hold_for (err e) = (err (from_queue e), b)
  queue_claimed b now id who hold_for (ok q) =
      lease_claimed b id who q (Lease.claim b.lease now who hold_for)

  unfoldable pub claim : SessionBroker W → ℕ → String → String → Duration → Reply ℕ
  unfolding queue_claimed
  claim b now id who hold_for = queue_claimed b now id who hold_for (Queue.claim b.queue now id who)

  -- `self.dispatch.execute(action, snapshot=self.dispatch.observe(), ...)`
  pub command_of : SessionBroker W → Action → Bool → UiSnapshot → Command
  command_of b action confirmed seen = record {
    action = action;
    snapshot = seen;
    actor = human;
    session_id = b.session_id;
    lease_epoch = b.lease.epoch;
    expected_epoch = some b.lease.epoch;
    capability = none;
    declared_risk = none;
    confirmed = confirmed;
    grant = none;
  }

  acted : SessionBroker W → Option DispatchOutcome × Session W → Reply DispatchOutcome
  acted b (none, s) = (err dispatch_raised, record b { session = s })
  acted b (some o, s) = (ok o, record b { session = s; handoff = count_action b.handoff })

  perform : SessionBroker W → String → Action → Bool → Reply DispatchOutcome
  unfolding acted command_of
  perform b id action confirmed =
      let (seen, s) = observe d b.session in
      acted b (execute d id (command_of b action confirmed seen) s)

  held_then : Option LeaseError → SessionBroker W → Reply DispatchOutcome → Reply DispatchOutcome
  held_then (some e) b next = (err (from_lease e), b)
  held_then none b next = next

  unfoldable pub human_action : SessionBroker W → ℕ → String → Action → Reply DispatchOutcome
  unfolding held_then perform
  human_action b now id action =
      if not (is_state b.lease.state human_control)
      then (err (no_operator_holds b.lease.state), b)
      else held_then (Lease.assert_held b.lease now human b.lease.epoch) b (
          if is_raw_input action && not (is_some b.handoff)
          then (err raw_input_needs_handoff, b)
          else perform b id action false)

  confirmed_note : Action → Reply DispatchOutcome → Reply DispatchOutcome
  confirmed_note action (err e, b) = (err e, b)
  confirmed_note action (ok o, b) = (
    ok o,
    log_event Bus.note human b.lease.epoch
        (field "note"
          (str "operator confirmed an action policy would not permit automation to take")
          (field "action_type" (str (action_type action)) end))
        b,
  )

  unfoldable pub confirm_action : SessionBroker W → ℕ → String → Action → Reply DispatchOutcome
  unfolding held_then confirmed_note perform
  confirm_action b now id action =
      held_then (Lease.assert_held b.lease now human b.lease.epoch) b
        (confirmed_note action (perform b id action true))

  delta_of : Option UiSnapshot → Option UiSnapshot → Option HumanDelta
  delta_of (some before) (some after) = some (diff_snapshots before after)
  delta_of _ _ = none

  delta_text : SessionBroker W → Option HumanDelta → String
  delta_text b none = "not captured"
  delta_text b (some delta) = redacted b (texts.summary delta)

  delta_json : Option HumanDelta → Json
  delta_json none = null
  delta_json (some delta) = str (texts.summary delta)

  -- After the lease is released: the queue is told, and then the evidence.
  queue_released :
      SessionBroker W
      → HandoffRecord
      → ℕ
      → Option HumanDelta
      → Result QueueError InterventionQueue
      → Reply (Option HumanDelta)
  unfolding delta_json
  queue_released b h epoch delta (err e) = (err (from_queue e), b)
  queue_released b h epoch delta (ok q) = (
    ok delta,
    log_event Bus.lease human epoch
        (field "transition" (str "released") (
          field "operator" (str h.operator) (
            field "human_actions" (num h.actions) (
              field "human_delta" (delta_json delta)
                (field "values_changed" (arr (values_changed_of delta)) end)))))
        (record b { queue = q }),
  )

  lease_released :
      SessionBroker W
      → ℕ
      → HandoffRecord
      → Option UiSnapshot
      → Result LeaseError (Lease × ℕ)
      → Reply (Option HumanDelta)
  unfolding queue_released delta_of noted_handoff delta_text
  lease_released b now h after (err e) = (err (from_lease e), b)
  lease_released b now h after (ok (l, epoch)) =
      let delta = delta_of h.snapshot_before after in
      queue_released (record b { lease = l; handoff = some (noted_handoff h delta after) }) h epoch
        delta (Queue.release b.queue now h.intervention_id h.actions (delta_text b delta))

  release_handoff :
      SessionBroker W → ℕ → Option HandoffRecord → Option UiSnapshot → Reply (Option HumanDelta)
  unfolding lease_released
  release_handoff b now none after = (err no_handoff, b)
  release_handoff b now (some h) after = lease_released b now h after (Lease.release b.lease)

  unfoldable pub release : SessionBroker W → ℕ → Option UiSnapshot → Reply (Option HumanDelta)
  unfolding release_handoff
  release b now after = release_handoff b now b.handoff after

  swept : SessionBroker W → ℕ → Option String → Result QueueError InterventionQueue → Reply Bool
  swept b epoch who (err e) = (err (from_queue e), b)
  swept b epoch who (ok q) = (
    ok true,
    log_event Bus.lease system epoch
        (field "transition" (str "hold expired") (field "operator" (text_json who) end))
        (record b { queue = q; handoff = none }),
  )

  lease_reclaimed : SessionBroker W → String → Result LeaseError (Lease × ℕ) → Reply Bool
  unfolding swept abandoned_queue
  lease_reclaimed b note (err e) = (err (from_lease e), b)
  lease_reclaimed b note (ok (l, epoch)) =
      swept (record b { lease = l }) epoch b.lease.operator (abandoned_queue b.queue b.handoff note)

  unfoldable pub sweep : SessionBroker W → ℕ → String → Reply Bool
  unfolding lease_reclaimed
  sweep b now note =
      if not (Lease.expired b.lease now)
      then (ok false, b)
      else lease_reclaimed b note (Lease.reclaim_expired b.lease now)

  queue_resolved : SessionBroker W → ℕ → Result QueueError InterventionQueue → Reply ℕ
  queue_resolved b epoch (err e) = (err (from_queue e), b)
  queue_resolved b epoch (ok q) = (
    ok epoch,
    log_event Bus.lease automation epoch (field "transition" (str "resumed") end)
        (record b { queue = q }),
  )

  lease_resumed : SessionBroker W → Result LeaseError (Lease × ℕ) → Reply ℕ
  unfolding queue_resolved resolved_queue
  lease_resumed b (err e) = (err (from_lease e), b)
  lease_resumed b (ok (l, epoch)) =
      queue_resolved (record b { lease = l }) epoch (resolved_queue b.queue b.handoff)

  unfoldable pub resume : SessionBroker W → Reply ℕ
  unfolding lease_resumed
  resume b = lease_resumed b (Lease.resume b.lease)
