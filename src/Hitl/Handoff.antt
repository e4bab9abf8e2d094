-- ===== src/Hitl/Handoff.antt =====
-- src/cua/hitl/broker.py: what a `SessionBroker` keeps, and the parts of its methods that need neither
-- the dispatcher nor the evidence.
use computer_use_automation.Base.{
  ℕ, ◌+◌, String, Option, none, some, List, [], ◌∷◌, insert, Result, ok,
}
use computer_use_automation.Domain.Snapshot.{UiSnapshot}
use computer_use_automation.Evidence.Json.{Json, Items, Fields, str, null, nil, cons, field, end}
use computer_use_automation.Hitl.Lease as Lease
use computer_use_automation.Hitl.Lease.{
  Lease, LeaseError, Duration, ControlState, human_control, is_state,
}
use computer_use_automation.Hitl.Intervention as Queue
use computer_use_automation.Hitl.Intervention.{
  InterventionQueue, InterventionRequest, QueueError, open_state,
}
use computer_use_automation.Hitl.Reanchor.{HumanDelta}
use computer_use_automation.Runtime.Command.{Session}

pub record HandoffRecord : Type 0 where
  pub intervention_id : String
  pub operator : String
  pub actions : ℕ
  pub delta : Option HumanDelta
  pub snapshot_before : Option UiSnapshot
  pub snapshot_after : Option UiSnapshot

pub record SessionBroker (W : Type 0) : Type 0 where
  pub session_id : String
  pub session : Session W
  pub lease : Lease
  pub queue : InterventionQueue
  pub handoff : Option HandoffRecord
  pub pending_before : Option UiSnapshot

pub data BrokerError : Type 0 where
  from_lease : LeaseError → BrokerError
  from_queue : QueueError → BrokerError
  -- the broker's own `LeaseError`s
  no_operator_holds : ControlState → BrokerError
  raw_input_needs_handoff no_handoff : BrokerError
  -- the `ValueError` of a malformed domain, out of the dispatcher
  dispatch_raised : BrokerError

-- `SessionBroker(session_id=..., evidence=..., dispatch=...)`
unfoldable pub new_broker : {W : Type 0} → String → Session W → SessionBroker W
new_broker session_id session = record {
  session_id = session_id;
  session = session;
  lease = Lease.new session_id;
  queue = [];
  handoff = none;
  pending_before = none;
}

-- What the broker formats: `HumanDelta.summary` and `str(evidence.run_dir)`.
pub record BrokerTexts : Type 0 where
  pub summary : HumanDelta → String
  pub run_dir : String

-- The arguments of `escalate`.
pub record Escalation : Type 0 where
  pub run_id : String
  pub capability_ref : String
  pub goal : String
  pub reason : String
  pub step_id : Option String
  pub failure_code : Option String
  pub snapshot : Option UiSnapshot
  pub snapshot_ref : Option String
  pub screenshot_ref : Option String

abbrev pub text_json : Option String → Json
text_json none = null
text_json (some s) = str s

abbrev pub escalate_payload : String → Escalation → Fields
escalate_payload id x = field "intervention" (str id) (
    field "reason" (str x.reason)
      (field "step" (text_json x.step_id) (field "failure_code" (text_json x.failure_code) end)))

abbrev pub edited_nodes : List (String × (String × String)) → Items
edited_nodes [] = nil
edited_nodes ((node, was) ∷ rest) = cons (str node) (edited_nodes rest)

abbrev pub values_changed_of : Option HumanDelta → Items
values_changed_of none = nil
values_changed_of (some delta) = edited_nodes delta.values_changed

-- `{**request, state, operator, claimed_at = prior}`
abbrev pub put_back :
    InterventionQueue
    → String
    → Option InterventionRequest
    → Option InterventionRequest
    → InterventionQueue
put_back q id (some prior) (some now) =
    insert id
      (record now { state = prior.state; operator = prior.operator; claimed_at = prior.claimed_at })
      q
put_back q id _ _ = q

abbrev pub count_action : Option HandoffRecord → Option HandoffRecord
count_action none = none
count_action (some h) = some (record h { actions = h.actions + 1 })

unfoldable pub noted_handoff : HandoffRecord → Option HumanDelta → Option UiSnapshot → HandoffRecord
noted_handoff h none after = h
noted_handoff h (some delta) after = record h { delta = some delta; snapshot_after = after }

-- The note that the abandoned request gets names the operator; its text is formatted.
unfoldable pub abandoned_queue :
    InterventionQueue → Option HandoffRecord → String → Result QueueError InterventionQueue
abandoned_queue q none note = ok q
abandoned_queue q (some h) note = Queue.abandon q h.intervention_id note

unfoldable pub resolved_queue :
    InterventionQueue → Option HandoffRecord → Result QueueError InterventionQueue
resolved_queue q none = ok q
resolved_queue q (some h) = Queue.resolve q h.intervention_id "automation resumed"
