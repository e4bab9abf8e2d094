-- ===== src/Evidence/Bus.antt =====
-- src/cua/evidence/bus.py: the append-only trace of a run, and the reconciliation of dispatches
-- with authorizations. Files and the time stamp of an event are left out: the trace is the list of
-- the events written, which is what `read_events` reads back.
pub mod Reconcile
use computer_use_automation.Base.{
  ℕ, ◌+◌, String, Bool, true, false, ◌&&◌, not, Option, List, [], ◌∷◌, ◌++◌, keep, any, map,
}
use computer_use_automation.Domain.Actor.{Actor}
use computer_use_automation.Evidence.Json.{Json, Fields, get, truthy, same}
use computer_use_automation.Evidence.Redact.{RedactHost, Redactor, structure_fields}

pub data EventType : Type 0 where
  run_start observe authorize resolve dispatch classify recovery escalate lease llm_call run_end
        note :
      EventType

abbrev pub is_authorize : EventType → Bool
is_authorize authorize = true
is_authorize _ = false

abbrev pub is_dispatch : EventType → Bool
is_dispatch dispatch = true
is_dispatch _ = false

pub record Event : Type 0 where
  pub seq : ℕ
  pub run_id : String
  pub event : EventType
  pub actor : Actor
  pub lease_epoch : ℕ
  pub payload : Fields

pub record EvidenceBus : Type 0 where
  pub run_id : String
  pub redactor : Redactor
  pub sensitive_keys : List String
  pub sequence : ℕ
  pub trace : List Event

-- The record that `emit` writes: redacted on the way in.
abbrev pub event_of : RedactHost → EvidenceBus → EventType → Actor → ℕ → Fields → Event
event_of host b event actor lease_epoch payload = record {
  seq = b.sequence + 1;
  run_id = b.run_id;
  event = event;
  actor = actor;
  lease_epoch = lease_epoch;
  payload = structure_fields host b.redactor b.sensitive_keys payload;
}

unfoldable pub emit : RedactHost → EvidenceBus → EventType → Actor → ℕ → Fields → EvidenceBus
emit host b event actor lease_epoch payload = record b {
  sequence = b.sequence + 1;
  trace = b.trace ++ event_of host b event actor lease_epoch payload ∷ [];
}

abbrev pub grants : Event → Bool
grants e = is_authorize e.event && truthy (get "granted" e.payload)

abbrev pub decision_of : Event → Option Json
decision_of e = get "decision_id" e.payload

unfoldable pub authorized_ids : List Event → List (Option Json)
authorized_ids events = map decision_of (keep grants events)

unfoldable pub is_unauthorized : List (Option Json) → Event → Bool
is_unauthorized ids e =
    is_dispatch e.event
    && not (truthy (get "refused" e.payload))
    && not (any (same (decision_of e)) ids)

unfoldable pub unauthorized_dispatches : List Event → List Event
unfolding authorized_ids is_unauthorized
unauthorized_dispatches events = keep (is_unauthorized (authorized_ids events)) events
