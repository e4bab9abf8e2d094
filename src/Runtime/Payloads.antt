-- ===== src/Runtime/Payloads.antt =====
-- src/cua/runtime/dispatcher.py: the payloads of the events that a dispatch emits, key by key. Texts
-- that are formatted for people come from a `Printer`.
use computer_use_automation.Base.{ℕ, String, Bool, true, false, Option, none, some, length}
use computer_use_automation.Domain.Snapshot.{UiNode, UiSnapshot}
use computer_use_automation.Domain.Action.{
  Action, ActionRisk, safe, elevated, irreversible, action_type,
}
use computer_use_automation.Domain.Target.{TargetDescriptor, ResolutionStrategy}
use computer_use_automation.Policy.Allowlist.{UrlRefusal}
use computer_use_automation.Policy.Irreversible.{Basis}
use computer_use_automation.Policy.Risk.{RiskAssessment}
use computer_use_automation.Policy.Engine.{
  PolicyDecision, Reason, Verdict, allowing, denying, confirming, is_allowing, AuthorizedAction,
}
use computer_use_automation.Targeting.Resolver.{Resolution, TargetResolutionError}
use computer_use_automation.Evidence.Json.{
  Json, Items, Fields, null, bool, num, str, arr, end, field,
}
use computer_use_automation.Surfaces.{ActionResult}

pub record Printer : Type 0 where
  pub target : TargetDescriptor → String
  pub under_gesture : UiNode → Action → String
  pub strategy : ResolutionStrategy → String
  pub unresolved : TargetResolutionError → String
  pub tried : TargetResolutionError → Items
  pub summaries : TargetResolutionError → Items
  pub ambiguity : TargetResolutionError → Json
  pub signals : RiskAssessment → Items
  pub reason : Reason → String
  pub basis : Basis → String
  pub url_refusal : UrlRefusal → String
  pub snapshot_ref : UiSnapshot → String

abbrev risk_name : ActionRisk → String
risk_name safe = "safe"
risk_name elevated = "elevated"
risk_name irreversible = "irreversible"

abbrev outcome_name : Verdict → String
outcome_name allowing = "allow"
outcome_name denying = "deny"
outcome_name confirming = "require_confirmation"

abbrev text_or_null : Option String → Json
text_or_null none = null
text_or_null (some s) = str s

abbrev number_or_null : Option ℕ → Json
number_or_null none = null
number_or_null (some n) = num n

unfoldable pub stale_payload : ℕ → Fields
stale_payload expected = field "ok" (bool false) (
    field "refused" (bool true)
      (field "reason" (str "stale lease epoch") (field "expected_epoch" (num expected) end)))

module _ (p : Printer) where
  unfoldable pub observe_payload : UiSnapshot → Fields
  observe_payload s = field "url" (str s.url) (
      field "title" (str s.title) (
        field "node_count" (num (length s.nodes)) (
          field "http_status" (number_or_null s.http_status)
            (field "snapshot_ref" (str (p.snapshot_ref s)) end))))

  unfoldable pub unresolved_payload : TargetDescriptor → TargetResolutionError → Fields
  unresolved_payload t e = field "resolved" (bool false) (
      field "target" (str (p.target t)) (
        field "reason" (str (p.unresolved e)) (
          field "strategies_tried" (arr (p.tried e))
            (field "candidates" (arr (p.summaries e)) (field "ambiguity" (p.ambiguity e) end)))))

  unfoldable pub resolved_payload : TargetDescriptor → Resolution → Bool → Fields
  resolved_payload t r drifted = field "resolved" (bool true) (
      field "target" (str (p.target t)) (
        field "node_id" (str r.node.node_id) (
          field "strategy" (str (p.strategy r.strategy)) (
            field "candidates_considered" (num r.candidates_considered)
              (field "drifted" (bool drifted) end)))))

  unfoldable pub gesture_payload : UiNode → Action → Fields
  gesture_payload hit action = field "resolved" (bool true) (
      field "target" (str (p.under_gesture hit action))
        (field "node_id" (str hit.node_id) (field "strategy" (str "raw_input_hit_test") end)))

  approval_field : Option Basis → Fields
  approval_field none = end
  approval_field (some b) = field "approval" (str (p.basis b)) end

  unfoldable pub authorize_payload : PolicyDecision → Action → Fields
  unfolding approval_field
  authorize_payload d action = field "decision_id" (str d.decision_id) (
      field "granted" (bool (is_allowing d.outcome)) (
        field "outcome" (str (outcome_name d.outcome)) (
          field "risk" (str (risk_name d.risk.tier)) (
            field "signals" (arr (p.signals d.risk)) (
              field "reason" (str (p.reason d.reason)) (
                field "action_type" (str (action_type action))
                  (approval_field d.approved_under)))))))

  unfoldable pub left_allowlist_payload : String → UrlRefusal → Action → Bool → Fields
  left_allowlist_payload url why action at_surface =
      field "note" (str "navigation left the allowlist") (
        field "url" (str url) (
          field "reason" (str (p.url_refusal why)) (
            field "action_type" (str (action_type action))
              (field "refused_at_surface" (bool at_surface) end))))

unfoldable pub dispatch_payload : PolicyDecision → Action → AuthorizedAction → ActionResult → Fields
dispatch_payload d action a r = field "decision_id" (str d.decision_id) (
    field "action_type" (str (action_type action)) (
      field "node_id" (text_or_null a.resolved_node_id) (
        field "ok" (bool r.ok_done) (
          field "navigated" (bool r.navigated) (
            field "http_status" (number_or_null r.http_status)
              (field "duration_ms" (num r.duration_ms) (field "message" (str r.message) end)))))))
