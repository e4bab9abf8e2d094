-- ===== src/Policy/Engine.antt =====
-- src/cua/policy/engine.py and authorized.py: the one place that mints an authorized action. The id
-- of the decision, which the program draws at random, is an argument.
pub mod Permit
pub mod Token
use computer_use_automation.Base.{
  ℕ, String, Bool, true, false, ◌&&◌, ◌||◌, not, Option, none, some, List, [], ◌∷◌, mem, is_empty,
  or_else, is_some, if◌then◌else◌, ◌==◌,
}
use computer_use_automation.Domain.Actor.{Actor, human, is_actor}
use computer_use_automation.Domain.Snapshot.{UiNode}
use computer_use_automation.Domain.Capability.{Capability}
use computer_use_automation.Domain.Binding.{Derivation}
use computer_use_automation.Domain.Action.{
  Action, ActionRisk, safe, is_risk, action_type, url_of, human_only_actions,
}
use computer_use_automation.Policy.Config.{
  ActionPolicy, PolicyConfig, DispositionValue, allow, allow_if_declared, allow_if_approved,
  require_confirmation, block_and_escalate, disposition_for,
}
use computer_use_automation.Policy.Allowlist.{
  UrlHost, UrlRefusal, UrlVerdict, allowed, refused, raised, check,
}
use computer_use_automation.Policy.Risk.{RiskAssessment, classify}
use computer_use_automation.Policy.Irreversible.{
  IrreversibleGrant, GrantRefusal, Basis, refusal, basis,
}

pub record AuthorizedAction : Type 0 where
  pub action : Action
  pub actor : Actor
  pub session_id : String
  pub lease_epoch : ℕ
  pub decision_id : String
  pub risk : ActionRisk
  pub resolved_node_id : Option String
  pub requires_confirm : Bool

-- `with_resolution`
unfoldable pub with_resolution : AuthorizedAction → String → AuthorizedAction
with_resolution a node_id = record a { resolved_node_id = some node_id }

-- `Outcome` of a decision.
pub data Verdict : Type 0 where
  allowing denying confirming : Verdict

abbrev pub is_allowing : Verdict → Bool
is_allowing allowing = true
is_allowing _ = false

-- The reasons, before they are formatted.
pub data Reason : Type 0 where
  only_human type_not_permitted outside_declared_actions : Reason
  navigation_refused : UrlRefusal → Reason
  requires_human not_declared needs_confirmation not_declared_so_not_approved : Reason
  declared_at : ActionRisk → Reason
  no_capability_or_grant : Reason
  grant_refused : GrantRefusal → Reason
  as_assessed : Reason

pub record PolicyDecision : Type 0 where
  pub outcome : Verdict
  pub decision_id : String
  pub risk : RiskAssessment
  pub reason : Reason
  pub actor : Actor
  pub authorized : Option AuthorizedAction
  pub approved_under : Option Basis
  pub navigation_blocked : Bool

-- A decision, or the `ValueError` that a malformed domain of the capability raises.
pub data Authorization : Type 0 where
  decided : PolicyDecision → Authorization
  crashed : Authorization

-- The arguments of `authorize`.
pub record Attempt : Type 0 where
  pub action : Action
  pub actor : Actor
  pub session_id : String
  pub lease_epoch : ℕ
  pub target : Option UiNode
  pub capability : Option Capability
  pub declared_risk : Option ActionRisk
  pub confirmed : Bool
  pub grant : Option IrreversibleGrant

-- What the engine needs from outside.
pub record PolicyHost : Type 0 where
  pub url : UrlHost
  pub derivation : Derivation

abbrev pub baseline : RiskAssessment
baseline = record { tier = safe; signals = [] }

denial : String → Actor → Reason → RiskAssessment → Bool → PolicyDecision
denial id actor reason risk blocked = record {
  outcome = denying;
  decision_id = id;
  risk = risk;
  reason = reason;
  actor = actor;
  authorized = none;
  approved_under = none;
  navigation_blocked = blocked;
}

abbrev node_id_of : Option UiNode → Option String
node_id_of none = none
node_id_of (some n) = some n.node_id

-- The final `return`, which mints the token.
mint : String → Attempt → RiskAssessment → Bool → Option Basis → PolicyDecision
mint id r risk confirm under = record {
  outcome = allowing;
  decision_id = id;
  risk = risk;
  reason = as_assessed;
  actor = r.actor;
  authorized = some (record {
    action = r.action;
    actor = r.actor;
    session_id = r.session_id;
    lease_epoch = r.lease_epoch;
    decision_id = id;
    risk = risk.tier;
    resolved_node_id = node_id_of r.target;
    requires_confirm = confirm;
  });
  approved_under = under;
  navigation_blocked = false;
}

unfoldable pub globally_denied : ActionPolicy → Actor → String → Bool
globally_denied p actor type_name =
    not (is_empty p.allowed)
    && not (mem type_name p.allowed)
    && (not (mem type_name p.human_only) || not (is_actor actor human))

abbrev pub allowed_actions_of : Option Capability → List String
allowed_actions_of none = []
allowed_actions_of (some c) = c.policy.allowed_actions

abbrev pub allowed_domains_of : Option Capability → List String
allowed_domains_of none = []
allowed_domains_of (some c) = c.policy.allowed_domains

-- `(declared_risk or action.risk) is risk.tier`
abbrev pub declared_as : Option ActionRisk → ActionRisk → Bool
declared_as none tier = false
declared_as (some t) tier = is_risk t tier

-- The token of an authorization, if it mints one.
abbrev pub minted : Authorization → Option AuthorizedAction
minted crashed = none
minted (decided d) = d.authorized

module _ (host : PolicyHost) (config : PolicyConfig) where
  granted :
      String
      → Attempt
      → RiskAssessment
      → Capability
      → IrreversibleGrant
      → Option GrantRefusal
      → PolicyDecision
  unfolding denial mint
  granted id r risk c g (some why) = denial id r.actor (grant_refused why) risk false
  granted id r risk c g none = mint id r risk false (some (basis g c))

  with_grant :
      String
      → Attempt
      → RiskAssessment
      → Option Capability
      → Option IrreversibleGrant
      → PolicyDecision
  unfolding granted
  with_grant id r risk (some c) (some g) =
      granted id r risk c g (refusal host.derivation g c config.replay_gates)
  with_grant id r risk _ _ = denial id r.actor no_capability_or_grant risk false

  declared_gate : String → Attempt → RiskAssessment → Option ActionRisk → PolicyDecision
  unfolding denial mint
  declared_gate id r risk none = denial id r.actor not_declared risk false
  declared_gate id r risk (some t) =
      if not (is_risk t risk.tier)
      then denial id r.actor (declared_at t) risk false
      else mint id r risk false none

  -- What follows the classification, for each value of the disposition.
  dispose : String → Attempt → RiskAssessment → DispositionValue → PolicyDecision
  unfolding with_grant declared_gate
  dispose id r risk block_and_escalate = denial id r.actor requires_human risk false
  dispose id r risk allow_if_declared =
      declared_gate id r risk (or_else r.declared_risk r.action.risk)
  dispose id r risk require_confirmation =
      if not r.confirmed
      then record (denial id r.actor needs_confirmation risk false) { outcome = confirming }
      else mint id r risk true none
  dispose id r risk allow_if_approved =
      if not (declared_as (or_else r.declared_risk r.action.risk) risk.tier)
      then denial id r.actor not_declared_so_not_approved risk false
      else with_grant id r risk r.capability r.grant
  dispose id r risk allow = mint id r risk false none

  pub assess : Attempt → RiskAssessment
  assess r = classify host.url.lower config.risk r.action r.target r.declared_risk

  abbrev pub verdict_on : Option String → List String → UrlVerdict
  verdict_on none extra = allowed
  verdict_on (some url) extra = check host.url config.allowlist extra url

  after_navigation : String → Attempt → UrlVerdict → Authorization
  unfolding dispose assess
  after_navigation id r raised = crashed
  after_navigation id r (refused why) =
      decided (denial id r.actor (navigation_refused why) baseline true)
  after_navigation id r allowed =
      let risk = assess r in decided (dispose id r risk (disposition_for config r.actor risk.tier))

  unfoldable pub authorize : String → Attempt → Authorization
  unfolding after_navigation globally_denied
  authorize id r =
      if mem (action_type r.action) human_only_actions && not (is_actor r.actor human)
      then decided (denial id r.actor only_human baseline false)
      else if globally_denied config.actions r.actor (action_type r.action)
      then decided (denial id r.actor type_not_permitted baseline false)
      else if not (is_empty (allowed_actions_of r.capability))
          && not (mem (action_type r.action) (allowed_actions_of r.capability))
      then decided (denial id r.actor outside_declared_actions baseline false)
      else after_navigation id r (verdict_on (url_of r.action) (allowed_domains_of r.capability))
