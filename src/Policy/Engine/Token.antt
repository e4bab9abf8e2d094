-- ===== src/Policy/Engine/Token.antt =====
-- src/cua/policy/engine.py and authorized.py: what the minted action says.
use computer_use_automation.Base.{
  String, ◌≡◌, Bool, true, false, Option, none, some, arith, is_some, if◌then◌else◌,
}
use computer_use_automation.Domain.Action.{ActionRisk, url_of}
use computer_use_automation.Domain.Capability.{Capability}
use computer_use_automation.Policy.Config.{
  PolicyConfig, DispositionValue, allow, allow_if_declared, allow_if_approved, require_confirmation,
  block_and_escalate, disposition_for,
}
use computer_use_automation.Policy.Allowlist.{UrlVerdict, allowed, refused, raised}
use computer_use_automation.Policy.Risk.{RiskAssessment}
use computer_use_automation.Policy.Irreversible.{IrreversibleGrant}
use computer_use_automation.Policy.Engine.{
  PolicyHost, Attempt, PolicyDecision, Authorization, AuthorizedAction, decided, crashed, minted,
  is_allowing, authorize, after_navigation, assess, dispose, verdict_on, allowed_domains_of,
  with_grant, node_id_of, denial, Reason, only_human, type_not_permitted, outside_declared_actions,
  navigation_refused, baseline,
}

-- The token repeats the attempt, at the assessed tier.
pub record IsTokenOf (id : String) (r : Attempt) (tier : ActionRisk) (a : AuthorizedAction)
    : Type 0 where
  pub same_action : a.action ≡ r.action
  pub same_actor : a.actor ≡ r.actor
  pub same_session : a.session_id ≡ r.session_id
  pub same_epoch : a.lease_epoch ≡ r.lease_epoch
  pub same_decision : a.decision_id ≡ id
  pub assessed : a.risk ≡ tier
  pub same_node : a.resolved_node_id ≡ node_id_of r.target

-- A decision bears its id and its actor, and allows exactly where it mints.
pub record IsCoherent (id : String) (r : Attempt) (d : PolicyDecision) : Type 0 where
  pub bears_id : d.decision_id ≡ id
  pub bears_actor : d.actor ≡ r.actor
  pub allows_minted : is_allowing d.outcome ≡ is_some d.authorized

module _ (host : PolicyHost) (config : PolicyConfig) (id : String) (r : Attempt) where
  grant_token :
      (risk : RiskAssessment) (c : Option Capability) (g : Option IrreversibleGrant)
      {a : AuthorizedAction}
      → (with_grant host config id r risk c g).authorized ≡ some a
      → IsTokenOf id r risk.tier a
  unfolding authorize
  grant_token risk (some c) (some g) h = ground arith
  grant_token risk none g h = absurd (ground arith)
  grant_token risk (some c) none h = absurd (ground arith)

  dispose_token :
      (risk : RiskAssessment) (v : DispositionValue) {a : AuthorizedAction}
      → (dispose host config id r risk v).authorized ≡ some a
      → IsTokenOf id r risk.tier a
  unfolding authorize
  dispose_token risk allow h = ground arith
  dispose_token risk allow_if_declared h = ground arith
  dispose_token risk require_confirmation h = ground arith
  dispose_token risk block_and_escalate h = absurd (ground arith)
  dispose_token risk allow_if_approved h = grant_token risk r.capability r.grant (ground arith)

  navigation_token :
      (u : UrlVerdict) {a : AuthorizedAction}
      → minted (after_navigation host config id r u) ≡ some a
      → IsTokenOf id r (assess host config r).tier a
  unfolding authorize
  navigation_token allowed h =
      dispose_token (assess host config r)
        (disposition_for config r.actor (assess host config r).tier) h
  navigation_token (refused why) h = absurd (ground arith)
  navigation_token raised h = absurd (ground arith)

  -- A minted action is the one attempted, by its actor, in its session, under its lease epoch and
  -- with the id of the decision; its risk is the assessed tier, not the annotated one, and its node
  -- is the target's.
  pub authorize-IsTokenOf :
      {a : AuthorizedAction}
      → minted (authorize host config id r) ≡ some a
      → IsTokenOf id r (assess host config r).tier a
  unfolding authorize
  authorize-IsTokenOf h =
      navigation_token (verdict_on host config (url_of r.action) (allowed_domains_of r.capability))
        (ground arith)

  grant-IsCoherent :
      (risk : RiskAssessment) (c : Option Capability) (g : Option IrreversibleGrant)
      → IsCoherent id r (with_grant host config id r risk c g)
  unfolding authorize
  grant-IsCoherent risk (some c) (some g) = ground arith
  grant-IsCoherent risk none g = ground arith
  grant-IsCoherent risk (some c) none = ground arith

  dispose-IsCoherent :
      (risk : RiskAssessment) (v : DispositionValue)
      → IsCoherent id r (dispose host config id r risk v)
  unfolding authorize
  dispose-IsCoherent risk allow = ground arith
  dispose-IsCoherent risk allow_if_declared = ground arith
  dispose-IsCoherent risk require_confirmation = ground arith
  dispose-IsCoherent risk block_and_escalate = ground arith
  dispose-IsCoherent risk allow_if_approved =
      ground (arith, grant-IsCoherent risk r.capability r.grant)

  pub CoherentIn : Authorization → Type 0
  CoherentIn crashed = Unit
  CoherentIn (decided d) = IsCoherent id r d

  CoherentIn-if :
      (b : Bool) (x y : Authorization)
      → CoherentIn x
      → CoherentIn y
      → CoherentIn (if b then x else y)
  CoherentIn-if true x y p q = p
  CoherentIn-if false x y p q = q

  CoherentIn-denial :
      (why : Reason) (risk : RiskAssessment) (blocked : Bool)
      → CoherentIn (decided (denial id r.actor why risk blocked))
  unfolding CoherentIn authorize
  CoherentIn-denial why risk blocked = ground arith

  navigation-CoherentIn : (u : UrlVerdict) → CoherentIn (after_navigation host config id r u)
  unfolding CoherentIn authorize
  navigation-CoherentIn allowed =
      dispose-IsCoherent (assess host config r)
        (disposition_for config r.actor (assess host config r).tier)
  navigation-CoherentIn (refused why) = CoherentIn-denial (navigation_refused why) baseline true
  navigation-CoherentIn raised = tt

  -- Whatever is decided bears the id and the actor of the attempt, and allows exactly where it mints.
  pub authorize-CoherentIn : CoherentIn (authorize host config id r)
  unfolding authorize
  authorize-CoherentIn = CoherentIn-if _ _ _ (CoherentIn-denial only_human baseline false) (
      CoherentIn-if _ _ _ (CoherentIn-denial type_not_permitted baseline false) (
        CoherentIn-if _ _ _ (CoherentIn-denial outside_declared_actions baseline false) (
          navigation-CoherentIn
            (verdict_on host config (url_of r.action) (allowed_domains_of r.capability)))))

  pub decided-IsCoherent :
      {d : PolicyDecision} → authorize host config id r ≡ decided d → IsCoherent id r d
  unfolding CoherentIn
  decided-IsCoherent h = rw h at authorize-CoherentIn
