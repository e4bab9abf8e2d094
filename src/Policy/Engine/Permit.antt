-- ===== src/Policy/Engine/Permit.antt =====
-- src/cua/policy/engine.py: what an authorized action has passed.
use computer_use_automation.Base.{
  String, ◌≡◌, ◌↔◌, refl, true, false, ◌&&◌, not, Option, none, some, arith, mem, is_empty, is_some,
  or_else, List, [], ◌∷◌, ◌⊎◌, inl, inr, Bool-cases,
}
use computer_use_automation.Domain.Actor.{Actor, human, is_actor}
use computer_use_automation.Domain.Action.{ActionRisk, action_type, url_of, human_only_actions}
use computer_use_automation.Domain.Capability.{Capability}
use computer_use_automation.Policy.Config.{
  PolicyConfig, ActionPolicy, DispositionValue, allow, allow_if_declared, allow_if_approved,
  require_confirmation, block_and_escalate, disposition_for,
}
use computer_use_automation.Policy.Allowlist.{UrlVerdict, allowed, refused, raised}
use computer_use_automation.Policy.Risk.{RiskAssessment}
use computer_use_automation.Policy.Irreversible.{IrreversibleGrant, refusal}
use computer_use_automation.Policy.Engine.{
  PolicyHost, Attempt, minted, authorize, after_navigation, assess, dispose, globally_denied,
  allowed_actions_of, allowed_domains_of, verdict_on, declared_as, with_grant,
}

-- The list of allowed types is empty or has the type, or the type is for people and a person acts.
abbrev pub AllowsType : ActionPolicy → Actor → String → Type 0
AllowsType p actor name =
    (p.allowed ≡ [])
    ⊎ ((mem name p.allowed ≡ true)
        ⊎ ((mem name p.human_only ≡ true) × (is_actor actor human ≡ true)))

is_empty-cases : (names : List String) → (names ≡ []) ⊎ (is_empty names ≡ false)
is_empty-cases [] = inl refl
is_empty-cases (n ∷ ns) = inr refl

globally_denied-AllowsType :
    (p : ActionPolicy) (actor : Actor) (name : String)
    → globally_denied p actor name ≡ false
    → AllowsType p actor name
unfolding globally_denied
globally_denied-AllowsType p actor name h = elim (is_empty-cases p.allowed) [
  | inl e ↦ inl e
  | inr some_type ↦ elim (Bool-cases (mem name p.allowed)) [
    | inl e ↦ inr (inl e)
    | inr missing ↦ inr (inr (ground arith, ground arith))
  ]
]

AllowsType-globally_denied :
    (p : ActionPolicy) (actor : Actor) (name : String)
    → AllowsType p actor name
    → globally_denied p actor name ≡ false
unfolding globally_denied
AllowsType-globally_denied p actor name (inl e) = rw e refl
AllowsType-globally_denied p actor name (inr (inl e)) = ground arith
AllowsType-globally_denied p actor name (inr (inr (e, f))) = ground arith

module _ (host : PolicyHost) (config : PolicyConfig) where
  -- What the disposition asks of an attempt at an assessed tier.
  pub Clears : DispositionValue → Attempt → ActionRisk → Type 0
  Clears allow r tier = Unit
  Clears allow_if_declared r tier = declared_as (or_else r.declared_risk r.action.risk) tier ≡ true
  Clears allow_if_approved r tier =
      (declared_as (or_else r.declared_risk r.action.risk) tier ≡ true)
      × ((c : Capability) × (g : IrreversibleGrant) × (r.capability ≡ some c)
          × (r.grant ≡ some g)
          × (refusal host.derivation g c config.replay_gates ≡ none))
  Clears require_confirmation r tier = r.confirmed ≡ true
  Clears block_and_escalate r tier = ⊥

  pub record IsPermitted (r : Attempt) : Type 0 where
    pub originated :
        (mem (action_type r.action) human_only_actions && not (is_actor r.actor human)) ≡ false
    pub type_allowed : AllowsType config.actions r.actor (action_type r.action)
    pub anticipated :
        (not (is_empty (allowed_actions_of r.capability))
          && not (mem (action_type r.action) (allowed_actions_of r.capability)))
        ≡ false
    pub destination :
        verdict_on host config (url_of r.action) (allowed_domains_of r.capability) ≡ allowed
    pub cleared :
        Clears
          (disposition_for config r.actor (assess host config r).tier)
          r
          (assess host config r).tier

  clears_of_grant :
      (id : String) (r : Attempt) (risk : RiskAssessment) (c : Option Capability)
      (g : Option IrreversibleGrant)
      → r.capability ≡ c
      → r.grant ≡ g
      → is_some (with_grant host config id r risk c g).authorized ≡ true
      → (x : Capability) × (y : IrreversibleGrant) × (r.capability ≡ some x)
        × (r.grant ≡ some y)
        × (refusal host.derivation y x config.replay_gates ≡ none)
  unfolding authorize
  clears_of_grant id r risk (some c) (some g) e f h = (c, g, e, f, ground arith)
  clears_of_grant id r risk none g e f h = absurd (ground arith)
  clears_of_grant id r risk (some c) none e f h = absurd (ground arith)

  dispose_cleared :
      (id : String) (r : Attempt) (risk : RiskAssessment) (v : DispositionValue)
      → is_some (dispose host config id r risk v).authorized ≡ true
      → Clears v r risk.tier
  unfolding authorize Clears
  dispose_cleared id r risk allow h = tt
  dispose_cleared id r risk allow_if_declared h = ground arith
  dispose_cleared id r risk require_confirmation h = ground arith
  dispose_cleared id r risk block_and_escalate h = ground arith
  dispose_cleared id r risk allow_if_approved h =
      (ground arith, clears_of_grant id r risk r.capability r.grant refl refl (ground arith))

  cleared_disposed :
      (id : String) (r : Attempt) (risk : RiskAssessment) (v : DispositionValue)
      → Clears v r risk.tier
      → is_some (dispose host config id r risk v).authorized ≡ true
  unfolding authorize Clears
  cleared_disposed id r risk allow h = refl
  cleared_disposed id r risk allow_if_declared h = ground arith
  cleared_disposed id r risk require_confirmation h = ground arith
  cleared_disposed id r risk block_and_escalate h = absurd h
  cleared_disposed id r risk allow_if_approved (d, (c, g, e, f, n)) = rw (d, e, f, n)

  destination_of :
      (id : String) (r : Attempt) (u : UrlVerdict)
      → is_some (minted (after_navigation host config id r u)) ≡ true
      → (u ≡ allowed)
        × Clears
            (disposition_for config r.actor (assess host config r).tier)
            r
            (assess host config r).tier
  unfolding authorize
  destination_of id r allowed h = (
    refl,
    dispose_cleared id r (assess host config r)
        (disposition_for config r.actor (assess host config r).tier) h,
  )
  destination_of id r (refused why) h = absurd (ground arith)
  destination_of id r raised h = absurd (ground arith)

  permitted :
      (id : String) (r : Attempt)
      → is_some (minted (authorize host config id r)) ≡ true
      → IsPermitted r
  unfolding authorize
  permitted id r h =
      let u = verdict_on host config (url_of r.action) (allowed_domains_of r.capability) in
      let (reached, cleared) = destination_of id r u (ground arith) in
      record {
        originated = ground arith;
        type_allowed =
            globally_denied-AllowsType config.actions r.actor (action_type r.action) (ground arith);
        anticipated = ground arith;
        destination = reached;
        cleared = cleared;
      }

  authorized_of :
      (id : String) (r : Attempt)
      → IsPermitted r
      → is_some (minted (authorize host config id r)) ≡ true
  unfolding authorize
  authorized_of id r p =
      let types =
        AllowsType-globally_denied config.actions r.actor (action_type r.action) p.type_allowed in
      rw (p.originated, types, p.anticipated, p.destination)
        (cleared_disposed id r (assess host config r)
          (disposition_for config r.actor (assess host config r).tier) p.cleared)

  -- Policy mints an authorized action exactly for a permitted attempt: a human-only action comes from
  -- a human; the policy lists no allowed types, or lists the action's, or lists it for people and a
  -- person acts; the capability anticipates the type if it lists any; a navigation's destination is
  -- allowed; and the disposition of the actor at the assessed tier is cleared: the tier is declared
  -- where that is asked, or confirmed where that is, or declared with a capability and a grant that the
  -- gates do not refuse, and never where it blocks.
  pub authorize-iff-IsPermitted :
      (id : String) (r : Attempt)
      → (is_some (minted (authorize host config id r)) ≡ true) ↔ IsPermitted r
  authorize-iff-IsPermitted id r = (permitted id r, authorized_of id r)
