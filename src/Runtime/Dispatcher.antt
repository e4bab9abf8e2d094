-- ===== src/Runtime/Dispatcher.antt =====
-- src/cua/runtime/dispatcher.py: resolve, authorize, dispatch, record. The surface is a world `W` that
-- only the driver changes. A result is none where `execute` lets a `ValueError` out: that of a
-- capability's malformed domain. The texts of messages are left out of an outcome; they are in the
-- decision, the resolution error or the result that the outcome carries.
pub mod Untouched
pub mod Reconciled
use computer_use_automation.Base.{
  ℕ, String, Bool, true, false, ◌&&◌, not, Option, none, some, List, [], ◌∷◌, ◌++◌, nat_eq, mem,
  if◌then◌else◌, Result, ok, err, is_empty,
}
use computer_use_automation.Domain.Actor.{Actor, system}
use computer_use_automation.Domain.Snapshot.{UiNode, UiSnapshot}
use computer_use_automation.Domain.Action.{Action, ActionRisk, target_of, is_raw_input}
use computer_use_automation.Domain.Target.{TargetDescriptor}
use computer_use_automation.Domain.Capability.{Capability}
use computer_use_automation.Domain.Result.{
  FailureCode, target_not_found, target_ambiguous, navigation_blocked_code, policy_denied,
  action_failed, lease_lost_code,
}
use computer_use_automation.Policy.Config.{PolicyConfig}
use computer_use_automation.Policy.Allowlist.{
  UrlRefusal, UrlVerdict, allowed, refused, raised, check,
}
use computer_use_automation.Policy.Irreversible.{IrreversibleGrant}
use computer_use_automation.Policy.Engine.{
  PolicyHost, Attempt, PolicyDecision, Authorization, decided, crashed, Verdict, allowing, denying,
  confirming, AuthorizedAction, with_resolution, authorize, allowed_domains_of,
}
use computer_use_automation.Targeting.Resolver.{
  Strategies, TargetResolver, Resolution, TargetResolutionError, is_ambiguous, resolve_with_drift,
}
use computer_use_automation.Evidence.Json.{Fields}
use computer_use_automation.Evidence.Redact.{RedactHost}
use computer_use_automation.Evidence.Bus as Bus
use computer_use_automation.Evidence.Bus.{EvidenceBus, EventType, emit}
use computer_use_automation.Surfaces.{ActionResult, SurfaceDriver}
use computer_use_automation.Runtime.Payloads.{
  Printer, observe_payload, stale_payload, unresolved_payload, resolved_payload, gesture_payload,
  authorize_payload, dispatch_payload, left_allowlist_payload,
}
use computer_use_automation.Runtime.Command.{
  DispatchStatus, DispatchOutcome, Setup, Session, Command, done, unresolved, denied,
  needs_confirmation, failed, lease_lost,
}

abbrev node_of : Option (Resolution × Bool) → Option UiNode → Option UiNode
node_of none hit = hit
node_of (some (x, drifted)) hit = some x.node

abbrev resolution_of : Option (Resolution × Bool) → Option Resolution
resolution_of none = none
resolution_of (some (x, drifted)) = some x

abbrev drift_of : Option (Resolution × Bool) → Bool
drift_of none = false
drift_of (some (x, drifted)) = drifted

-- `dict.fromkeys`: the first of each, in order.
distinct : List String → List String → List String
distinct seen [] = []
distinct seen (u ∷ us) =
    let again = distinct seen us in
    let rest = distinct (u ∷ seen) us in if mem u seen then again else u ∷ rest

abbrev or_url : List String → String → List String
or_url [] url = url ∷ []
or_url (u ∷ us) url = u ∷ us

-- The first destination that the allowlist does not let pass.
pub data Landing : Type 0 where
  inside : Landing
  outside : String → UrlRefusal → Landing
  unreadable : Landing

landing_step : String → UrlVerdict → Landing → Landing
landing_step url allowed rest = rest
landing_step url (refused why) rest = outside url why
landing_step url raised rest = unreadable

unfoldable pub landing : (String → UrlVerdict) → List String → Landing
unfolding landing_step
landing verdict [] = inside
landing verdict (u ∷ us) = landing_step u (verdict u) (landing verdict us)

module _ {W : Type 0} (d : Setup W) where
  abbrev pub log : EventType → Command → Fields → Session W → Session W
  log event c payload s = record s {
    evidence = emit d.redaction s.evidence event c.actor c.lease_epoch payload;
  }

  -- `Dispatcher.observe`: look, and record that we looked.
  unfoldable pub observe : Session W → UiSnapshot × Session W
  observe s =
      let seen = d.driver.observe s.world in
      (
        seen,
        record s {
          evidence =
              emit d.redaction s.evidence Bus.observe system 0 (observe_payload d.printer seen);
        },
      )

  -- The arguments of `authorize`.
  unfoldable pub attempt : Command → Option UiNode → Attempt
  attempt c target = record {
    action = c.action;
    actor = c.actor;
    session_id = c.session_id;
    lease_epoch = c.lease_epoch;
    target = target;
    capability = c.capability;
    declared_risk = c.declared_risk;
    confirmed = c.confirmed;
    grant = c.grant;
  }

  outcome_of :
      DispatchStatus
      → PolicyDecision
      → Option (Resolution × Bool)
      → Option ActionResult
      → Option FailureCode
      → DispatchOutcome
  outcome_of status decision x result code = record {
    status = status;
    decision = some decision;
    resolution = resolution_of x;
    result = result;
    drifted = drift_of x;
    failure_code = code;
    resolution_debug = none;
  }

  -- Step 4: where the action led.
  unfoldable pub destinations : ActionResult → W → List String
  destinations r w =
      r.refused_navigations
      ++ (if r.ok_done && r.navigated then or_url r.landed_urls (d.driver.session_url w) else [])

  after_landing :
      Command
      → PolicyDecision
      → Option (Resolution × Bool)
      → ActionResult
      → Landing
      → Session W
      → Option DispatchOutcome × Session W
  unfolding outcome_of
  after_landing c decision x r (outside url why) s = (
    some (outcome_of denied decision x (some r) (some navigation_blocked_code)),
    log Bus.note c
        (left_allowlist_payload d.printer url why c.action (mem url r.refused_navigations)) s,
  )
  after_landing c decision x r unreadable s = (none, s)
  after_landing c decision x r inside s = (
    some (
        if r.ok_done
        then outcome_of done decision x (some r) none
        else outcome_of failed decision x (some r) (some action_failed)),
    s,
  )

  abbrev resolved_token : Option (Resolution × Bool) → AuthorizedAction → AuthorizedAction
  resolved_token none a = a
  resolved_token (some (x, drifted)) a = with_resolution a x.node.node_id

  abbrev destination_verdict : Command → String → UrlVerdict
  destination_verdict c url =
      check d.host.url d.policy.allowlist (allowed_domains_of c.capability) url

  -- Steps 3 and 4: dispatch, record, and look where it led.
  perform :
      Command
      → PolicyDecision
      → Option (Resolution × Bool)
      → AuthorizedAction
      → Session W
      → Option DispatchOutcome × Session W
  unfolding after_landing distinct
  perform c decision x a s =
      let (r, w) = d.driver.dispatch a s.world in
      after_landing c decision x r
        (landing (destination_verdict c) (distinct [] (destinations r w)))
        (log Bus.dispatch c (dispatch_payload decision c.action a r) (record s { world = w }))

  on_token :
      Command
      → PolicyDecision
      → Option (Resolution × Bool)
      → Option AuthorizedAction
      → Session W
      → Option DispatchOutcome × Session W
  unfolding perform
  on_token c decision x none s = (
    some (
        outcome_of denied decision x none
          (some (if decision.navigation_blocked then navigation_blocked_code else policy_denied))),
    s,
  )
  on_token c decision x (some a) s = perform c decision x (resolved_token x a) s

  on_verdict :
      Command
      → PolicyDecision
      → Option (Resolution × Bool)
      → Verdict
      → Session W
      → Option DispatchOutcome × Session W
  unfolding on_token
  on_verdict c decision x confirming s =
      (some (outcome_of needs_confirmation decision x none none), s)
  on_verdict c decision x denying s = on_token c decision x decision.authorized s
  on_verdict c decision x allowing s = on_token c decision x decision.authorized s

  -- Step 2: authorize and record.
  on_decision :
      Command
      → Option (Resolution × Bool)
      → Authorization
      → Session W
      → Option DispatchOutcome × Session W
  unfolding on_verdict
  on_decision c x crashed s = (none, s)
  on_decision c x (decided p) s =
      on_verdict c p x p.outcome (log Bus.authorize c (authorize_payload d.printer p c.action) s)

  abbrev log_hit : Command → Option UiNode → Session W → Session W
  log_hit c none s = s
  log_hit c (some hit) s = log Bus.resolve c (gesture_payload d.printer hit c.action) s

  unfoldable pub gesture_hit : Command → W → Option UiNode
  gesture_hit c w =
      if is_raw_input c.action then d.driver.gesture_target c.action c.snapshot w else none

  after_resolution :
      String → Command → Option (Resolution × Bool) → Session W → Option DispatchOutcome × Session W
  unfolding on_decision gesture_hit
  after_resolution id c x s =
      let hit = gesture_hit c s.world in
      on_decision c x (authorize d.host d.policy id (attempt c (node_of x hit))) (log_hit c hit s)

  on_resolved :
      String
      → Command
      → TargetDescriptor
      → Result TargetResolutionError (Resolution × Bool)
      → Session W
      → Option DispatchOutcome × Session W
  unfolding after_resolution
  on_resolved id c t (err e) s = (
    some (record {
      status = unresolved;
      decision = none;
      resolution = none;
      result = none;
      drifted = false;
      failure_code = some (if is_ambiguous e then target_ambiguous else target_not_found);
      resolution_debug = some e;
    }),
    log Bus.resolve c (unresolved_payload d.printer t e) s,
  )
  on_resolved id c t (ok (x, drifted)) s =
      after_resolution id c (some (x, drifted))
        (log Bus.resolve c (resolved_payload d.printer t x drifted) s)

  -- Step 1: resolve the target, if the action has one.
  on_target :
      String → Command → Option TargetDescriptor → Session W → Option DispatchOutcome × Session W
  unfolding on_resolved
  on_target id c none s = after_resolution id c none s
  on_target id c (some t) s =
      on_resolved id c t (resolve_with_drift d.strategies d.resolver t c.snapshot) s

  abbrev pub is_stale : Option ℕ → ℕ → Bool
  is_stale none held = false
  is_stale (some expected) held = not (nat_eq held expected)

  abbrev expected_of : Option ℕ → ℕ
  expected_of none = 0
  expected_of (some expected) = expected

  -- `id` is the decision id that the policy draws.
  unfoldable pub execute : String → Command → Session W → Option DispatchOutcome × Session W
  unfolding on_target
  execute id c s =
      if is_stale c.expected_epoch c.lease_epoch
      then (
        some (record {
          status = lease_lost;
          decision = none;
          resolution = none;
          result = none;
          drifted = false;
          failure_code = some lease_lost_code;
          resolution_debug = none;
        }),
        log Bus.dispatch c (stale_payload (expected_of c.expected_epoch)) s,
      )
      else on_target id c (target_of c.action) s
