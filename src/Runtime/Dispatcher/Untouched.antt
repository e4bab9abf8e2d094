-- ===== src/Runtime/Dispatcher/Untouched.antt =====
-- src/cua/runtime/dispatcher.py: nothing reaches the surface without an authorization.
use computer_use_automation.Base.{
  String, ◌≡◌, refl, ◌⊎◌, inl, inr, Bool, true, false, Option, none, some, Result, ok, err,
  Bool-cases, or_else, ap, ◌∙◌,
}
use computer_use_automation.Domain.Snapshot.{UiNode}
use computer_use_automation.Domain.Action.{target_of, is_raw_input}
use computer_use_automation.Domain.Target.{TargetDescriptor}
use computer_use_automation.Policy.Engine.{
  PolicyDecision, Authorization, decided, crashed, minted, Verdict, allowing, denying, confirming,
  AuthorizedAction, Attempt, authorize, with_resolution,
}
use computer_use_automation.Policy.Engine.Permit.{IsPermitted, authorize-iff-IsPermitted}
use computer_use_automation.Targeting.Resolver.{
  Resolution, TargetResolutionError, resolve_with_drift,
}
use computer_use_automation.Surfaces.{ActionResult}
use computer_use_automation.Runtime.Dispatcher.{
  Landing, inside, outside, unreadable, after_landing, resolved_token, on_token, on_verdict,
  on_decision, after_resolution, on_resolved, on_target, attempt, node_of, gesture_hit, is_stale,
  execute, log_hit,
}
use computer_use_automation.Runtime.Command.{Setup, Session, Command, DispatchOutcome}

module _ {W : Type 0} (d : Setup W) where
  -- What a command makes of itself for policy, on a node.
  abbrev own_attempt : Command → Option UiNode → Attempt
  own_attempt c target = record {
    action = c.action;
    actor = c.actor;
    session_id = c.session_id;
    lease_epoch = c.lease_epoch;
    target = target;
    capability = c.capability;
    declared_risk = c.declared_risk;
    confirmed = c.confirmed;
    grant = c.grant;
  }

  -- The node that policy is asked about, and the id that is attached before dispatch: what the command's
  -- target resolves to on its snapshot; without a target, what a raw gesture hits, or nothing, and then
  -- no id is attached.
  pub data Aimed (c : Command) (before : W) : Option UiNode → Option String → Type 0 where
    at_target :
        (t : TargetDescriptor) (x : Resolution) (drifted : Bool)
        → target_of c.action ≡ some t
        → resolve_with_drift d.strategies d.resolver t c.snapshot ≡ ok (x, drifted)
        → Aimed c before (some x.node) (some x.node.node_id)
    at_gesture :
        target_of c.action ≡ none
        → is_raw_input c.action ≡ true
        → Aimed c before (d.driver.gesture_target c.action c.snapshot before) none
    nowhere : target_of c.action ≡ none → is_raw_input c.action ≡ false → Aimed c before none none

  -- Policy permitted the command on the node that it aims at, and the surface saw exactly the action
  -- minted for that, with the id of the node that the target resolved to, if there is a target.
  pub record Acted (id : String) (c : Command) (before after : W) : Type 0 where
    pub target : Option UiNode
    pub node_id : Option String
    pub token : AuthorizedAction
    pub aimed : Aimed c before target node_id
    pub permitted : IsPermitted d.host d.policy (own_attempt c target)
    pub mints : minted (authorize d.host d.policy id (own_attempt c target)) ≡ some token
    pub dispatched :
        after
        ≡ (d.driver.dispatch
            (record token { resolved_node_id = or_else node_id token.resolved_node_id })
            before).1

  -- What a resolution attaches.
  abbrev attaches : Option (Resolution × Bool) → Option String
  attaches none = none
  attaches (some (x, drifted)) = some x.node.node_id

  resolved_token-attaches :
      (x : Option (Resolution × Bool)) (a : AuthorizedAction)
      → resolved_token d x a
        ≡ record a { resolved_node_id = or_else (attaches x) a.resolved_node_id }
  unfolding with_resolution
  resolved_token-attaches none a = refl
  resolved_token-attaches (some (x, drifted)) a = refl

  world-after_landing :
      (c : Command) (p : PolicyDecision) (x : Option (Resolution × Bool)) (r : ActionResult)
      (l : Landing) (s : Session W)
      → (after_landing d c p x r l s).1.world ≡ s.world
  unfolding execute
  world-after_landing c p x r inside s = refl
  world-after_landing c p x r (outside url why) s = refl
  world-after_landing c p x r unreadable s = refl

  module _ (id : String) (c : Command) where
    Same : Session W → Option DispatchOutcome × Session W → Type 0
    Same s o = (o.1.world ≡ s.world) ⊎ Acted id c s.world o.1.world

    -- The command aims, before the surface is touched, at the node, with the resolution.
    abbrev Aims : W → Option UiNode → Option (Resolution × Bool) → Type 0
    Aims before t x = Aimed c before t (attaches x)

    acted_on_token :
        (t : Option UiNode) (x : Option (Resolution × Bool)) (p : PolicyDecision) (s : Session W)
        (a : Option AuthorizedAction)
        → Aims s.world t x
        → p.authorized ≡ a
        → authorize d.host d.policy id (own_attempt c t) ≡ decided p
        → Same s (on_token d c p x a s)
    unfolding execute Same
    acted_on_token t x p s none aims q e = inl refl
    acted_on_token t x p s (some a) aims q e =
        let m : minted (authorize d.host d.policy id (own_attempt c t)) ≡ some a = rw e q in
        inr (record {
          target = t;
          node_id = attaches x;
          token = a;
          aimed = aims;
          permitted =
              (authorize-iff-IsPermitted d.host d.policy id (own_attempt c t)).0 (rw m refl);
          mints = m;
          dispatched =
              world-after_landing c p x _ _ _
              ∙ ap (λ sent. (d.driver.dispatch sent s.world).1) (resolved_token-attaches x a);
        })

    acted_on_verdict :
        (t : Option UiNode) (x : Option (Resolution × Bool)) (p : PolicyDecision) (s : Session W)
        (v : Verdict)
        → Aims s.world t x
        → authorize d.host d.policy id (own_attempt c t) ≡ decided p
        → Same s (on_verdict d c p x v s)
    unfolding execute Same
    acted_on_verdict t x p s confirming aims e = inl refl
    acted_on_verdict t x p s denying aims e = acted_on_token t x p s p.authorized aims refl e
    acted_on_verdict t x p s allowing aims e = acted_on_token t x p s p.authorized aims refl e

    acted_on_decision :
        (t : Option UiNode) (x : Option (Resolution × Bool)) (s : Session W) (a : Authorization)
        → Aims s.world t x
        → authorize d.host d.policy id (own_attempt c t) ≡ a
        → Same s (on_decision d c x a s)
    unfolding execute Same
    acted_on_decision t x s crashed aims e = inl refl
    acted_on_decision t x s (decided p) aims e = acted_on_verdict t x p _ p.outcome aims e

    acted_after_resolution :
        (x : Option (Resolution × Bool)) (s : Session W)
        → Aims s.world (node_of x (gesture_hit d c s.world)) x
        → Same s (after_resolution d id c x s)
    unfolding execute Same attempt
    acted_after_resolution x s = at_hit (gesture_hit d c s.world)
      where
        at_hit :
            (hit : Option UiNode)
            → Aims s.world (node_of x hit) x
            → Same s (
                on_decision d c x
                  (authorize d.host d.policy id (own_attempt c (node_of x hit)))
                  (log_hit d c hit s))
        at_hit none aims = acted_on_decision (node_of x none) x s _ aims refl
        at_hit (some h) aims =
            acted_on_decision (node_of x (some h)) x (log_hit d c (some h) s) _ aims refl

    acted_on_resolved :
        (t : TargetDescriptor) (o : Result TargetResolutionError (Resolution × Bool))
        (s : Session W)
        → target_of c.action ≡ some t
        → resolve_with_drift d.strategies d.resolver t c.snapshot ≡ o
        → Same s (on_resolved d id c t o s)
    unfolding execute Same
    acted_on_resolved t (err e) s h r = inl refl
    acted_on_resolved t (ok (x, drifted)) s h r =
        acted_after_resolution (some (x, drifted)) _ (at_target t x drifted h r)

    Aims-without_target :
        (before : W)
        → target_of c.action ≡ none
        → Aims before (node_of none (gesture_hit d c before)) none
    unfolding gesture_hit
    Aims-without_target before h = elim (Bool-cases (is_raw_input c.action)) [
      | inl raw ↦ rw raw (at_gesture h raw)
      | inr other ↦ rw other (nowhere h other)
    ]

    acted_on_target :
        (t : Option TargetDescriptor) (s : Session W)
        → target_of c.action ≡ t
        → Same s (on_target d id c t s)
    unfolding execute
    acted_on_target none s h = acted_after_resolution none s (Aims-without_target s.world h)
    acted_on_target (some t) s h =
        acted_on_resolved t (resolve_with_drift d.strategies d.resolver t c.snapshot) s h refl

    -- Whatever a command does, the surface is afterwards as before; or the command's lease epoch is
    -- the expected one (if one is expected), policy permitted the command on the
    -- node that it aims at, and the surface has seen the action that policy minted for that, and that
    -- one alone, with the id of the node that the command's target resolved to, if it has a target. A
    -- command aims at what its target resolves to on its snapshot, or at what a raw gesture hits.
    pub execute-Acted :
        (s : Session W)
        → ((execute d id c s).1.world ≡ s.world)
          ⊎ ((is_stale d c.expected_epoch c.lease_epoch ≡ false)
              × Acted id c s.world (execute d id c s).1.world)
    unfolding execute Same
    execute-Acted s = elim (Bool-cases (is_stale d c.expected_epoch c.lease_epoch)) [
      | inl e ↦ rw e (inl refl)
      | inr e ↦ rw e (elim (acted_on_target (target_of c.action) s refl) [
        | inl w ↦ inl w
        | inr a ↦ inr (refl, a)
      ])
    ]
