-- ===== src/Agent/Perform/Dispatched.antt =====
-- src/cua/agent/loop.py: what the surface sees of a tool call.
use computer_use_automation.Base.{
  ℕ, String, Bool, true, false, Bool-cases, ◌≡◌, refl, sym, inl, inr, Option, none, some, ◌==◌,
}
use mathlib.Core.Path.{subst}
use computer_use_automation.Domain.Actor.{automation}
use computer_use_automation.Domain.Snapshot.{UiNode, UiSnapshot}
use computer_use_automation.Domain.Snapshot.Tree.{by_id}
use computer_use_automation.Domain.Predicates.{Inputs}
use computer_use_automation.Domain.Target.{TargetDescriptor}
use computer_use_automation.Domain.Action.{Action, navigate}
use computer_use_automation.Targeting.Synthesize.{synthesize_descriptor}
use computer_use_automation.Runtime.Command.{Session, Command, DispatchOutcome}
use computer_use_automation.Runtime.Dispatcher.{execute}
use computer_use_automation.Runtime.Dispatcher.Untouched.{Acted, execute-Acted}
use computer_use_automation.Agent.Tools.{ToolCall, argument, is_tool, node_id_from}
use computer_use_automation.Agent.Perform.{
  DiscoveryAgent, DiscoveryStep, Performing, acts_by, action_for, command, note_unverified,
  described, new_step, after_dispatch, perform_action, perform_extract, perform_on, perform,
  is_verified,
}

module _ {W : Type 0} (a : DiscoveryAgent W) (id : String) (call : ToolCall)
    (seen : UiSnapshot) where
  -- The action that a call stands for: a navigation, or what its name makes of the control on the page
  -- that it names.
  pub data Chosen : Action → Type 0 where
    destination :
        (call.name == "navigate") ≡ true → Chosen (acts_by (navigate (argument "url" "" call)))
    on_control :
        (n : UiNode) (action : Action)
        → by_id seen.nodes (node_id_from a.char_host call) ≡ some n
        → action_for call (synthesize_descriptor a.names n seen).descriptor ≡ some action
        → Chosen action

  -- A command of automation's, with neither a capability nor a confirmation nor a grant.
  abbrev pub plain_command : Action → Command
  plain_command action = record {
    action = action;
    snapshot = seen;
    actor = automation;
    session_id = a.session_id;
    lease_epoch = a.lease_epoch;
    expected_epoch = none;
    capability = none;
    declared_risk = none;
    confirmed = false;
    grant = none;
  }

  pub data Effect (before : W) : W → Type 0 where
    untouched : Effect before before
    acted :
        {after : W} (action : Action)
        → is_tool call.name ≡ true
        → Chosen action
        → Acted a.dispatcher id (plain_command action) before after
        → Effect before after

  from : {now before after : W} → now ≡ before → Effect now after → Effect before after
  from {after = after} same e = subst (λ w. Effect w after) same e

  abbrev pub surface_of : Performing W → W
  surface_of r = r.1.0.world

  surface_of-after_dispatch :
      (step : DiscoveryStep) (warning : Option TargetDescriptor) (outputs : Inputs)
      (r : Option DispatchOutcome × Session W)
      → surface_of (after_dispatch a step warning outputs r) ≡ r.1.world
  surface_of-after_dispatch step warning outputs (none, s) = refl
  surface_of-after_dispatch step warning outputs (some o, s) = refl

  world-note_unverified :
      (verified : Bool) (t : TargetDescriptor) (node_id : String) (s : Session W)
      → (note_unverified a verified t node_id s).world ≡ s.world
  world-note_unverified true t node_id s = refl
  world-note_unverified false t node_id s = refl

  dispatch-Effect :
      (step : DiscoveryStep) (warning : Option TargetDescriptor) (action : Action) (s : Session W)
      (outputs : Inputs)
      → is_tool call.name ≡ true
      → Chosen action
      → Effect s.world (
          surface_of (
            after_dispatch a step warning outputs
              (execute a.dispatcher id (command a action seen) s)))
  dispatch-Effect step warning action s outputs known p =
      let r = execute a.dispatcher id (command a action seen) s in
      subst (Effect s.world) (sym (surface_of-after_dispatch step warning outputs r))
        (elim (execute-Acted a.dispatcher id (command a action seen) s) [
          | inl same ↦ subst (Effect s.world) (sym same) untouched
          | inr (current, done) ↦ acted action known p done
        ])

  action-Effect :
      (step : DiscoveryStep) (n : UiNode) (m : Option Action) (s : Session W) (outputs : Inputs)
      → is_tool call.name ≡ true
      → by_id seen.nodes (node_id_from a.char_host call) ≡ some n
      → action_for call (synthesize_descriptor a.names n seen).descriptor ≡ m
      → Effect s.world (
          surface_of (
            perform_action a id call seen step
              (synthesize_descriptor a.names n seen).descriptor
              m
              s
              outputs))
  unfolding perform_action
  action-Effect step n none s outputs known found chosen = untouched
  action-Effect step n (some action) s outputs known found chosen =
      dispatch-Effect step _ action s outputs known (on_control n action found chosen)

  control-Effect :
      (step : DiscoveryStep) (node : Option UiNode) (s : Session W) (outputs : Inputs)
      → is_tool call.name ≡ true
      → by_id seen.nodes (node_id_from a.char_host call) ≡ node
      → Effect s.world (
          surface_of
            (perform_on a id call seen step (node_id_from a.char_host call) node s outputs))
  unfolding perform_on perform_extract
  control-Effect step none s outputs known found = untouched
  control-Effect step (some n) s outputs known found =
      let node_id = node_id_from a.char_host call in
      let t = (synthesize_descriptor a.names n seen).descriptor in
      let verified = is_verified a t seen node_id in
      let noted = world-note_unverified verified t node_id s in
      elim (Bool-cases (call.name == "extract")) [
        | inl h ↦ rw h (subst (Effect s.world) (sym noted) untouched)
        | inr h ↦ rw h (
            from noted (
              action-Effect
                (described a step (synthesize_descriptor a.names n seen) node_id verified) n _
                (note_unverified a verified t node_id s) outputs known found refl))
      ]

  -- A tool call of a discovery run leaves the surface as it was; or the tool is one of those offered,
  -- and the surface has seen one action that policy permitted for automation's command, with neither
  -- a capability nor a confirmation nor a grant: a navigation, or what the tool does to the control
  -- that the call names, which is on the page that the model was shown.
  pub perform-Effect :
      (index : ℕ) (s : Session W) (outputs : Inputs)
      → Effect s.world (surface_of (perform a id call seen index s outputs))
  unfolding perform
  perform-Effect index s outputs = elim (Bool-cases (is_tool call.name)) [
    | inr h ↦ rw h untouched
    | inl h ↦ rw h (elim (Bool-cases (call.name == "navigate")) [
      | inl g ↦
          rw g (dispatch-Effect (new_step a call seen index) none _ s outputs h (destination g))
      | inr g ↦ rw g (control-Effect (new_step a call seen index) _ s outputs h refl)
    ])
  ]
