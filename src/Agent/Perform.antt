-- ===== src/Agent/Perform.antt =====
-- src/cua/agent/loop.py: what one tool call of a discovery run does. What the model is told is known by
-- what it says, and how a descriptor reads is an argument.
pub mod Dispatched
use computer_use_automation.Base.{
  ℕ, String, Bool, true, false, not, Option, none, some, List, ◌==◌, get_or, insert, if◌then◌else◌,
  Result, ok, err,
}
use computer_use_automation.Domain.Actor.{automation, system}
use computer_use_automation.Domain.Snapshot.{UiNode, UiSnapshot}
use computer_use_automation.Domain.Snapshot.Tree.{is_text, by_id}
use computer_use_automation.Domain.Predicates.{Inputs, literal}
use computer_use_automation.Domain.Target.{TargetDescriptor, ResolutionStrategy}
use computer_use_automation.Domain.Action.{
  Action, Operation, click, type_text, select_option, press_key, navigate,
}
use computer_use_automation.Evidence.Json.{Fields, str, field, end}
use computer_use_automation.Evidence.Redact.{Redactor, redact_text}
use computer_use_automation.Evidence.Bus as Bus
use computer_use_automation.Evidence.Bus.{emit}
use computer_use_automation.Targeting.Resolver.{TargetResolutionError, Resolution, resolve}
use computer_use_automation.Targeting.Candidates.{NameHost}
use computer_use_automation.Targeting.Synthesize.{Synthesis, synthesize_descriptor}
use computer_use_automation.Runtime.Command.{
  Setup, Session, Command, DispatchStatus, done, DispatchOutcome,
}
use computer_use_automation.Runtime.Dispatcher.{execute}
use computer_use_automation.Replay.Transforms.{CharHost}
use computer_use_automation.Agent.Tools.{ToolCall, argument, is_tool, node_id_from}

pub data Detail : Type 0 where
  unsaid : Detail
  unknown_tool no_control recorded not_executable : String → Detail
  dispatched : DispatchOutcome → Detail

pub record DiscoveryStep : Type 0 where
  pub index : ℕ
  pub tool : String
  pub why : String
  pub arguments : List (String × String)
  pub node_id : Option String
  pub descriptor : Option TargetDescriptor
  pub strategy : Option ResolutionStrategy
  pub descriptor_verified : Bool
  pub ok : Bool
  pub detail : Detail
  pub url_before : String
  pub extracted : Option (String × String)

-- What the model is told: a step's detail, the text that was recorded, or whether it was done.
pub data Told : Type 0 where
  says : Detail → Told
  recorded : String → String → Told
  answered : Bool → Detail → Told

pub record Feedback : Type 0 where
  pub told : Told
  pub available : Option UiSnapshot
  pub warning : Option TargetDescriptor

pub record DiscoveryAgent (W : Type 0) : Type 0 where
  pub dispatcher : Setup W
  pub redactor : Redactor
  pub session_id : String
  pub lease_epoch : ℕ
  pub names : NameHost
  pub char_host : CharHost
  pub describe : TargetDescriptor → String

-- The step, what the model is told, and whether it was denied.
abbrev pub Performed : Type 0
Performed = DiscoveryStep × (Feedback × Bool)

-- What a call leaves behind: the session, and the outputs.
abbrev pub Performing : Type 0 → Type 0
Performing W = Option Performed × (Session W × Inputs)

abbrev pub is_done : DispatchStatus → Bool
is_done done = true
is_done _ = false

abbrev pub is_denied : DispatchStatus → Bool
is_denied DispatchStatus.denied = true
is_denied _ = false

abbrev pub acts_by : Operation → Action
acts_by o = record { risk = none; operation = o }

-- `_action_for`
unfoldable pub action_for : ToolCall → TargetDescriptor → Option Action
action_for call target =
    if call.name == "click"
    then some (acts_by (click target))
    else if call.name == "type_text"
    then some (acts_by (type_text target (literal (argument "text" "" call)) true))
    else if call.name == "select_option"
    then some (acts_by (select_option target (literal (argument "value" "" call))))
    else if call.name == "press_key"
    then some (acts_by (press_key (argument "key" "Enter" call) (some target)))
    else none

-- `node.value or node.name or ""`
abbrev pub shown_value : UiNode → String
shown_value n = if is_text (get_or n.value "") then get_or n.value "" else get_or n.name ""

abbrev pub warning_of : DiscoveryStep → TargetDescriptor → Option TargetDescriptor
warning_of step t = if step.descriptor_verified then none else some t

module _ {W : Type 0} (a : DiscoveryAgent W) where
  abbrev pub command : Action → UiSnapshot → Command
  command action seen = record {
    action = action;
    snapshot = seen;
    actor = automation;
    session_id = a.session_id;
    lease_epoch = a.lease_epoch;
    expected_epoch = none;
    capability = none;
    declared_risk = none;
    confirmed = false;
    grant = none;
  }

  abbrev pub noted : Fields → Session W → Session W
  noted payload s = record s {
    evidence = emit a.dispatcher.redaction s.evidence Bus.note system 0 payload;
  }

  abbrev pub is_node : String → Result TargetResolutionError Resolution → Bool
  is_node id (err e) = false
  is_node id (ok r) = r.node.node_id == id

  -- `_verify`
  unfoldable pub is_verified : TargetDescriptor → UiSnapshot → String → Bool
  unfolding resolve
  is_verified t seen id = is_node id (resolve a.dispatcher.strategies a.dispatcher.resolver t seen)

  abbrev pub after_dispatch :
      DiscoveryStep
      → Option TargetDescriptor
      → Inputs
      → Option DispatchOutcome × Session W
      → Performing W
  after_dispatch step warning outputs (none, s) = (none, (s, outputs))
  after_dispatch step warning outputs (some o, s) = (
    some (
      record step { ok = is_done o.status; detail = dispatched o },
      (
        record {
          told = answered (is_done o.status) (dispatched o);
          available = none;
          warning = warning;
        },
        is_denied o.status,
      ),
    ),
    (s, outputs),
  )

  -- A call that dispatches nothing, and is not denied.
  abbrev pub stopped :
      DiscoveryStep
      → Told
      → Option UiSnapshot
      → Option TargetDescriptor
      → Session W
      → Inputs
      → Performing W
  stopped step told available warning s outputs = (
    some (step, (record { told = told; available = available; warning = warning }, false)),
    (s, outputs),
  )

  unfoldable pub perform_action :
      String
      → ToolCall
      → UiSnapshot
      → DiscoveryStep
      → TargetDescriptor
      → Option Action
      → Session W
      → Inputs
      → Performing W
  perform_action id call seen step t none s outputs =
      stopped (record step { detail = not_executable call.name }) (says (not_executable call.name))
        none (warning_of step t) s outputs
  perform_action id call seen step t (some action) s outputs =
      after_dispatch step (warning_of step t) outputs
        (execute a.dispatcher id (command action seen) s)

  -- `extract`
  unfoldable pub perform_extract :
      ToolCall → UiNode → DiscoveryStep → TargetDescriptor → Session W → Inputs → Performing W
  perform_extract call n step t s outputs =
      let name = argument "output_name" "value" call in
      let value = shown_value n in
      stopped
        (record step { ok = true; extracted = some (name, value); detail = Detail.recorded name })
        (Told.recorded name (redact_text a.dispatcher.redaction a.redactor value)) none
        (warning_of step t) s (insert name value outputs)

  abbrev pub described : DiscoveryStep → Synthesis → String → Bool → DiscoveryStep
  described step synthesis id verified = record step {
    node_id = some id;
    descriptor = some synthesis.descriptor;
    strategy = some synthesis.strategy;
    descriptor_verified = verified;
  }

  abbrev pub note_unverified : Bool → TargetDescriptor → String → Session W → Session W
  note_unverified true t id s = s
  note_unverified false t id s =
      noted
        (field "note" (str "descriptor synthesis did not round-trip")
          (field "node_id" (str id) (field "descriptor" (str (a.describe t)) end)))
        s

  unfoldable pub perform_on :
      String
      → ToolCall
      → UiSnapshot
      → DiscoveryStep
      → String
      → Option UiNode
      → Session W
      → Inputs
      → Performing W
  unfolding perform_action perform_extract is_verified
  perform_on id call seen step node_id none s outputs =
      stopped (record step { detail = no_control node_id }) (says (no_control node_id)) (some seen)
        none
        (noted
          (field "note" (str "tool call named a control that is not in the current snapshot")
            (field "node_id" (str node_id) (field "tool" (str call.name) end)))
          s)
        outputs
  perform_on id call seen step node_id (some n) s outputs =
      let synthesis = synthesize_descriptor a.names n seen in
      let t = synthesis.descriptor in
      let verified = is_verified t seen node_id in
      let next = described step synthesis node_id verified in
      let after = note_unverified verified t node_id s in
      if call.name == "extract"
      then perform_extract call n next t after outputs
      else perform_action id call seen next t (action_for call t) after outputs

  abbrev pub new_step : ToolCall → UiSnapshot → ℕ → DiscoveryStep
  new_step call seen index = record {
    index = index;
    tool = call.name;
    why = argument "why" "" call;
    arguments = call.arguments;
    node_id = none;
    descriptor = none;
    strategy = none;
    descriptor_verified = false;
    ok = false;
    detail = unsaid;
    url_before = seen.url;
    extracted = none;
  }

  -- `_perform`, with the id that an authorization would have.
  unfoldable pub perform : String → ToolCall → UiSnapshot → ℕ → Session W → Inputs → Performing W
  unfolding perform_on is_tool
  perform id call seen index s outputs =
      let step = new_step call seen index in
      let node_id = node_id_from a.char_host call in
      if not (is_tool call.name)
      then stopped (record step { detail = unknown_tool call.name }) (says (unknown_tool call.name))
          none none s outputs
      else if call.name == "navigate"
      then after_dispatch step none outputs
          (execute a.dispatcher id (command (acts_by (navigate (argument "url" "" call))) seen) s)
      else perform_on id call seen step node_id (by_id seen.nodes node_id) s outputs
