-- ===== src/Tests/Data.antt =====
-- A small deployment: one capability with two steps, a policy, a screen with a button, a surface that
-- counts what it is given.
use computer_use_automation.Base.{ℕ, ◌+◌, String, true, false, Option, none, some, [], ◌∷◌}
use computer_use_automation.Domain.Actor.{Actor, automation, human, system}
use computer_use_automation.Domain.Snapshot.{NodeScope, UiNode, UiSnapshot}
use computer_use_automation.Domain.Text.{TextHost}
use computer_use_automation.Domain.Predicates.{Predicate, text_present, nil}
use computer_use_automation.Domain.Target.{TargetDescriptor, semantic_exact, ladder_order}
use computer_use_automation.Domain.Action.{Action, click, navigate, safe, irreversible}
use computer_use_automation.Domain.Capability.{
  Capability, Step, snapshot_stable, pause_and_request_human,
}
use computer_use_automation.Domain.Result.{unexpected_state}
use computer_use_automation.Domain.Approval.{CapabilityApproval, approved}
use computer_use_automation.Domain.Binding.{Derivation}
use computer_use_automation.Policy.Config.{
  PolicyConfig, Disposition, allow, allow_if_declared, allow_if_approved, require_confirmation,
}
use computer_use_automation.Policy.Allowlist.{UrlHost, ParsedUrl}
use computer_use_automation.Policy.Irreversible.{IrreversibleGrant}
use computer_use_automation.Policy.Engine.{PolicyHost, Attempt}
use computer_use_automation.Targeting.Resolver.{Strategies, TargetResolver}
use computer_use_automation.Evidence.Json.{null, nil}
use computer_use_automation.Evidence.Redact.{RedactHost}
use computer_use_automation.Evidence.Bus.{EvidenceBus}
use computer_use_automation.Surfaces.{ActionResult, SurfaceDriver}
use computer_use_automation.Runtime.Payloads.{Printer}
use computer_use_automation.Runtime.Command.{Setup, Session, Command}
use computer_use_automation.Hitl.Handoff.{SessionBroker, BrokerTexts, Escalation, new_broker}

abbrev pub text_host : TextHost
text_host = record { lower = λ t. t; search = λ p t. true; secret_text = λ k. k }

abbrev pub no_scope : NodeScope
no_scope = record { frame = none; region = none }

abbrev pub save_button : UiNode
save_button = record {
  node_id = "n1";
  role = "button";
  name = some "save";
  value = none;
  states = [];
  scope = no_scope;
  parent_id = none;
  child_ids = [];
  hints = [];
  fingerprint = "f1";
}

abbrev pub screen : UiSnapshot
screen = record {
  url = "https://app.test/form";
  title = "form";
  nodes = save_button ∷ [];
  http_status = some 200;
}

abbrev pub save_target : TargetDescriptor
save_target = record {
  role = "button";
  name = none;
  scope = no_scope;
  anchor = none;
  ordinal = none;
  hints = [];
  fingerprint = "f1";
  recorded_strategy = some semantic_exact;
}

abbrev pub click_save : Action
click_save = record { risk = none; operation = click save_target }

abbrev pub submit_click : Action
submit_click = record { risk = some irreversible; operation = click save_target }

abbrev pub open_form : Action
open_form = record { risk = none; operation = navigate "https://app.test/form" }

abbrev step_of : String → Action → Predicate → Step
step_of id action done_when = record {
  id = id;
  action = action;
  precondition = none;
  wait = record { for_what = snapshot_stable; timeout_ms = 1000; until = none };
  postcondition = some done_when;
  risk = safe;
}

abbrev pub save_form : Capability
save_form = record {
  id = "save_form";
  version = "1";
  title = "Save the form";
  description = "";
  inputs = [];
  outputs = [];
  escalation = record { triggers = unexpected_state ∷ []; disposition = pause_and_request_human };
  entrypoint = "https://app.test/form";
  steps =
      step_of "s1" open_form (text_present "save")
      ∷ step_of "s2" click_save (text_present "saved ok")
      ∷ [];
  checkpoint = text_present "saved ok";
  outcomes = [];
  recovery = [];
  policy = record {
    allowed_domains = "app.test" ∷ [];
    allowed_actions = "click" ∷ "navigate" ∷ [];
    max_steps = 5;
    max_duration_ms = 1000;
  };
  content_hash = "h1";
}

abbrev pub derivation : Derivation
derivation = record { compute_hash = λ c. "h1"; apply = λ b c. some c }

abbrev pub app_page : ParsedUrl
app_page = record {
  scheme = "https";
  netloc = "app.test";
  readable = true;
  hostname = some "app.test";
  username = none;
  password = none;
}

abbrev pub url_host : UrlHost
url_host = record { urlparse = λ u. some app_page; lower = λ t. t; matches_start = λ p u. false }

abbrev pub policy_host : PolicyHost
policy_host = record { url = url_host; derivation = derivation }

abbrev disposition : Actor → Option Disposition
disposition automation = some (record {
  on_safe = allow;
  on_elevated = allow_if_declared;
  on_irreversible = allow_if_approved;
})
disposition human =
    some (record { on_safe = allow; on_elevated = allow; on_irreversible = require_confirmation })
disposition system = none

abbrev pub policy : PolicyConfig
policy = record {
  allowlist = record { domains = "app.test" ∷ []; url_patterns = [] };
  actions = record { allowed = "click" ∷ "navigate" ∷ []; human_only = "raw_input" ∷ [] };
  risk = record {
    default_tier = safe;
    tiers_by_action = ("navigate", safe) ∷ [];
    lexicon = record { elevated_words = "edit" ∷ []; irreversible_words = "delete" ∷ [] };
  };
  dispositions = disposition;
  replay_gates = record { requires_approval = true; requires_optin = true };
  budgets = record { max_steps = 10; max_duration_ms = 1000; max_recovery_attempts_total = 3 };
}

abbrev pub approval : CapabilityApproval
approval = record {
  capability_ref = "save_form@1";
  content_hash = "h1";
  state = approved;
  approved_by = some "ann";
}

abbrev pub grant : IrreversibleGrant
grant = record { approval = some approval; caller_opt_in = true; applied_binding = none }

abbrev pub save_attempt : Attempt
save_attempt = record {
  action = click_save;
  actor = automation;
  session_id = "s";
  lease_epoch = 1;
  target = some save_button;
  capability = some save_form;
  declared_risk = none;
  confirmed = false;
  grant = none;
}

abbrev pub strategies : Strategies
strategies = record {
  by_exact = λ t s. s.nodes;
  by_normalized = λ t s. [];
  by_anchor = λ t s. [];
  by_hint = λ t s. [];
  by_ordinal = λ t s. [];
}

abbrev pub resolver : TargetResolver
resolver = record {
  allow_vision = false;
  max_candidates_reported = 8;
  strategies_available = ladder_order;
}

abbrev pub redact_host : RedactHost
redact_host = record {
  replace = λ t a b. t;
  sub = λ p r t. t;
  decimal = λ n. "0";
  str_length = λ j. 0;
}

abbrev pub bus : EvidenceBus
bus = record {
  run_id = "r";
  redactor = record { rules = []; always_redact_sensitive_inputs = true; extra_secrets = [] };
  sensitive_keys = "password" ∷ [];
  sequence = 0;
  trace = [];
}

abbrev acted : ActionResult
acted = record {
  ok_done = true;
  navigated = false;
  landed_urls = [];
  refused_navigations = [];
  http_status = some 200;
  message = "";
  duration_ms = 1;
}

-- The surface counts the actions that it is given.
abbrev driver : SurfaceDriver ℕ
driver = record {
  dispatch = λ a w. (acted, w + 1);
  observe = λ w. screen;
  session_url = λ w. "https://app.test/form";
  gesture_target = λ a s w. some save_button;
}

abbrev printer : Printer
printer = record {
  target = λ t. t.role;
  under_gesture = λ n a. n.node_id;
  strategy = λ s. "rung";
  unresolved = λ e. "unresolved";
  tried = λ e. nil;
  summaries = λ e. nil;
  ambiguity = λ e. null;
  signals = λ r. nil;
  reason = λ r. "reason";
  basis = λ b. "basis";
  url_refusal = λ w. "refused";
  snapshot_ref = λ v. "snap";
}

abbrev pub setup : Setup ℕ
setup = record {
  driver = driver;
  policy = policy;
  host = policy_host;
  strategies = strategies;
  resolver = resolver;
  redaction = redact_host;
  printer = printer;
}

abbrev pub session : Session ℕ
session = record { world = 0; evidence = bus }

abbrev pub save_command : Command
save_command = record {
  action = click_save;
  snapshot = screen;
  actor = automation;
  session_id = "s";
  lease_epoch = 1;
  expected_epoch = some 1;
  capability = some save_form;
  declared_risk = none;
  confirmed = false;
  grant = none;
}

abbrev pub texts : BrokerTexts
texts = record { summary = λ delta. "changed"; run_dir = "runs/r" }

abbrev pub stuck : Escalation
stuck = record {
  run_id = "r";
  capability_ref = "save_form@1";
  goal = "save";
  reason = "stuck";
  step_id = some "s2";
  failure_code = none;
  snapshot = some screen;
  snapshot_ref = none;
  screenshot_ref = none;
}

abbrev pub fresh : SessionBroker ℕ
fresh = new_broker "s" session
