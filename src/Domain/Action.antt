-- ===== src/Domain/Action.antt =====
-- src/cua/domain/action.py: the closed set of actions. The coordinates of a raw gesture are left to
-- the hit test that reads them.
use computer_use_automation.Base.{ℕ, String, Bool, true, false, Option, none, some, List, [], ◌∷◌}
use computer_use_automation.Domain.Predicates.{Predicate, ValueExpr}
use computer_use_automation.Domain.Target.{TargetDescriptor}

pub data ActionRisk : Type 0 where
  safe elevated irreversible : ActionRisk

abbrev pub is_risk : ActionRisk → ActionRisk → Bool
is_risk safe safe = true
is_risk elevated elevated = true
is_risk irreversible irreversible = true
is_risk _ _ = false

pub data ScrollDirection : Type 0 where
  up down into_view : ScrollDirection

pub data RawInputKind : Type 0 where
  mouse_click mouse_move key_press text_entry : RawInputKind

-- The members of the union `Action`, each with its own fields.
pub data Operation : Type 0 where
  click : TargetDescriptor → Operation
  type_text : TargetDescriptor → ValueExpr → Bool → Operation
  select_option : TargetDescriptor → ValueExpr → Operation
  press_key : String → Option TargetDescriptor → Operation
  navigate : String → Operation
  reload : Operation
  scroll : ScrollDirection → Option TargetDescriptor → Option ℕ → Operation
  wait_for : Predicate → ℕ → Operation
  extract : TargetDescriptor → String → Option String → Operation
  assertion : Predicate → Operation
  raw_input : RawInputKind → Option String → Option String → Option String → Operation

-- `_Action`: the annotation that every action may carry.
pub record Action : Type 0 where
  pub risk : Option ActionRisk
  pub operation : Operation

-- `action.type`
abbrev type_of_operation : Operation → String
type_of_operation (click t) = "click"
type_of_operation (type_text t v c) = "type"
type_of_operation (select_option t v) = "select"
type_of_operation (press_key k t) = "press_key"
type_of_operation (navigate u) = "navigate"
type_of_operation reload = "reload"
type_of_operation (scroll d t n) = "scroll"
type_of_operation (wait_for p n) = "wait_for"
type_of_operation (extract t i f) = "extract"
type_of_operation (assertion p) = "assert"
type_of_operation (raw_input k a b c) = "raw_input"

unfoldable pub action_type : Action → String
action_type a = type_of_operation a.operation

abbrev pub read_only_actions : List String
read_only_actions = "wait_for" ∷ "assert" ∷ "extract" ∷ "scroll" ∷ []

abbrev pub human_only_actions : List String
human_only_actions = "raw_input" ∷ []

-- `getattr(action, "target", None)`
abbrev target_of_operation : Operation → Option TargetDescriptor
target_of_operation (click t) = some t
target_of_operation (type_text t v c) = some t
target_of_operation (select_option t v) = some t
target_of_operation (press_key k t) = t
target_of_operation (scroll d t n) = t
target_of_operation (extract t i f) = some t
target_of_operation _ = none

unfoldable pub target_of : Action → Option TargetDescriptor
target_of a = target_of_operation a.operation

-- `isinstance(action, RawInput)`
abbrev raw_input_operation : Operation → Bool
raw_input_operation (raw_input k a b c) = true
raw_input_operation _ = false

unfoldable pub is_raw_input : Action → Bool
is_raw_input a = raw_input_operation a.operation

-- `action.url` of a navigation.
abbrev url_of_operation : Operation → Option String
url_of_operation (navigate url) = some url
url_of_operation _ = none

unfoldable pub url_of : Action → Option String
url_of a = url_of_operation a.operation
