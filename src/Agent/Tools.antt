-- ===== src/Agent/Tools.antt =====
-- src/cua/agent/tools.py and llm.py: the calls that a model may make, and its answers. A call's
-- arguments are texts, as `str` shows them.
use computer_use_automation.Base.{
  ℕ, String, Bool, List, [], ◌∷◌, ◌==◌, ◌||◌, get_or, lookup, nat_eq, if◌then◌else◌,
}
use computer_use_automation.Domain.Text.{codes, strip}
use computer_use_automation.Replay.Transforms.{CharHost}

pub record ToolCall : Type 0 where
  pub name : String
  pub arguments : List (String × String)

pub record LlmResponse : Type 0 where
  pub tool_calls : List ToolCall
  pub text : String
  pub model : String
  pub provider : String
  pub request_id : String
  pub prompt_tokens : ℕ
  pub completion_tokens : ℕ

abbrev pub argument : String → String → ToolCall → String
argument key default call = get_or (lookup key call.arguments) default

-- `name in TOOL_NAMES`
unfoldable pub is_tool : String → Bool
is_tool name =
    name == "click"
    || name == "type_text"
    || name == "select_option"
    || name == "press_key"
    || name == "navigate"
    || name == "extract"
    || name == "finish"
    || name == "give_up"

-- `removeprefix("#")`
abbrev pub without_hash : List ℕ → List ℕ
without_hash [] = []
without_hash (c ∷ cs) = if nat_eq c b'#' then cs else c ∷ cs

unfoldable pub node_id_from : CharHost → ToolCall → String
unfolding strip
node_id_from host call = host.from_codes (without_hash (strip (codes (argument "node_id" "" call))))
