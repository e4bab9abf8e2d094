-- ===== src/Tests/Assist.antt =====
-- src/cua/assist/recovery.py on the form that says so when it has been saved, with a model that chooses
-- the button.
use computer_use_automation.Base.{ℕ, ◌≡◌, refl, none, ok, [], ◌∷◌}
use computer_use_automation.Agent.Tools.{LlmResponse}
use computer_use_automation.Assist.Recovery.{LlmPort, AssistedReplay, action_for}
use computer_use_automation.Tests.Data.{save_target}
use computer_use_automation.Tests.Targeting.{name_host}
use computer_use_automation.Tests.Executor.{executor}

abbrev clicks_save : LlmResponse
clicks_save = record {
  tool_calls = record { name = "click"; arguments = ("node_id", "#n1") ∷ [] } ∷ [];
  text = "";
  model = "m";
  provider = "";
  request_id = "";
  prompt_tokens = 100;
  completion_tokens = 10;
}

abbrev llm : LlmPort
llm = record { model_name = "m"; prompt = λ c r seen. ""; complete = λ n shown. ok clicks_save }

abbrev assisted : AssistedReplay ℕ
assisted = record {
  executor = executor;
  llm = llm;
  names = name_host;
  explain = λ reason. "";
  reason_text = λ reason. "";
  message = λ outcome. "";
  session_id = "assist";
  lease_epoch = 0;
}

-- A model may not choose a destination.
no_navigation :
    action_for
      (record { name = "navigate"; arguments = ("url", "https://app.test") ∷ [] })
      save_target
    ≡ none
unfolding action_for
no_navigation = refl
