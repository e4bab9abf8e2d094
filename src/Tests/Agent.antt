-- ===== src/Tests/Agent.antt =====
-- src/cua/agent/ on a small budget.
use computer_use_automation.Base.{ok, ℕ, ◌≡◌, refl, true, false, some, List, [], ◌∷◌}
use computer_use_automation.Evidence.Json.{null}
use computer_use_automation.Agent.Budget.{dead_end, Budget, no_call, discover}
use computer_use_automation.Agent.Discovery.{DiscoveryHost, run}
use computer_use_automation.Agent.Discovery.Bounded.{Within, run-Within}
use computer_use_automation.Agent.Budget.Streaks.{Report}
use computer_use_automation.Agent.Tools.{ToolCall, is_tool}
use computer_use_automation.Agent.Perform.{DiscoveryAgent, perform}
use computer_use_automation.Tests.Data.{screen, setup, session}
use computer_use_automation.Tests.Targeting.{name_host}
use computer_use_automation.Tests.Executor.{executor}

abbrev small : Budget
small = record {
  max_steps = 5;
  max_duration = 100;
  max_tokens = 1000;
  max_unchanged_steps = 2;
  max_consecutive_denials = 3;
  steps = 0;
  tokens = 0;
  unchanged_steps = 0;
  consecutive_denials = 0;
}

-- A model that never acts is stopped as a dead end.
idle_stopped :
    discover (λ n. no_call 10) (λ n. n) 6 0 small
    ≡ some (dead_end, record small { steps = 2; tokens = 20; unchanged_steps = 2 })
unfolding discover
idle_stopped = refl

abbrev reports : List Report
reports =
    record { tokens = 3; progressed = false; denied = true }
    ∷ record { tokens = 4; progressed = true; denied = false }
    ∷ []

abbrev agent : DiscoveryAgent ℕ
agent = record {
  dispatcher = setup;
  redactor = record { rules = []; always_redact_sensitive_inputs = false; extra_secrets = [] };
  session_id = "discovery";
  lease_epoch = 1;
  names = name_host;
  char_host = executor.char_host;
  describe = λ t. "";
}

abbrev clicks_button : ToolCall
clicks_button = record { name = "click"; arguments = ("node_id", "#n1") ∷ [] }

-- A tool that is not offered is refused without a word to the policy.
unknown_refused :
    (perform agent "d1" (record clicks_button { name = "evaluate" }) screen 0 session []).1
    ≡ (session, [])
unfolding perform is_tool
unknown_refused = refl

-- A model that presses the button over and over.
abbrev host : DiscoveryHost ℕ
host = record {
  model_name = "m";
  complete = λ n prompt. ok (record {
    tool_calls = clicks_button ∷ [];
    text = "";
    model = "m";
    provider = "";
    request_id = "";
    prompt_tokens = 100;
    completion_tokens = 10;
  });
  elapsed = λ n. n;
  latency_ms = λ n. 1;
  new_id = λ n. "id";
  settle = λ n w. w;
  sorted = λ names. names;
  reason_name = λ reason. "";
  summary = λ b. null;
}

run-Within_example :
    Within agent host "save" "https://app.test" 5
      (run agent host "save" "https://app.test" small session)
run-Within_example = run-Within agent host "save" "https://app.test" small session refl
