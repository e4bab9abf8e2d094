-- ===== src/Agent/Discovery/Surface.antt =====
-- src/cua/agent/loop.py: what the surface sees of a discovery run.
use computer_use_automation.Base.{◌≡◌, ℕ, String, List, ◌∷◌, ok}
use computer_use_automation.Domain.Snapshot.{UiSnapshot}
use computer_use_automation.Runtime.Dispatcher as Dispatcher
use computer_use_automation.Agent.Budget.{Budget}
use computer_use_automation.Agent.Tools.{ToolCall, LlmResponse}
use computer_use_automation.Agent.Perform.{DiscoveryAgent}
use computer_use_automation.Agent.Perform.Dispatched.{Effect}
use computer_use_automation.Agent.Discovery.{DiscoveryHost, Progress, Prompt, Ended}

module _ {W : Type 0} (a : DiscoveryAgent W) (h : DiscoveryHost W) (goal target_url : String) where
  -- The call is the first of what the model answers in a round, when it is shown the page.
  pub record IsAsked (n : ℕ) (call : ToolCall) (page : UiSnapshot) : Type 0 where
    pub prompt : Prompt
    pub response : LlmResponse
    pub others : List ToolCall
    pub to_goal : prompt.goal ≡ goal
    pub from_url : prompt.target_url ≡ target_url
    pub shown : prompt.page ≡ page
    pub answered : h.complete n prompt ≡ ok response
    pub first : response.tool_calls ≡ call ∷ others

  -- How the surface came from one state to another: by itself, or by tool calls of the model's, each on
  -- the page that the model was shown, which is the page as it was observed before the call.
  pub data Trail (before : W) : W → Type 0 where
    unchanged : Trail before before
    by_itself : {w : W} → Trail before w → (n : ℕ) → Trail before (h.settle n w)
    by_call :
        {w after : W} (n : ℕ) (call : ToolCall) (page : UiSnapshot)
        → Trail before w
        → page ≡ a.dispatcher.driver.observe w
        → IsAsked n call page
        → Effect a (h.new_id n) call page w after
        → Trail before after

  abbrev pub world_in : Progress W → W
  world_in p = p.session.world

  module _ (before : W) where
    Leads : (Budget → Progress W → Ended a h goal target_url) → Type 0
    Leads rest =
        (b : Budget) (p : Progress W)
        → Trail before (world_in p)
        → Trail before (world_in (rest b p).1)
