-- ===== src/Agent/Discovery.antt =====
-- src/cua/agent/loop.py: a discovery run. The model is an argument, which sees what `_messages` lists, and
-- so are the readings of the clock and what the surface does by itself before an observation. How what
-- the model is told reads is left out, and so is the run's record on disk.
pub mod Bounded
pub mod Surface
use computer_use_automation.Base.{
  ℕ, zero, suc, ◌+◌, ◌*◌, ◌-◌, String, Bool, true, false, ◌||◌, not, Option, none, some, List, [],
  ◌∷◌, ◌++◌, ◌==◌, nat_eq, leb, length, take, keep, map, if◌then◌else◌, Result, ok, err,
}
use computer_use_automation.Domain.Actor.{Actor, automation, system}
use computer_use_automation.Domain.Snapshot.{UiSnapshot}
use computer_use_automation.Domain.Snapshot.Tree.{is_text}
use computer_use_automation.Domain.Predicates.{Inputs}
use computer_use_automation.Domain.Text.{codes}
use computer_use_automation.Evidence.Json.{Json, Fields, str, num, null, arr, field, end}
use computer_use_automation.Evidence.Bus as Bus
use computer_use_automation.Evidence.Bus.{EventType, emit}
use computer_use_automation.Runtime.Command.{Session}
use computer_use_automation.Runtime.Dispatcher as Dispatcher
use computer_use_automation.Replay.Executor.State.{Exit, value, raised, unfinished}
use computer_use_automation.Replay.Executor.Ending.{texts_of}
use computer_use_automation.Agent.Budget.{
  StopReason, Budget, exceeded, Turn, failed, no_call, finish, give_up, acted, after_turn,
}
use computer_use_automation.Agent.Tools.{ToolCall, LlmResponse, argument}
use computer_use_automation.Agent.Perform.{
  DiscoveryAgent, DiscoveryStep, Feedback, Performed, Performing, new_step, perform,
}

-- A message of the history: what the model said, a nudge, a call that it made, what the call came to.
pub data Message : Type 0 where
  said : String → Message
  nudged : Message
  called : String → ToolCall → Message
  came_to : Feedback → Message

-- `_messages`
pub record Prompt : Type 0 where
  pub goal : String
  pub target_url : String
  pub history : List Message
  pub page : UiSnapshot

-- What happens around a run; a turn is known by its number, and so is an observation.
pub record DiscoveryHost (W : Type 0) : Type 0 where
  pub model_name : String
  pub complete : ℕ → Prompt → Result String LlmResponse
  pub elapsed : ℕ → ℕ
  pub latency_ms : ℕ → ℕ
  pub new_id : ℕ → String
  pub settle : ℕ → W → W
  pub sorted : List String → List String
  pub reason_name : StopReason → String
  pub summary : Budget → Json

-- What a run changes, its budget apart.
pub record Progress (W : Type 0) : Type 0 where
  pub session : Session W
  pub history : List Message
  pub steps : List DiscoveryStep
  pub outputs : Inputs
  pub summary : String
  pub checkpoint_hint : String

-- `history[-MAX_HISTORY_TURNS:]`
unfoldable pub last_of : ℕ → List Message → List Message
last_of n [] = []
last_of n (m ∷ ms) = let rest = last_of n ms in if leb (length ms + 1) n then m ∷ ms else rest

abbrev pub is_terminal : String → Bool
is_terminal tool = tool == "finish" || tool == "give_up"

-- `effective_steps`
unfoldable pub effective_steps : List DiscoveryStep → List DiscoveryStep
effective_steps steps = keep (λ s. if s.ok then not (is_terminal s.tool) else false) steps

-- `or None`
abbrev pub text_or_null : String → Json
text_or_null t = if is_text t then str t else null

abbrev pub tool_names : List ToolCall → List String
tool_names [] = []
tool_names (call ∷ calls) = call.name ∷ tool_names calls

abbrev pub has_extracted : Option (String × String) → Bool
has_extracted none = false
has_extracted (some x) = true

unfoldable pub page_changed : UiSnapshot → UiSnapshot → Bool
page_changed after seen =
    not (after.url == seen.url) || not (nat_eq (length after.nodes) (length seen.nodes))

module _ {W : Type 0} (a : DiscoveryAgent W) (h : DiscoveryHost W) (goal target_url : String) where
  abbrev pub noted_by : Actor → EventType → Fields → Progress W → Progress W
  noted_by actor event payload p = record p {
    session = record p.session {
      evidence = emit a.dispatcher.redaction p.session.evidence event actor 0 payload;
    };
  }

  -- `observe`, as the observation of that number.
  abbrev pub observed : ℕ → Session W → UiSnapshot × Session W
  observed n s = Dispatcher.observe a.dispatcher (record s { world = h.settle n s.world })

  abbrev pub prompt_of : UiSnapshot → Progress W → Prompt
  prompt_of seen p = record {
    goal = goal;
    target_url = target_url;
    history = last_of 12 p.history;
    page = seen;
  }

  unfoldable pub call_fields : ℕ → LlmResponse → Fields
  call_fields n r = field "model" (str (if is_text r.model then r.model else h.model_name)) (
      field "provider" (text_or_null r.provider) (
        field "request_id" (text_or_null r.request_id) (
          field "latency_ms" (num (h.latency_ms n)) (
            field "prompt_tokens" (num r.prompt_tokens) (
              field "completion_tokens" (num r.completion_tokens) (
                field "reasoning" (str (a.char_host.from_codes (take 500 (codes r.text))))
                  (field "tool_calls" (arr (texts_of (tool_names r.tool_calls))) end)))))))

  abbrev pub total_tokens : LlmResponse → ℕ
  total_tokens r = r.prompt_tokens + r.completion_tokens

  -- The observation after a step, where the step was carried out.
  unfoldable pub look_after : ℕ → Bool → UiSnapshot → Session W → UiSnapshot × Session W
  look_after n true seen s = observed n s
  look_after n false seen s = (seen, s)

  abbrev pub performed_progress :
      LlmResponse
      → ToolCall
      → DiscoveryStep
      → Feedback
      → Inputs
      → Session W
      → Progress W
      → Progress W
  performed_progress r call step feedback outputs s p = record p {
    session = s;
    history = p.history ++ called r.text call ∷ came_to feedback ∷ [];
    steps = p.steps ++ step ∷ [];
    outputs = outputs;
  }

  unfoldable pub after_perform :
      ℕ → LlmResponse → ToolCall → UiSnapshot → Performing W → Progress W → Option Turn × Progress W
  unfolding look_after page_changed
  after_perform n r call seen (none, (s, outputs)) p =
      (none, record p { session = s; outputs = outputs })
  after_perform n r call seen (some (step, (feedback, denied)), (s, outputs)) p =
      let looked = look_after (n * 2 + 1) step.ok seen s in
      let progressed = page_changed looked.0 seen || has_extracted step.extracted in
      (
        some (acted (total_tokens r) progressed denied),
        performed_progress r call step feedback outputs looked.1 p,
      )

  abbrev pub finish_step : ToolCall → UiSnapshot → ℕ → DiscoveryStep
  finish_step call seen index = record (new_step a call seen index) { ok = true; url_before = "" }

  unfoldable pub on_call :
      ℕ → LlmResponse → ToolCall → UiSnapshot → Progress W → Option Turn × Progress W
  unfolding after_perform
  on_call n r call seen p =
      if call.name == "finish"
      then (
        some (finish (total_tokens r)),
        record p {
          summary = argument "summary" "" call;
          checkpoint_hint = argument "checkpoint" "" call;
          steps = p.steps ++ finish_step call seen (length p.steps) ∷ [];
        },
      )
      else if call.name == "give_up"
      then (some (give_up (total_tokens r)), record p { summary = argument "reason" "" call })
      else after_perform n r call seen
          (perform a (h.new_id n) call seen (length p.steps) p.session p.outputs) p

  unfoldable pub on_calls :
      ℕ → LlmResponse → List ToolCall → UiSnapshot → Progress W → Option Turn × Progress W
  unfolding on_call
  on_calls n r [] seen p = (
    some (no_call (total_tokens r)),
    record p {
      history = p.history ++ said (if is_text r.text then r.text else "(no action)") ∷ nudged ∷ [];
    },
  )
  on_calls n r (call ∷ calls) seen p = on_call n r call seen p

  unfoldable pub on_response :
      ℕ → Result String LlmResponse → UiSnapshot → Progress W → Option Turn × Progress W
  unfolding on_calls call_fields
  on_response n (err e) seen p = (
    some failed,
    noted_by system Bus.note (field "note" (str "model error") (field "error" (str e) end)) p,
  )
  on_response n (ok r) seen p =
      on_calls n r r.tool_calls seen (noted_by automation Bus.llm_call (call_fields n r) p)

  abbrev pub after_look : ℕ → UiSnapshot × Session W → Progress W → Option Turn × Progress W
  after_look n (seen, s) p =
      on_response n (h.complete n (prompt_of seen p)) seen (record p { session = s })

  -- One round of the loop, within the budget.
  unfoldable pub turn : ℕ → Progress W → Option Turn × Progress W
  unfolding on_response
  turn n p = after_look n (observed (n * 2) p.session) p

  abbrev pub Ended : Type 0
  Ended = Exit (StopReason × Budget) × Progress W

  abbrev pub on_stop :
      (Budget → Progress W → Ended) → Option StopReason × Budget → Progress W → Ended
  on_stop rest (some reason, b) p = (value (reason, b), p)
  on_stop rest (none, b) p = rest b p

  abbrev pub on_turn : (Budget → Progress W → Ended) → Budget → Option Turn × Progress W → Ended
  on_turn rest b (none, p) = (raised, p)
  on_turn rest b (some t, p) = on_stop rest (after_turn t b) p

  abbrev pub on_limit :
      (Budget → Progress W → Ended)
      → Option StopReason
      → Budget
      → Option Turn × Progress W
      → Progress W
      → Ended
  on_limit rest (some reason) b r p = (value (reason, b), p)
  on_limit rest none b r p = on_turn rest b r

  -- The loop, for so many rounds at most.
  unfoldable pub rounds : ℕ → ℕ → Budget → Progress W → Ended
  unfolding turn after_turn exceeded
  rounds zero n b p = (unfinished, p)
  rounds (suc fuel) n b p = on_limit (rounds fuel (suc n)) (exceeded (h.elapsed n) b) b (turn n p) p

  unfoldable pub start_fields : Fields
  start_fields = field "kind" (str "discovery") (
      field "goal" (str goal)
        (field "target_url" (str target_url) (field "model" (str h.model_name) end)))

  abbrev pub names_of : Inputs → List String
  names_of [] = []
  names_of ((name, v) ∷ rest) = name ∷ names_of rest

  unfoldable pub end_fields : StopReason → Budget → Progress W → Fields
  unfolding effective_steps
  end_fields reason b p = field "stop_reason" (str (h.reason_name reason)) (
      field "steps_attempted" (num (length p.steps)) (
        field "steps_effective" (num (length (effective_steps p.steps))) (
          field "outputs" (arr (texts_of (h.sorted (names_of p.outputs))))
            (field "budget" (h.summary b) end))))

  abbrev pub ended : Ended → Ended
  ended (value (reason, b), p) =
      (value (reason, b), noted_by automation Bus.run_end (end_fields reason b p) p)
  ended (raised, p) = (raised, p)
  ended (unfinished, p) = (unfinished, p)

  abbrev pub begun : Session W → Progress W
  begun s = noted_by automation Bus.run_start start_fields (record {
    session = s;
    history = [];
    steps = [];
    outputs = [];
    summary = "";
    checkpoint_hint = "";
  })

  -- `run`, for as many rounds as the budget has steps, and one more.
  unfoldable pub run : Budget → Session W → Ended
  unfolding rounds start_fields end_fields
  run b s = ended (rounds (b.max_steps + 1) 0 b (begun s))
