-- ===== src/Assist/Recovery/Answered.antt =====
-- src/cua/assist/recovery.py: what a model's answer may be.
use computer_use_automation.Base.{
  suc, String, Bool, true, false, Bool-cases, ◌≡◌, refl, ap, arith, inl, inr, Option, none, some,
  List, [], ◌∷◌, Result, ok, err,
}
use computer_use_automation.Domain.Snapshot.{UiNode, UiSnapshot}
use computer_use_automation.Domain.Snapshot.Tree.{by_id}
use computer_use_automation.Domain.Target.{TargetDescriptor}
use computer_use_automation.Domain.Action.{
  Action, Operation, click, type_text, select_option, irreversible, is_risk,
}
use computer_use_automation.Policy.Risk.{classify}
use computer_use_automation.Targeting.Synthesize.{synthesize_descriptor}
use computer_use_automation.Runtime.Dispatcher as Dispatcher
use computer_use_automation.Domain.Capability.{Capability}
use computer_use_automation.Evidence.Bus as Bus
use computer_use_automation.Replay.Result.{RunResult}
use computer_use_automation.Replay.Executor.State.{
  note, Live, Exit, value, raised, unfinished, observe, world_of, session_of,
}
use computer_use_automation.Replay.Executor.Moves.{Walks, Walks-bind, Walks-return, Walks-if}
use computer_use_automation.Replay.Executor.Walked.Parts.{
  observe-Walks, next_reading-Walks, note-Walks,
}
use computer_use_automation.Replay.Executor.Surface.{world_of-put_session}
use computer_use_automation.Agent.Tools.{ToolCall, LlmResponse, node_id_from}
use computer_use_automation.Assist.Recovery.{
  AssistOutcome, AssistedReplay, action_for, is_reversible, Answer, assist_note, declined,
  on_action, on_node, on_calls, on_response, ask,
}

module _ {W : Type 0} (a : AssistedReplay W) where
  abbrev pub is_offered : Operation → Bool
  is_offered (click target) = true
  is_offered (type_text target text clear_first) = true
  is_offered (select_option target text) = true
  is_offered _ = false

  -- What a call makes of the page that the model was shown: a click, a text or a selection on the control
  -- that the call names, which is on that page and on which the classifier does not call the action
  -- irreversible.
  pub record IsChosen (seen : UiSnapshot) (call : ToolCall) (action : Action) : Type 0 where
    pub named : UiNode
    pub found : by_id seen.nodes (node_id_from a.executor.char_host call) ≡ some named
    pub made : action_for call (synthesize_descriptor a.names named seen).descriptor ≡ some action
    pub offered : is_offered action.operation ≡ true
    pub reversible :
        is_risk
          (classify a.executor.dispatcher.host.url.lower a.executor.dispatcher.policy.risk action
            (some named)
            none).tier
          irreversible
        ≡ false

  -- The page that is observed next.
  abbrev pub page_at : Live W → UiSnapshot
  page_at v =
      a.executor.dispatcher.driver.observe (a.executor.around.settle v.readings (world_of v))

  -- The action is the first call's of what the model answers, shown the page as it is observed then and
  -- what came of the run.
  pub record IsCorrective (c : Capability) (r : RunResult) (v : Live W) (action : Action)
      : Type 0 where
    pub seen : UiSnapshot
    pub shown : seen ≡ page_at v
    pub response : LlmResponse
    pub call : ToolCall
    pub others : List ToolCall
    pub answered : a.llm.complete (suc v.readings) (a.llm.prompt c r seen) ≡ ok response
    pub first : response.tool_calls ≡ call ∷ others
    pub chosen : IsChosen seen call action

  abbrev pub AnsweredBy : (Action → Type 0) → Exit (Answer a) → Type 0
  AnsweredBy P (value (some action, o)) = P action
  AnsweredBy P _ = Unit {0}

  AnsweredBy-map :
      (P Q : Action → Type 0) (e : Exit (Answer a))
      → ((action : Action) → P action → Q action)
      → AnsweredBy P e
      → AnsweredBy Q e
  AnsweredBy-map P Q (value (some action, o)) k p = k action p
  AnsweredBy-map P Q (value (none, o)) k p = tt
  AnsweredBy-map P Q raised k p = tt
  AnsweredBy-map P Q unfinished k p = tt

  action_for_offered :
      (call : ToolCall) (target : TargetDescriptor) (action : Action)
      → action_for call target ≡ some action
      → is_offered action.operation ≡ true
  unfolding action_for
  action_for_offered call target action h = ground arith

  on_action-IsChosen :
      (o : AssistOutcome) (call : ToolCall) (seen : UiSnapshot) (n : UiNode) (m : Option Action)
      (v : Live W)
      → by_id seen.nodes (node_id_from a.executor.char_host call) ≡ some n
      → action_for call (synthesize_descriptor a.names n seen).descriptor ≡ m
      → AnsweredBy
          (IsChosen seen call)
          (on_action a o call (synthesize_descriptor a.names n seen).descriptor n m v).0
  unfolding on_action declined assist_note note is_reversible
  on_action-IsChosen o call seen n none v found made = tt
  on_action-IsChosen o call seen n (some action) v found made =
      let t = (synthesize_descriptor a.names n seen).descriptor in
      elim (Bool-cases (
        is_risk
          (classify a.executor.dispatcher.host.url.lower a.executor.dispatcher.policy.risk action
            (some n) none).tier
          irreversible)) [
            | inl held ↦ rw held tt
            | inr free ↦ rw free (record {
              named = n;
              found = found;
              made = made;
              offered = action_for_offered call t action made;
              reversible = free;
            })
          ]

  on_node-IsChosen :
      (o : AssistOutcome) (call : ToolCall) (seen : UiSnapshot) (n : Option UiNode) (v : Live W)
      → by_id seen.nodes (node_id_from a.executor.char_host call) ≡ n
      → AnsweredBy (IsChosen seen call) (on_node a o call seen n v).0
  unfolding on_node declined assist_note note
  on_node-IsChosen o call seen none v found = tt
  on_node-IsChosen o call seen (some n) v found = on_action-IsChosen o call seen n _ v found refl

  on_response-IsCorrective :
      (o : AssistOutcome) (c : Capability) (r : RunResult) (v : Live W) (seen : UiSnapshot)
      (answer : Result String LlmResponse) (w : Live W)
      → seen ≡ page_at v
      → a.llm.complete (suc v.readings) (a.llm.prompt c r seen) ≡ answer
      → AnsweredBy (IsCorrective c r v) (on_response a o seen answer w).0
  unfolding on_response on_calls note
  on_response-IsCorrective o c r v seen (err e) w shown h = tt
  on_response-IsCorrective o c r v seen (ok response) w shown h =
      at_calls response.tool_calls _ _ refl
    where
      at_calls :
          (calls : List ToolCall) (p : AssistOutcome) (u : Live W)
          → response.tool_calls ≡ calls
          → AnsweredBy (IsCorrective c r v) (on_calls a p seen calls u).0
      at_calls [] p u q = tt
      at_calls (call ∷ calls) p u q =
          AnsweredBy-map (IsChosen seen call) (IsCorrective c r v)
            (on_calls a p seen (call ∷ calls) u).0
            (λ action k. record {
              seen = seen;
              shown = shown;
              response = response;
              call = call;
              others = calls;
              answered = h;
              first = q;
              chosen = k;
            })
            (on_node-IsChosen p call seen _ u refl)

  pub ask-IsCorrective :
      (o : AssistOutcome) (c : Capability) (r : RunResult) (v : Live W)
      → AnsweredBy (IsCorrective c r v) (ask a o c r v).0
  unfolding ask observe Dispatcher.observe
  ask-IsCorrective o c r v =
      let looking = record v { readings = suc v.readings } in
      on_response-IsCorrective o c r v _ _ _
        (ap a.executor.dispatcher.driver.observe (
          world_of-put_session
            (record (session_of v.site) {
              world = a.executor.around.settle v.readings (world_of v);
            })
            looking))
        refl

  pub assist_note-Walks : (text detail : String) → Walks a.executor (assist_note a text detail)
  unfolding assist_note
  assist_note-Walks text detail = note-Walks a.executor Bus.note 0 _ refl

  on_node-Walks :
      (o : AssistOutcome) (call : ToolCall) (seen : UiSnapshot) (n : Option UiNode)
      → Walks a.executor (on_node a o call seen n)
  unfolding on_node on_action declined
  on_node-Walks o call seen none =
      Walks-bind a.executor _ _ (assist_note-Walks _ _) (λ _. Walks-return a.executor _)
  on_node-Walks o call seen (some n) = at_action (action_for call _) _
    where
      at_action :
          (m : Option Action) (t : TargetDescriptor) → Walks a.executor (on_action a o call t n m)
      at_action none t =
          Walks-bind a.executor _ _ (assist_note-Walks _ _) (λ _. Walks-return a.executor _)
      at_action (some action) t =
          Walks-if a.executor _ _ _ (Walks-return a.executor _)
            (Walks-bind a.executor _ _ (assist_note-Walks _ _) (λ _. Walks-return a.executor _))

  on_response-Walks :
      (o : AssistOutcome) (seen : UiSnapshot) (r : Result String LlmResponse)
      → Walks a.executor (on_response a o seen r)
  unfolding on_response on_calls
  on_response-Walks o seen (err e) = Walks-return a.executor _
  on_response-Walks o seen (ok response) =
      Walks-bind a.executor _ _ (note-Walks a.executor Bus.llm_call 0 _ refl)
        (λ _. at_calls response.tool_calls _)
    where
      at_calls :
          (calls : List ToolCall) (p : AssistOutcome) → Walks a.executor (on_calls a p seen calls)
      at_calls [] p = Walks-return a.executor _
      at_calls (call ∷ calls) p = on_node-Walks _ call seen _

  pub ask-Walks :
      (o : AssistOutcome) (c : Capability) (r : RunResult) → Walks a.executor (ask a o c r)
  unfolding ask
  ask-Walks o c r = Walks-bind a.executor _ _ (observe-Walks a.executor) (λ seen.
      Walks-bind a.executor _ _ (next_reading-Walks a.executor) (λ n. on_response-Walks o seen _))
