-- ===== src/Domain/Capability/Summary.antt =====
-- src/cua/domain/capability.py: what other parts ask of a capability as a whole.
use Prim.Native.String
use computer_use_automation.Base.{
  ℕ, String, Bool, true, false, List, [], ◌∷◌, ◌++◌, ltb, if◌then◌else◌,
}
use computer_use_automation.Domain.Action.{ActionRisk, safe, elevated, irreversible}
use computer_use_automation.Domain.Capability.{
  Capability, Step, InputSpec, OutputSpec, EscalationDisposition, pause_and_request_human,
  fail_closed,
}

unfoldable pub ref : Capability → String
ref c = String.◌++◌ c.id (String.◌++◌ "@" c.version)

unfoldable pub sensitive_inputs : List InputSpec → List String
sensitive_inputs [] = []
sensitive_inputs (spec ∷ specs) =
    let rest = sensitive_inputs specs in if spec.sensitive then spec.name ∷ rest else rest

unfoldable pub sensitive_outputs : List OutputSpec → List String
sensitive_outputs [] = []
sensitive_outputs (spec ∷ specs) =
    let rest = sensitive_outputs specs in if spec.sensitive then spec.name ∷ rest else rest

-- A set, as the list of its members, in which a name may come twice.
unfoldable pub sensitive_names : Capability → List String
unfolding sensitive_inputs sensitive_outputs
sensitive_names c = sensitive_inputs c.inputs ++ sensitive_outputs c.outputs

-- `order.index`
unfoldable pub order_index : ActionRisk → ℕ
order_index safe = 0
order_index elevated = 1
order_index irreversible = 2

-- `max(..., key=...)`: the first of the greatest.
unfoldable pub riskier : ActionRisk → ActionRisk → ActionRisk
unfolding order_index
riskier a b = if ltb (order_index a) (order_index b) then b else a

unfoldable pub riskiest : ActionRisk → List Step → ActionRisk
unfolding riskier
riskiest so_far [] = so_far
riskiest so_far (step ∷ steps) = riskiest (riskier so_far step.risk) steps

-- The default of an empty sequence is the least of the tiers.
unfoldable pub max_risk : Capability → ActionRisk
unfolding riskiest
max_risk c = riskiest safe c.steps

abbrev pub asks_for_human : EscalationDisposition → Bool
asks_for_human pause_and_request_human = true
asks_for_human fail_closed = false
