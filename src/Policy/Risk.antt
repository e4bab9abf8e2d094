-- ===== src/Policy/Risk.antt =====
-- src/cua/policy/risk.py: how much damage an action could do, from three signals.
pub mod Highest
use computer_use_automation.Base.{
  ℕ, String, Bool, true, false, not, Option, none, some, List, [], ◌∷◌, ◌++◌, ltb, any, mem, lookup,
  or_else, if◌then◌else◌, get_or,
}
use computer_use_automation.Domain.Snapshot.{UiNode}
use computer_use_automation.Domain.Text.{codes, occurs_in}
use computer_use_automation.Domain.Capability.{is_set}
use computer_use_automation.Domain.Action.{
  Action, ActionRisk, safe, elevated, irreversible, is_risk, action_type, read_only_actions,
}
use computer_use_automation.Policy.Config.{RiskPolicy, RiskLexicon}

-- The signals, before they are formatted.
pub data Signal : Type 0 where
  read_only_action : Signal
  by_action : String → Signal
  by_lexicon : String → Signal
  by_declaration : ActionRisk → Signal

pub record RiskAssessment : Type 0 where
  pub tier : ActionRisk
  pub signals : List Signal

-- `_ORDER.index`
unfoldable pub rank : ActionRisk → ℕ
rank safe = 0
rank elevated = 1
rank irreversible = 2

-- `max(tiers, key=_ORDER.index)` of a list that begins with `best`: the first of the greatest.
unfoldable pub highest : ActionRisk → List ActionRisk → ActionRisk
unfolding rank
highest best [] = best
highest best (t ∷ ts) = highest (if ltb (rank best) (rank t) then t else best) ts

abbrev pub tier_list : Option ActionRisk → List ActionRisk
tier_list none = []
tier_list (some t) = t ∷ []

unless_safe : Option ActionRisk → (ActionRisk → Signal) → List Signal
unless_safe none f = []
unless_safe (some t) f = if is_risk t safe then [] else f t ∷ []

abbrev pub lexicon_tier : Bool → Bool → Option ActionRisk
lexicon_tier true e = some irreversible
lexicon_tier false true = some elevated
lexicon_tier false false = none

module _ (lower : String → String) where
  -- `any(word in name for word in words)`
  abbrev pub word_in : List String → String → Bool
  word_in words name = any (λ w. occurs_in (codes w) (codes (lower name))) words

  named_tier : RiskLexicon → Option String → Option ActionRisk
  named_tier lexicon none = none
  named_tier lexicon (some name) =
      if is_set name
      then lexicon_tier (word_in lexicon.irreversible_words name)
          (word_in lexicon.elevated_words name)
      else none

  abbrev name_of : Option UiNode → Option String
  name_of none = none
  name_of (some n) = n.name

  -- The tier that the lexicon gives a control.
  unfoldable pub semantic_tier : RiskLexicon → Option UiNode → Option ActionRisk
  unfolding named_tier
  semantic_tier lexicon target = named_tier lexicon (name_of target)

  combine :
      RiskPolicy
      → String
      → Option ActionRisk
      → Option String
      → Option ActionRisk
      → Option ActionRisk
      → RiskAssessment
  unfolding unless_safe
  combine config type_name by name semantic annotated = record {
    tier = highest config.default_tier (tier_list by ++ tier_list semantic ++ tier_list annotated);
    signals =
        unless_safe by (λ _. by_action type_name)
        ++ unless_safe semantic (λ _. by_lexicon (get_or name ""))
        ++ unless_safe annotated by_declaration;
  }

  unfoldable pub classify : RiskPolicy → Action → Option UiNode → Option ActionRisk → RiskAssessment
  unfolding combine
  classify config action target declared =
      if mem (action_type action) read_only_actions
      then record { tier = safe; signals = read_only_action ∷ [] }
      else combine config (action_type action) (lookup (action_type action) config.tiers_by_action)
          (name_of target) (semantic_tier config.lexicon target) (or_else declared action.risk)
