-- ===== src/Policy/Risk/Highest.antt =====
-- src/cua/policy/risk.py: the highest tier wins.
use Prim.Native.Nat.{max}
use computer_use_automation.Base.{
  ℕ, String, ◌≡◌, ◌↔◌, true, false, Option, none, some, List, ◌++◌, arith, mem, lookup, or_else,
  Any, any_iff, refl, Bool-cases, inl, inr,
}
use computer_use_automation.Domain.Snapshot.{UiNode}
use computer_use_automation.Domain.Text.{codes, occurs_in}
use computer_use_automation.Domain.Capability.{is_set}
use computer_use_automation.Domain.Action.{Action, ActionRisk, action_type, read_only_actions}
use computer_use_automation.Policy.Config.{RiskPolicy, RiskLexicon}
use computer_use_automation.Policy.Risk.{
  rank, highest, tier_list, word_in, named_tier, semantic_tier, classify,
}

-- The danger of a signal that may be absent.
abbrev pub danger : Option ActionRisk → ℕ
danger none = 0
danger (some t) = rank t

rank-highest :
    (best : ActionRisk) (a b c : Option ActionRisk)
    → rank (highest best (tier_list a ++ tier_list b ++ tier_list c))
      ≡ max (max (rank best) (danger a)) (max (danger b) (danger c))
unfolding highest rank
rank-highest best a b c = ground arith

-- What the lexicon says of a control: 2 for one whose name, in lower case, has an irreversible word in
-- it, 1 for one whose name has none of those but an elevated word, and otherwise 0.
module _ (lower : String → String) (lexicon : RiskLexicon) where
  abbrev Says : List String → String → Type 0
  Says words name = Any (λ w. occurs_in (codes w) (codes (lower name)) ≡ true) words

  pub data Rates : Option UiNode → ℕ → Type 0 where
    no_control : Rates none 0
    unnamed : (n : UiNode) → n.name ≡ none → Rates (some n) 0
    blank :
        (n : UiNode) (name : String) → n.name ≡ some name → is_set name ≡ false → Rates (some n) 0
    grave :
        (n : UiNode) (name : String)
        → n.name ≡ some name
        → is_set name ≡ true
        → Says lexicon.irreversible_words name
        → Rates (some n) 2
    risky :
        (n : UiNode) (name : String)
        → n.name ≡ some name
        → is_set name ≡ true
        → ¬ (Says lexicon.irreversible_words name)
        → Says lexicon.elevated_words name
        → Rates (some n) 1
    harmless :
        (n : UiNode) (name : String)
        → n.name ≡ some name
        → is_set name ≡ true
        → ¬ (Says lexicon.irreversible_words name)
        → ¬ (Says lexicon.elevated_words name)
        → Rates (some n) 0

  word_in-Says :
      (words : List String) (name : String) → (word_in lower words name ≡ true) ↔ Says words name
  word_in-Says words name =
      any_iff (λ w. occurs_in (codes w) (codes (lower name)))
        (λ w. occurs_in (codes w) (codes (lower name)) ≡ true) (λ w. ((λ h. h), λ h. h)) words

  unsaid :
      (words : List String) (name : String) → word_in lower words name ≡ false → ¬ (Says words name)
  unsaid words name h says = let found = (word_in-Says words name).1 says in absurd (ground arith)

  semantic_tier-Rates :
      (target : Option UiNode) → Rates target (danger (semantic_tier lower lexicon target))
  unfolding semantic_tier rank
  semantic_tier-Rates none = no_control
  semantic_tier-Rates (some n) = at_name n.name refl
    where
      at_name :
          (o : Option String) → n.name ≡ o → Rates (some n) (danger (named_tier lower lexicon o))
      at_name none e = unnamed n e
      at_name (some name) e = elim (Bool-cases (is_set name)) [
        | inr f ↦ rw f (blank n name e f)
        | inl f ↦ rw f (elim (Bool-cases (word_in lower lexicon.irreversible_words name)) [
          | inl g ↦ rw g (grave n name e f ((word_in-Says lexicon.irreversible_words name).0 g))
          | inr g ↦ rw g (elim (Bool-cases (word_in lower lexicon.elevated_words name)) [
            | inl k ↦ rw k (
                risky n name e f (unsaid lexicon.irreversible_words name g)
                  ((word_in-Says lexicon.elevated_words name).0 k))
            | inr k ↦ rw k (
                harmless n name e f (unsaid lexicon.irreversible_words name g)
                  (unsaid lexicon.elevated_words name k))
          ])
        ])
      ]

-- Of an action that may change something, the assessed danger is exactly the greatest of the four:
-- the default, what the policy says of the action's type, what the lexicon says of the control's
-- name (2 if an irreversible word is in it, otherwise 1 if an elevated word is, otherwise 0), and the
-- declaration (the step's if there is one, or else the action's own).
pub rank-classify :
    (lower : String → String) (config : RiskPolicy) (action : Action) (target : Option UiNode)
    (declared : Option ActionRisk)
    → mem (action_type action) read_only_actions ≡ false
    → (said : ℕ) × Rates lower config.lexicon target said
      × (rank (classify lower config action target declared).tier
          ≡ max
              (max
                (rank config.default_tier)
                (danger (lookup (action_type action) config.tiers_by_action)))
              (max said (danger (or_else declared action.risk))))
unfolding classify
rank-classify lower config action target declared h = (
  danger (semantic_tier lower config.lexicon target),
  semantic_tier-Rates lower config.lexicon target,
  rw h (
      rank-highest config.default_tier (lookup (action_type action) config.tiers_by_action)
        (semantic_tier lower config.lexicon target) (or_else declared action.risk)),
)
