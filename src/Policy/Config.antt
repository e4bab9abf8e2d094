-- ===== src/Policy/Config.antt =====
-- src/cua/policy/config.py: the policy document, as far as the modelled parts read it.
use computer_use_automation.Base.{ℕ, String, Bool, Option, none, some, List}
use computer_use_automation.Domain.Actor.{Actor}
use computer_use_automation.Domain.Action.{ActionRisk, safe, elevated, irreversible}

pub record Allowlist : Type 0 where
  pub domains : List String
  pub url_patterns : List String

pub record ActionPolicy : Type 0 where
  pub allowed : List String
  pub human_only : List String

pub record RiskLexicon : Type 0 where
  pub elevated_words : List String
  pub irreversible_words : List String

pub record RiskPolicy : Type 0 where
  pub default_tier : ActionRisk
  pub tiers_by_action : List (String × ActionRisk)
  pub lexicon : RiskLexicon

pub data DispositionValue : Type 0 where
  allow allow_if_declared allow_if_approved require_confirmation block_and_escalate :
      DispositionValue

pub record Disposition : Type 0 where
  pub on_safe : DispositionValue
  pub on_elevated : DispositionValue
  pub on_irreversible : DispositionValue

pub record ReplayGates : Type 0 where
  pub requires_approval : Bool
  pub requires_optin : Bool

pub record Budgets : Type 0 where
  pub max_steps : ℕ
  pub max_duration_ms : ℕ
  pub max_recovery_attempts_total : ℕ

-- `dispositions` is a dictionary keyed by the actor: a function of it, none where it has no entry.
pub record PolicyConfig : Type 0 where
  pub allowlist : Allowlist
  pub actions : ActionPolicy
  pub risk : RiskPolicy
  pub dispositions : Actor → Option Disposition
  pub replay_gates : ReplayGates
  pub budgets : Budgets

at_tier : Option Disposition → ActionRisk → DispositionValue
at_tier none tier = block_and_escalate
at_tier (some d) safe = d.on_safe
at_tier (some d) elevated = d.on_elevated
at_tier (some d) irreversible = d.on_irreversible

unfoldable pub disposition_for : PolicyConfig → Actor → ActionRisk → DispositionValue
unfolding at_tier
disposition_for config actor tier = at_tier (config.dispositions actor) tier
