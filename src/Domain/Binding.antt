-- ===== src/Domain/Binding.antt =====
-- src/cua/domain/tenant_binding.py: an institution's overlay on a shared capability, and the check
-- that a capability is the product of one. The product itself, `TenantBinding.apply`, rewrites the
-- serialized form of the capability and is an argument; none is the `ValueError` that it raises.
use computer_use_automation.Base.{
  ℕ, String, Bool, ◌&&◌, not, Option, none, some, List, ◌==◌, is_empty, is_some, if◌then◌else◌,
}
use computer_use_automation.Domain.Snapshot.{NodeScope}
use computer_use_automation.Domain.Predicates.{Predicate}
use computer_use_automation.Domain.Target.{Anchor, NameMatch}
use computer_use_automation.Domain.Capability.{Capability, RecoveryRule, WaitPolicy, hash_is_valid}

pub record TargetOverride : Type 0 where
  pub role : Option String
  pub name : Option NameMatch
  pub scope : Option NodeScope
  pub anchor : Option Anchor
  pub ordinal : Option ℕ
  pub hints : Option (List (String × String))

pub record StepOverride : Type 0 where
  pub target : Option TargetOverride
  pub wait : Option WaitPolicy
  pub precondition : Option Predicate
  pub postcondition : Option Predicate

pub record TenantBinding : Type 0 where
  pub capability_ref : String
  pub tenant : String
  pub vars : List (String × String)
  pub overrides : List (String × StepOverride)
  pub recovery_extra : List RecoveryRule
  pub checkpoint : Option Predicate

unfoldable pub substitutes_only : TenantBinding → Bool
substitutes_only b = is_empty b.overrides && is_empty b.recovery_extra && not (is_some b.checkpoint)

pub record AppliedBinding : Type 0 where
  pub base : Capability
  pub binding : TenantBinding

pub data BindingProblem : Type 0 where
  base_hash_invalid effective_hash_invalid does_not_apply changed_after_binding : BindingProblem

-- What the model of bindings needs from outside: the hash over the canonical bytes, and `apply`.
pub record Derivation : Type 0 where
  pub compute_hash : Capability → String
  pub apply : TenantBinding → Capability → Option Capability

derived_problem : Option Capability → Capability → Option BindingProblem
derived_problem none effective = some does_not_apply
derived_problem (some derived) effective =
    if not (derived.content_hash == effective.content_hash)
    then some changed_after_binding
    else none

-- `AppliedBinding.verify`
unfoldable pub verify : Derivation → AppliedBinding → Capability → Option BindingProblem
unfolding derived_problem
verify d a effective =
    if not (hash_is_valid d.compute_hash a.base)
    then some base_hash_invalid
    else if not (hash_is_valid d.compute_hash effective)
    then some effective_hash_invalid
    else derived_problem (d.apply a.binding a.base) effective
