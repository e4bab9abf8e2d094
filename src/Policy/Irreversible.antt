-- ===== src/Policy/Irreversible.antt =====
-- src/cua/policy/irreversible.py: what a run presents to be allowed an irreversible step.
pub mod Gate
use computer_use_automation.Base.{
  String, Bool, true, false, ◌&&◌, not, Option, none, some, if◌then◌else◌, ◌==◌,
}
use computer_use_automation.Domain.Approval.{CapabilityApproval, permits_unattended_replay}
use computer_use_automation.Domain.Capability.{Capability, hash_is_valid}
use computer_use_automation.Domain.Binding.{
  AppliedBinding, BindingProblem, Derivation, substitutes_only, verify,
}
use computer_use_automation.Policy.Config.{ReplayGates}

pub record IrreversibleGrant : Type 0 where
  pub approval : Option CapabilityApproval
  pub caller_opt_in : Bool
  pub applied_binding : Option AppliedBinding

-- The reasons of a refusal, before they are formatted.
pub data GrantRefusal : Type 0 where
  no_opt_in not_approved binding_overrides : GrantRefusal
  binding_problem : BindingProblem → GrantRefusal

module _ (d : Derivation) where
  through_binding :
      CapabilityApproval → AppliedBinding → Option BindingProblem → Option GrantRefusal
  through_binding approval applied (some problem) = some (binding_problem problem)
  through_binding approval applied none =
      if not (substitutes_only applied.binding)
      then some binding_overrides
      else if not (permits_unattended_replay approval applied.base.content_hash)
      then some not_approved
      else none

  by_binding : CapabilityApproval → Capability → Option AppliedBinding → Option GrantRefusal
  unfolding through_binding
  by_binding approval capability none = some not_approved
  by_binding approval capability (some applied) =
      through_binding approval applied (verify d applied capability)

  -- `_approval_refusal`
  unfoldable pub approval_refusal :
      Option CapabilityApproval → Option AppliedBinding → Capability → Option GrantRefusal
  unfolding by_binding
  approval_refusal none applied capability = some not_approved
  approval_refusal (some approval) applied capability =
      if hash_is_valid d.compute_hash capability
        && permits_unattended_replay approval capability.content_hash
      then none
      else by_binding approval capability applied

  unfoldable pub refusal : IrreversibleGrant → Capability → ReplayGates → Option GrantRefusal
  unfolding approval_refusal
  refusal grant capability gates =
      if gates.requires_optin && not grant.caller_opt_in
      then some no_opt_in
      else if gates.requires_approval
      then approval_refusal grant.approval grant.applied_binding capability
      else none

-- `basis`: what the evidence records of the grant, before it is formatted. `via` is the tenant of
-- the binding, if the approval pins another content than the capability's.
pub record Basis : Type 0 where
  pub opted_in : Bool
  pub approval : Option CapabilityApproval
  pub via : Option String

basis_of : Bool → Option CapabilityApproval → Option AppliedBinding → String → Basis
basis_of opted none applied hash = record { opted_in = opted; approval = none; via = none }
basis_of opted (some a) none hash = record { opted_in = opted; approval = some a; via = none }
basis_of opted (some a) (some b) hash = record {
  opted_in = opted;
  approval = some a;
  via = if a.content_hash == hash then none else some b.binding.tenant;
}

unfoldable pub basis : IrreversibleGrant → Capability → Basis
unfolding basis_of
basis g capability = basis_of g.caller_opt_in g.approval g.applied_binding capability.content_hash
