-- ===== src/Policy/Irreversible/Gate.antt =====
-- src/cua/policy/irreversible.py: what it takes to pass the gate.
use computer_use_automation.Base.{
  String, true, ◌&&◌, Option, none, some, ◌≡◌, ◌≢◌, refl, arith, ◌⊎◌, inl, inr, eq_iff, Bool-cases,
}
use computer_use_automation.Domain.Approval.{
  CapabilityApproval, permits_unattended_replay, approved,
}
use computer_use_automation.Domain.Capability.{Capability, hash_is_valid}
use computer_use_automation.Domain.Binding.{AppliedBinding, Derivation, substitutes_only, verify}
use computer_use_automation.Policy.Config.{ReplayGates}
use computer_use_automation.Policy.Irreversible.{IrreversibleGrant, refusal, approval_refusal}

-- An approval covers a content: it is approved, and pins that very hash, which is not empty.
pub record Covers (a : CapabilityApproval) (hash : String) : Type 0 where
  pub is_approved : a.state ≡ approved
  pub pins : a.content_hash ≡ hash
  pub sealed : hash ≢ ""

permits-Covers :
    (a : CapabilityApproval) (hash : String)
    → permits_unattended_replay a hash ≡ true
    → Covers a hash
unfolding permits_unattended_replay
permits-Covers a hash h = ground (arith, eq_iff hash "", eq_iff a.content_hash hash)

-- The capability is the product of a binding that only fills slots of a base with a valid hash.
pub record IsDerived (d : Derivation) (a : AppliedBinding) (c : Capability) : Type 0 where
  pub product : Capability
  pub applies : d.apply a.binding a.base ≡ some product
  pub same_hash : product.content_hash ≡ c.content_hash
  pub base_valid : hash_is_valid d.compute_hash a.base ≡ true
  pub slots_only : substitutes_only a.binding ≡ true

module _ (d : Derivation) (c : Capability) where
  pub Approves : CapabilityApproval → Option AppliedBinding → Type 0
  Approves a none = Covers a c.content_hash
  Approves a (some b) = Covers a c.content_hash ⊎ (Covers a b.base.content_hash × IsDerived d b c)

  through :
      (a : CapabilityApproval) (b : AppliedBinding)
      → (p : Option Capability) → d.apply b.binding b.base ≡ p
      → verify d b c ≡ none
      → substitutes_only b.binding ≡ true
      → IsDerived d b c
  unfolding verify
  through a b none e h s = absurd (ground arith)
  through a b (some p) e h s = record {
    product = p;
    applies = e;
    same_hash = ground (arith, eq_iff p.content_hash c.content_hash);
    base_valid = ground arith;
    slots_only = s;
  }

  verified-effective :
      (b : AppliedBinding) → verify d b c ≡ none → hash_is_valid d.compute_hash c ≡ true
  unfolding verify
  verified-effective b h = ground arith

  approved_by :
      (a : CapabilityApproval) (b : Option AppliedBinding)
      → approval_refusal d (some a) b c ≡ none
      → (hash_is_valid d.compute_hash c ≡ true) × Approves a b
  unfolding approval_refusal Approves
  approved_by a none h = (ground arith, permits-Covers a c.content_hash (ground arith))
  approved_by a (some b) h =
      elim (Bool-cases
        (hash_is_valid d.compute_hash c && permits_unattended_replay a c.content_hash)) [
          | inl direct ↦ (ground arith, inl (permits-Covers a c.content_hash (ground arith)))
          | inr other ↦ (
            verified-effective b (ground arith),
            inr (
              permits-Covers a b.base.content_hash (ground arith),
              through a b (d.apply b.binding b.base) refl (ground arith) (ground arith),
            ),
          )
        ]

-- With both gates on, a capability that the grant is not refused has been opted in to by the caller,
-- matches its own content hash, and is approved: an approval that is in force pins its non-empty hash,
-- or pins the valid hash of a base of which a binding that only fills slots derives the same content.
pub refusal-none :
    (d : Derivation) (g : IrreversibleGrant) (c : Capability) (gates : ReplayGates)
    → gates.requires_optin ≡ true
    → gates.requires_approval ≡ true
    → refusal d g c gates ≡ none
    → (g.caller_opt_in ≡ true)
      × (hash_is_valid d.compute_hash c ≡ true)
      × ((a : CapabilityApproval) × (g.approval ≡ some a) × Approves d c a g.applied_binding)
unfolding refusal
refusal-none d g c gates o r h = from_approval g.approval refl
  where
    from_approval :
        (x : Option CapabilityApproval)
        → g.approval ≡ x
        → (g.caller_opt_in ≡ true)
          × (hash_is_valid d.compute_hash c ≡ true)
          × ((a : CapabilityApproval) × (g.approval ≡ some a) × Approves d c a g.applied_binding)
    from_approval none e = absurd (ground arith)
    from_approval (some a) e =
        let (valid, by) = approved_by d c a g.applied_binding (ground arith) in
        (ground arith, valid, (a, e, by))
