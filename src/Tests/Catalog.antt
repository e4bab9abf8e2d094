-- ===== src/Tests/Catalog.antt =====
-- src/cua/catalog/approvals.py on the small deployment.
use computer_use_automation.Base.{
  ◌≡◌, ◌↔◌, refl, true, not, ◌&&◌, some, [], ◌∷◌, arith, ◌==◌, eq_iff, lookup, if◌then◌else◌,
}
use computer_use_automation.Domain.Approval.{
  draft, approved, is_approved, CapabilityApproval, permits_unattended_replay,
}
use computer_use_automation.Catalog.Approvals.{ApprovalStore, load, state_for, record_decision}
use computer_use_automation.Catalog.Approvals.Shown.{state_for-approved, state_for-record_decision}
use computer_use_automation.Tests.Data.{approval}

abbrev store : ApprovalStore
store = ("save_form@1", approval) ∷ []

edited_is_draft : state_for store "save_form@1" "h2" ≡ draft
unfolding state_for lookup
edited_is_draft = refl

state_for-approved_example : (state_for store "save_form@1" "h1" ≡ approved) ↔ (
    (a : CapabilityApproval) × (load store "save_form@1" ≡ some a)
    × (permits_unattended_replay a "h1" ≡ true))
state_for-approved_example =
    state_for-approved store "save_form@1" "h1" (ground (arith, eq_iff "h1" ""))

state_for-record_decision_example :
    state_for (record_decision [] "save_form@1" "h1" approved "ann") "save_form@1" "h2" ≡ (
      if "save_form@1" == "save_form@1"
      then (if is_approved approved && not ("h1" == "h2") then draft else approved)
      else state_for [] "save_form@1" "h2")
state_for-record_decision_example =
    state_for-record_decision [] "save_form@1" "save_form@1" "h1" "h2" "ann" approved
