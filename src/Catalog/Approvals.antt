-- ===== src/Catalog/Approvals.antt =====
-- src/cua/catalog/approvals.py: approval records by capability reference. The files of the directory are
-- a dictionary; a record that does not parse, and the time and the notes of a decision, are left out.
pub mod Shown
use computer_use_automation.Base.{
  String, Bool, true, false, ◌&&◌, not, Option, none, some, List, [], ◌∷◌, lookup, insert, ◌==◌,
  if◌then◌else◌,
}
use computer_use_automation.Domain.Approval.{ApprovalState, draft, is_approved, CapabilityApproval}

abbrev pub ApprovalStore : Type 0
ApprovalStore = List (String × CapabilityApproval)

unfoldable pub load : ApprovalStore → String → Option CapabilityApproval
load store ref = lookup ref store

displayed : Option CapabilityApproval → String → ApprovalState
displayed none content_hash = draft
displayed (some a) content_hash =
    if is_approved a.state && not (a.content_hash == content_hash) then draft else a.state

unfoldable pub state_for : ApprovalStore → String → String → ApprovalState
unfolding displayed load
state_for store ref content_hash = displayed (load store ref) content_hash

unfoldable pub record_decision :
    ApprovalStore → String → String → ApprovalState → String → ApprovalStore
record_decision store ref content_hash state by =
    insert ref
      (record {
        capability_ref = ref;
        content_hash = content_hash;
        state = state;
        approved_by = some by;
      })
      store
