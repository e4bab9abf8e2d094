-- ===== src/Domain/Approval.antt =====
-- src/cua/domain/approval.py: the decision of a reviewer about one exact content.
use computer_use_automation.Base.{
  String, Bool, true, false, ◌&&◌, ◌||◌, not, Option, ◌==◌, if◌then◌else◌,
}
use computer_use_automation.Domain.Capability.{is_set}

pub data ApprovalState : Type 0 where
  draft approved rejected revoked : ApprovalState

abbrev pub is_approved : ApprovalState → Bool
is_approved approved = true
is_approved _ = false

pub record CapabilityApproval : Type 0 where
  pub capability_ref : String
  pub content_hash : String
  pub state : ApprovalState
  pub approved_by : Option String

unfoldable pub permits_unattended_replay : CapabilityApproval → String → Bool
permits_unattended_replay a content_hash =
    if not (is_set a.content_hash) || not (is_set content_hash)
    then false
    else is_approved a.state && a.content_hash == content_hash
