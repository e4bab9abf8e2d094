-- ===== src/Catalog/Approvals/Shown.antt =====
-- src/cua/catalog/approvals.py with domain/approval.py: the catalog shows as approved what the gate accepts.
use computer_use_automation.Base.{
  String, ◌≡◌, ◌≢◌, ◌↔◌, refl, true, ◌&&◌, not, Option, none, some, arith, lookup-insert, ◌==◌,
  eq_iff, if◌then◌else◌, Bool-cases, inl, inr,
}
use computer_use_automation.Domain.Approval.{
  ApprovalState, draft, approved, is_approved, CapabilityApproval, permits_unattended_replay,
}
use computer_use_automation.Catalog.Approvals.{
  ApprovalStore, load, displayed, state_for, record_decision,
}

shown_of :
    (a : CapabilityApproval) (content_hash : String)
    → content_hash ≢ ""
    → (displayed (some a) content_hash ≡ approved)
      ↔ (permits_unattended_replay a content_hash ≡ true)
unfolding displayed permits_unattended_replay
shown_of a content_hash h = (
  ground
      (arith, eq_iff content_hash "", eq_iff a.content_hash "", eq_iff a.content_hash content_hash),
  ground (arith, eq_iff a.content_hash content_hash),
)

-- The catalog shows a content as approved exactly when the reference has a record that permits that
-- content's unattended replay, for a content whose hash is not empty.
pub state_for-approved :
    (store : ApprovalStore) (ref content_hash : String)
    → content_hash ≢ ""
    → (state_for store ref content_hash ≡ approved) ↔ (
        (a : CapabilityApproval) × (load store ref ≡ some a)
        × (permits_unattended_replay a content_hash ≡ true))
unfolding state_for
state_for-approved store ref content_hash h = at_record (load store ref)
  where
    at_record :
        (found : Option CapabilityApproval)
        → (displayed found content_hash ≡ approved) ↔ (
            (a : CapabilityApproval) × (found ≡ some a)
            × (permits_unattended_replay a content_hash ≡ true))
    at_record none = ((λ e. absurd (ground arith)), λ (a, e, p). absurd (ground arith))
    at_record (some a) = (
      (λ e. (a, refl, (shown_of a content_hash h).0 e)),
      λ (b, e, p). let same : a ≡ b = ground arith in (shown_of a content_hash h).1 (rw same p),
    )

-- A decision is shown for its reference and content and as it was taken, an approval as a draft for any
-- other content of the reference; other references show what they did.
pub state_for-record_decision :
    (store : ApprovalStore) (ref other content_hash shown_hash by : String) (state : ApprovalState)
    → state_for (record_decision store ref content_hash state by) other shown_hash ≡ (
        if ref == other
        then (if is_approved state && not (content_hash == shown_hash) then draft else state)
        else state_for store other shown_hash)
unfolding state_for record_decision
state_for-record_decision store ref other content_hash shown_hash by state =
    rw
      (lookup-insert ref other
        (record {
          capability_ref = ref;
          content_hash = content_hash;
          state = state;
          approved_by = some by;
        })
        store)
      (elim (Bool-cases (ref == other)) [ inl e ↦ rw e refl | inr e ↦ rw e refl ])
