-- ===== src/Domain/Result.antt =====
-- src/cua/domain/result.py: why a run failed, and which failures a person could resolve.
use computer_use_automation.Base.{String, Bool, true, false, List, ◌==◌, any}

pub data FailureCode : Type 0 where
  target_not_found target_ambiguous precondition_failed checkpoint_failed action_failed timed_out :
      FailureCode
  navigation_blocked_code policy_denied surface_unavailable recovery_exhausted : FailureCode
  input_validation_failed unexpected_state lease_lost_code internal : FailureCode

-- `code in ESCALATABLE`
unfoldable pub is_escalatable : FailureCode → Bool
is_escalatable target_not_found = true
is_escalatable target_ambiguous = true
is_escalatable checkpoint_failed = true
is_escalatable recovery_exhausted = true
is_escalatable unexpected_state = true
is_escalatable policy_denied = true
is_escalatable _ = false

-- The value of a member, by which members compare.
unfoldable pub code_name : FailureCode → String
code_name target_not_found = "target_not_found"
code_name target_ambiguous = "target_ambiguous"
code_name precondition_failed = "precondition_failed"
code_name checkpoint_failed = "checkpoint_failed"
code_name action_failed = "action_failed"
code_name timed_out = "timeout"
code_name navigation_blocked_code = "navigation_blocked"
code_name policy_denied = "policy_denied"
code_name surface_unavailable = "surface_unavailable"
code_name recovery_exhausted = "recovery_exhausted"
code_name input_validation_failed = "input_validation_failed"
code_name unexpected_state = "unexpected_state"
code_name lease_lost_code = "lease_lost"
code_name internal = "internal"

-- `code in codes`
unfoldable pub code_among : FailureCode → List FailureCode → Bool
code_among code codes = any (λ c. code_name c == code_name code) codes
