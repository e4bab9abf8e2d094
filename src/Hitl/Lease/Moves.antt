-- ===== src/Hitl/Lease/Moves.antt =====
-- src/cua/hitl/lease.py: from where to where each transition leads.
use computer_use_automation.Base.{ℕ, ◌≡◌, String, arith, ok}
use computer_use_automation.Hitl.Lease.{
  Lease, running, paused, human_control, resuming, Duration, plus, minus, escalate, claim, release,
  resume, reclaim_expired,
}
use computer_use_automation.Hitl.Lease.Invariant.{IsValid}

module _ (l : Lease) {l' : Lease} {e : ℕ} where
  pub escalate_move :
      (reason : String) → escalate l reason ≡ ok (l', e) → (l.state ≡ running) × (l'.state ≡ paused)
  unfolding escalate
  escalate_move reason h = ground arith

  pub claim_move :
      (now : ℕ) (who : String) (d : Duration)
      → claim l now who d ≡ ok (l', e)
      → (l.state ≡ paused) × (l'.state ≡ human_control)
  unfolding claim
  claim_move now who (plus d) h = ground arith
  claim_move now who (minus d) h = ground arith

  pub release_move : release l ≡ ok (l', e) → (l.state ≡ human_control) × (l'.state ≡ resuming)
  unfolding release
  release_move h = ground arith

  pub resume_move : resume l ≡ ok (l', e) → (l.state ≡ resuming) × (l'.state ≡ running)
  unfolding resume
  resume_move h = ground arith

  -- Of a valid lease, only a person's hold expires.
  pub reclaim_move :
      (now : ℕ)
      → IsValid l
      → reclaim_expired l now ≡ ok (l', e)
      → (l.state ≡ human_control) × (l'.state ≡ paused)
  unfolding reclaim_expired
  reclaim_move now v h = ground arith
