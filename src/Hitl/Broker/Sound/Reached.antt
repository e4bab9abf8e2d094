-- ===== src/Hitl/Broker/Sound/Reached.antt =====
-- src/cua/hitl/broker.py: the brokers that calls lead to from a new one.
use computer_use_automation.Base.{ℕ, ◌+◌, String, ◌≡◌, refl, true, Option, some, ok, lookup, insert}
use computer_use_automation.Domain.Snapshot.{UiSnapshot}
use computer_use_automation.Domain.Actor.{human}
use computer_use_automation.Domain.Action.{Action}
use computer_use_automation.Hitl.Lease as Lease
use computer_use_automation.Hitl.Lease.{
  Lease, LeaseError, Duration, plus, minus, paused, human_control, is_state, add_time,
}
use computer_use_automation.Hitl.Lease.Invariant.{new-IsValid}
use computer_use_automation.Hitl.Intervention as Queue
use computer_use_automation.Hitl.Intervention.{
  InterventionQueue, InterventionRequest, is_claimable, claimed, claim_one,
}
use computer_use_automation.Hitl.Intervention.Changes.{change_request_ok}
use computer_use_automation.Hitl.Broker.{
  escalate, claim, human_action, confirm_action, release, sweep, resume,
}
use computer_use_automation.Hitl.Handoff.{SessionBroker, BrokerTexts, Escalation, new_broker}
use computer_use_automation.Hitl.Broker.Sound.{IsSound, Tracked}
use computer_use_automation.Hitl.Broker.Sound.Kept.{
  escalate-IsSound, claim-IsSound, human_action-IsSound, confirm_action-IsSound, release-IsSound,
  sweep-IsSound, resume-IsSound,
}
use computer_use_automation.Runtime.Command.{Setup, Session}

queue_claim-ok :
    (q : InterventionQueue) (now : ℕ) (id who : String) (r : InterventionRequest)
    → lookup id q ≡ some r
    → is_claimable r.state ≡ true
    → Queue.claim q now id who
      ≡ ok (insert id (record r { state = claimed; operator = some who; claimed_at = some now }) q)
unfolding Queue.claim
queue_claim-ok q now id who r e c =
    change_request_ok q id (claim_one now who) e (rw (c, claim_one) refl)

lease_claim-ok :
    (l : Lease) (now : ℕ) (who : String) (hold_for : Duration) (at : ℕ)
    → l.state ≡ paused
    → add_time now hold_for ≡ some at
    → (l' : Lease) × (Lease.claim l now who hold_for ≡ ok (l', l.epoch + 1))
unfolding Lease.claim Lease.transition
lease_claim-ok l now who hold_for at e fits = (
  (Lease.transition (record l { operator = some who; expires_at = some at }) human human_control
      (Lease.claimed_by who)).0,
  rw e (rw fits refl),
)

-- A call of the broker's interface, by anyone at any time.
pub data Call : Type 0 where
  call_escalate : ℕ → String → Escalation → Call
  call_claim : ℕ → String → String → Duration → Call
  call_human_action : ℕ → String → Action → Call
  call_confirm_action : ℕ → String → Action → Call
  call_release : ℕ → Option UiSnapshot → Call
  call_sweep : ℕ → String → Call
  call_resume : Call

module _ {W : Type 0} (d : Setup W) (texts : BrokerTexts) where
  -- The broker after a call, whether the call returned or raised.
  unfoldable pub after_call : SessionBroker W → Call → SessionBroker W
  after_call b (call_escalate now id x) = (escalate d texts b now id x).1
  after_call b (call_claim now id who hold_for) = (claim d texts b now id who hold_for).1
  after_call b (call_human_action now id action) = (human_action d texts b now id action).1
  after_call b (call_confirm_action now id action) = (confirm_action d texts b now id action).1
  after_call b (call_release now after) = (release d texts b now after).1
  after_call b (call_sweep now note) = (sweep d texts b now note).1
  after_call b call_resume = (resume d texts b).1

  pub data Reached : SessionBroker W → Type 0 where
    at_start : (session_id : String) (session : Session W) → Reached (new_broker session_id session)
    by_call : {b : SessionBroker W} (c : Call) → Reached b → Reached (after_call b c)

  new_broker-IsSound :
      (session_id : String) (session : Session W) → IsSound (new_broker session_id session)
  unfolding new_broker Lease.new Tracked
  new_broker-IsSound session_id session = record {
    lease_valid = new-IsValid session_id;
    tracked = tt;
  }

  after_call-IsSound : (b : SessionBroker W) (c : Call) → IsSound b → IsSound (after_call b c)
  unfolding after_call
  after_call-IsSound b (call_escalate now id x) s = escalate-IsSound d texts b now id x s
  after_call-IsSound b (call_claim now id who hold_for) s =
      claim-IsSound d texts b now id who hold_for s
  after_call-IsSound b (call_human_action now id action) s =
      human_action-IsSound d texts b now id action s
  after_call-IsSound b (call_confirm_action now id action) s =
      confirm_action-IsSound d texts b now id action s
  after_call-IsSound b (call_release now after) s = release-IsSound d texts b now after s
  after_call-IsSound b (call_sweep now note) s = sweep-IsSound d texts b now note s
  after_call-IsSound b call_resume s = resume-IsSound d texts b s

  -- Whatever is called on a new broker, in any order and also when calls raise, its lease keeps the
  -- lease's invariant and its queue tracks it: a paused session has a request that can be claimed,
  -- and one that a person holds or has handed back has its handoff's request claimed or released.
  pub Reached-IsSound : {b : SessionBroker W} → Reached b → IsSound b
  Reached-IsSound (at_start session_id session) = new_broker-IsSound session_id session
  Reached-IsSound (by_call {b = b} c r) = after_call-IsSound b c (Reached-IsSound r)

  -- No paused session is stranded: whatever was called before, there is a request by which any
  -- operator's claim succeeds, at any time at which the hold's end is a time of the clock.
  pub Reached-paused-claim :
      {b : SessionBroker W}
      → Reached b
      → b.lease.state ≡ paused
      → (id : String) × ((now : ℕ) (who : String) (hold_for : Duration) (at : ℕ)
          → add_time now hold_for ≡ some at
          → (claim d texts b now id who hold_for).0 ≡ ok (b.lease.epoch + 1))
  unfolding Tracked claim
  Reached-paused-claim {b = b} r e =
      let (id, q, found, claimable) = rw e at ((Reached-IsSound r).tracked) in
      (
        id,
        λ now who hold_for at fits.
            rw (queue_claim-ok b.queue now id who q found claimable)
              (rw (lease_claim-ok b.lease now who hold_for at e fits).1 refl),
      )
