-- ===== src/Hitl/Intervention/Changes.antt =====
-- src/cua/hitl/intervention.py: a change of one request.
use computer_use_automation.Base.{
  ℕ, String, ◌≡◌, refl, true, Option, none, some, arith, eq_refl, lookup, insert, lookup-insert,
  Result, ok,
}
use computer_use_automation.Hitl.Intervention.{
  InterventionRequest, InterventionQueue, QueueError, is_claimable, claimed, claim_one, claim,
  change_request, on_request,
}

pub lookup-insert_self :
    (id : String) (r : InterventionRequest) (q : InterventionQueue)
    → lookup id (insert id r q) ≡ some r
lookup-insert_self id r q = rw (lookup-insert id id r q) (rw (eq_refl id) refl)

pub change_request_ok :
    (q : InterventionQueue) (id : String)
    (change : InterventionRequest → Result QueueError InterventionRequest)
    {r r' : InterventionRequest}
    → lookup id q ≡ some r
    → change r ≡ ok r'
    → change_request q id change ≡ ok (insert id r' q)
unfolding change_request
change_request_ok q id change e h = rw (e, on_request) (rw h refl)

-- A claim that the queue accepts found a claimable request at the id, and marks it and nothing else.
pub claim-eq-ok :
    (q : InterventionQueue) (now : ℕ) (id who : String) {q' : InterventionQueue}
    → claim q now id who ≡ ok q'
    → (r : InterventionRequest) × (lookup id q ≡ some r)
      × (is_claimable r.state ≡ true)
      × (q'
          ≡ insert id (record r { state = claimed; operator = some who; claimed_at = some now }) q)
unfolding claim
claim-eq-ok q now id who {q' = q'} h = at_found (lookup id q) refl h
  where
    at_found :
        (found : Option InterventionRequest)
        → lookup id q ≡ found
        → on_request q id found (claim_one now who) ≡ ok q'
        → (r : InterventionRequest) × (lookup id q ≡ some r)
          × (is_claimable r.state ≡ true)
          × (q'
              ≡ insert id
                  (record r { state = claimed; operator = some who; claimed_at = some now })
                  q)
    at_found none e k = absurd (ground arith)
    at_found (some r) e k = (r, e, ground arith, ground arith)
