-- ===== src/Hitl/Intervention.antt =====
-- src/cua/hitl/intervention.py: the queue of requests for a person. `requests` is a dictionary in the
-- order of insertion; a method that changes a request stores the changed one at its key. The clock's
-- reading is an argument.
pub mod Pending
pub mod Changes
use computer_use_automation.Base.{
  ℕ, String, Bool, true, false, Option, none, some, List, [], ◌∷◌, map, keep, leb, ltb, lookup,
  insert, if◌then◌else◌, Result, ok, err,
}

pub data InterventionState : Type 0 where
  open_state claimed released resolved abandoned : InterventionState

-- `state in _CLAIMABLE`
abbrev pub is_claimable : InterventionState → Bool
is_claimable open_state = true
is_claimable abandoned = true
is_claimable _ = false

abbrev pub is_claimed : InterventionState → Bool
is_claimed claimed = true
is_claimed _ = false

pub record InterventionRequest : Type 0 where
  pub intervention_id : String
  pub session_id : String
  pub run_id : String
  pub capability_ref : String
  pub goal : String
  pub reason : String
  pub step_id : Option String
  pub failure_code : Option String
  pub snapshot_ref : Option String
  pub screenshot_ref : Option String
  pub evidence_ref : Option String
  pub state : InterventionState
  pub operator : Option String
  pub created_at : ℕ
  pub claimed_at : Option ℕ
  pub released_at : Option ℕ
  pub human_actions : ℕ
  pub human_delta : String
  pub resolution_note : String

pub data QueueError : Type 0 where
  -- `KeyError` of `_require`
  no_intervention : String → QueueError
  -- `ValueError`
  not_open : InterventionState → QueueError
  not_claimed : QueueError

abbrev pub InterventionQueue : Type 0
InterventionQueue = List (String × InterventionRequest)

-- `self.requests[request.intervention_id] = request`
unfoldable pub open_request : InterventionQueue → InterventionRequest → InterventionQueue
open_request q r = insert r.intervention_id r q

unfoldable pub get_request : InterventionQueue → String → Option InterventionRequest
get_request q id = lookup id q

-- `sorted(..., key=created_at)` is stable: an equal one goes behind.
put_by_age : InterventionRequest → List InterventionRequest → List InterventionRequest
put_by_age r [] = r ∷ []
put_by_age r (x ∷ xs) =
    let rest = put_by_age r xs in if ltb r.created_at x.created_at then r ∷ x ∷ xs else x ∷ rest

sort_by_age : List InterventionRequest → List InterventionRequest → List InterventionRequest
sort_by_age [] done = done
sort_by_age (r ∷ rs) done = sort_by_age rs (put_by_age r done)

pub requests_of : InterventionQueue → List InterventionRequest
requests_of [] = []
requests_of ((k, r) ∷ q) = r ∷ requests_of q

unfoldable pub pending : InterventionQueue → List InterventionRequest
unfolding sort_by_age put_by_age requests_of
pending q = sort_by_age (keep (λ r. is_claimable r.state) (requests_of q)) []

-- `_require`, then a change of the request.
on_request :
    InterventionQueue
    → String
    → Option InterventionRequest
    → (InterventionRequest → Result QueueError InterventionRequest)
    → Result QueueError InterventionQueue
on_request q id none change = err (no_intervention id)
on_request q id (some r) change = elim (change r) [ ok r' ↦ ok (insert id r' q) | err e ↦ err e ]

unfoldable pub change_request :
    InterventionQueue
    → String
    → (InterventionRequest → Result QueueError InterventionRequest)
    → Result QueueError InterventionQueue
unfolding on_request
change_request q id change = on_request q id (lookup id q) change

unfoldable pub claim_one : ℕ → String → InterventionRequest → Result QueueError InterventionRequest
claim_one now who r =
    if is_claimable r.state
    then ok (record r { state = claimed; operator = some who; claimed_at = some now })
    else err (not_open r.state)

unfoldable pub claim : InterventionQueue → ℕ → String → String → Result QueueError InterventionQueue
unfolding change_request claim_one
claim q now id who = change_request q id (claim_one now who)

unfoldable pub release_one :
    ℕ → ℕ → String → InterventionRequest → Result QueueError InterventionRequest
release_one now actions delta r =
    if is_claimed r.state
    then ok (record r {
      state = released;
      released_at = some now;
      human_actions = actions;
      human_delta = delta;
    })
    else err not_claimed

unfoldable pub release :
    InterventionQueue → ℕ → String → ℕ → String → Result QueueError InterventionQueue
unfolding change_request release_one
release q now id actions delta = change_request q id (release_one now actions delta)

unfoldable pub resolve : InterventionQueue → String → String → Result QueueError InterventionQueue
unfolding change_request
resolve q id note =
    change_request q id (λ r. ok (record r { state = resolved; resolution_note = note }))

unfoldable pub abandon : InterventionQueue → String → String → Result QueueError InterventionQueue
unfolding change_request
abandon q id note =
    change_request q id (λ r. ok (record r { state = abandoned; resolution_note = note }))
