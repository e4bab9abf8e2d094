-- ===== src/Hitl/Lease.antt =====
-- src/cua/hitl/lease.py. A method that mutates the lease returns the new record and the epoch, or
-- the exception; each raises before it assigns anything. The clock is read once in each method:
-- the reading `now` is an argument, in microseconds from `datetime.min`.
pub mod Invariant
pub mod Stale
pub mod Moves
use computer_use_automation.Base.{
  ℕ, suc, ◌+◌, ◌-◌, String, Bool, true, false, ◌&&◌, not, Option, none, some, List, [], ◌∷◌, ◌++◌,
  leb, nat_eq, if◌then◌else◌, Result, ok, err,
}
use computer_use_automation.Domain.Actor.{Actor, automation, human, system, is_actor}

pub data ControlState : Type 0 where
  running paused human_control resuming : ControlState

pub data LeaseError : Type 0 where
  -- `LeaseError` of `assert_held`
  hold_expired : LeaseError
  not_the_holder : Actor → LeaseError
  stale_epoch : ℕ → LeaseError
  -- `LeaseError` of the transitions
  wrong_state : ControlState → LeaseError
  not_expired : LeaseError
  -- `OverflowError`, from the sum in `claim`
  clock_overflow : LeaseError

-- The `note` of a transition, before it is formatted.
pub data Note : Type 0 where
  escalated : String → Note
  claimed_by : String → Note
  released_by : String → Note
  resumed : Note
  hold_lapsed : Note

-- `f"{self.epoch}:{state.value}:{note}"`
pub record HistoryEntry : Type 0 where
  pub at_epoch : ℕ
  pub entered : ControlState
  pub note : Note

pub record Lease : Type 0 where
  pub session_id : String
  pub holder : Actor
  pub state : ControlState
  pub epoch : ℕ
  pub operator : Option String
  pub expires_at : Option ℕ
  pub history : List HistoryEntry

-- `Lease(session_id=...)`
unfoldable pub new : String → Lease
new session = record {
  session_id = session;
  holder = automation;
  state = running;
  epoch = 1;
  operator = none;
  expires_at = none;
  history = [];
}

-- A `timedelta`, which may be negative.
pub data Duration : Type 0 where
  plus : ℕ → Duration
  minus : ℕ → Duration

-- `datetime.max`
abbrev pub clock_max : ℕ
clock_max = 315537897599999999

-- `datetime + timedelta`, which raises `OverflowError` out of range.
unfoldable pub add_time : ℕ → Duration → Option ℕ
add_time now (plus d) = if leb (now + d) clock_max then some (now + d) else none
add_time now (minus d) = if leb d now then some (now - d) else none

abbrev pub passed : Option ℕ → ℕ → Bool
passed none now = false
passed (some at) now = leb at now

unfoldable pub expired : Lease → ℕ → Bool
expired l now = passed l.expires_at now

unfoldable pub held_by : Lease → ℕ → Actor → ℕ → Bool
unfolding expired
held_by l now actor e = is_actor l.holder actor && nat_eq l.epoch e && not (expired l now)

unfoldable pub assert_held : Lease → ℕ → Actor → ℕ → Option LeaseError
unfolding expired
assert_held l now actor e =
    if expired l now
    then some hold_expired
    else if not (is_actor l.holder actor)
    then some (not_the_holder l.holder)
    else if not (nat_eq l.epoch e)
    then some (stale_epoch l.epoch)
    else none

abbrev pub is_state : ControlState → ControlState → Bool
is_state running running = true
is_state paused paused = true
is_state human_control human_control = true
is_state resuming resuming = true
is_state _ _ = false

unfoldable pub transition : Lease → Actor → ControlState → Note → Lease × ℕ
transition l to_holder to_state why = (
  record l {
    holder = to_holder;
    state = to_state;
    epoch = l.epoch + 1;
    history = l.history ++ record { at_epoch = l.epoch + 1; entered = to_state; note = why } ∷ [];
  },
  l.epoch + 1,
)

unfoldable pub escalate : Lease → String → Result LeaseError (Lease × ℕ)
unfolding transition
escalate l reason =
    if not (is_state l.state running)
    then err (wrong_state l.state)
    else ok (
        transition (record l { operator = none; expires_at = none }) system paused
          (escalated reason))

-- The expiry is computed before anything is assigned.
hold_until : Lease → String → Option ℕ → Result LeaseError (Lease × ℕ)
unfolding transition
hold_until l who none = err clock_overflow
hold_until l who (some at) = ok (
    transition (record l { operator = some who; expires_at = some at }) human human_control
      (claimed_by who))

unfoldable pub claim : Lease → ℕ → String → Duration → Result LeaseError (Lease × ℕ)
unfolding hold_until add_time
claim l now who hold_for =
    if not (is_state l.state paused)
    then err (wrong_state l.state)
    else hold_until l who (add_time now hold_for)

-- `self.operator or 'operator'`
operator_name : Option String → String
operator_name none = "operator"
operator_name (some String.[]) = "operator"
operator_name (some who) = who

unfoldable pub release : Lease → Result LeaseError (Lease × ℕ)
unfolding transition operator_name
release l =
    if not (is_state l.state human_control)
    then err (wrong_state l.state)
    else ok (
        transition (record l { expires_at = none }) system resuming
          (released_by (operator_name l.operator)))

unfoldable pub resume : Lease → Result LeaseError (Lease × ℕ)
unfolding transition
resume l =
    if not (is_state l.state resuming)
    then err (wrong_state l.state)
    else ok (transition (record l { operator = none }) automation running resumed)

unfoldable pub reclaim_expired : Lease → ℕ → Result LeaseError (Lease × ℕ)
unfolding transition expired
reclaim_expired l now =
    if not (expired l now)
    then err not_expired
    else ok (transition (record l { operator = none; expires_at = none }) system paused hold_lapsed)

-- The transitions that a client may ask for, at the times it asks.
pub data Request : Type 0 where
  ask_escalate : String → Request
  ask_claim : ℕ → String → Duration → Request
  ask_release : Request
  ask_resume : Request
  ask_reclaim : ℕ → Request

unfoldable pub serve : Lease → Request → Result LeaseError (Lease × ℕ)
unfolding escalate claim release resume reclaim_expired
serve l (ask_escalate reason) = escalate l reason
serve l (ask_claim now who hold_for) = claim l now who hold_for
serve l ask_release = release l
serve l ask_resume = resume l
serve l (ask_reclaim now) = reclaim_expired l now

-- A refused request leaves the lease as it was.
abbrev pub after : Lease → Result LeaseError (Lease × ℕ) → Lease
after l (ok (l', e)) = l'
after l (err x) = l

unfoldable pub serve_all : Lease → List Request → Lease
serve_all l [] = l
serve_all l (r ∷ rs) = serve_all (after l (serve l r)) rs
