-- ===== src/Hitl/Lease/Invariant.antt =====
-- src/cua/hitl/lease.py: what holds of a lease between two transitions.
use computer_use_automation.Base.{
  ℕ, ◌+◌, ◌≡◌, ◌||◌, List, [], ◌∷◌, arith, String, length, length-snoc, is_some, ok,
}
use computer_use_automation.Domain.Actor.{Actor, automation, human, system}
use computer_use_automation.Hitl.Lease.{
  ControlState, running, paused, human_control, resuming, is_state, Lease, Request, ask_escalate,
  ask_claim, ask_release, ask_resume, ask_reclaim, plus, minus, new, serve, serve_all, after,
}

-- Who holds the session in each state.
abbrev pub holder_in : ControlState → Actor
holder_in running = automation
holder_in paused = system
holder_in human_control = human
holder_in resuming = system

pub record IsValid (l : Lease) : Type 0 where
  pub holder_fits : l.holder ≡ holder_in l.state
  pub hold_timed : is_some l.expires_at ≡ is_state l.state human_control
  pub operator_named :
      is_some l.operator ≡ (is_state l.state human_control || is_state l.state resuming)
  pub counted : l.epoch ≡ length l.history + 1

pub new-IsValid : (session : String) → IsValid (new session)
unfolding new
new-IsValid session = ground arith

-- Every request, accepted or refused, keeps the invariant.
serve-IsValid : (l : Lease) (r : Request) → IsValid l → IsValid (after l (serve l r))
unfolding serve
serve-IsValid l (ask_escalate reason) v = grind (arith, length-snoc)
serve-IsValid l (ask_claim now who (plus d)) v = grind (arith, length-snoc)
serve-IsValid l (ask_claim now who (minus d)) v = grind (arith, length-snoc)
serve-IsValid l ask_release v = grind (arith, length-snoc)
serve-IsValid l ask_resume v = grind (arith, length-snoc)
serve-IsValid l (ask_reclaim now) v = grind (arith, length-snoc)

serve_all-IsValid : (l : Lease) (rs : List Request) → IsValid l → IsValid (serve_all l rs)
unfolding serve_all
serve_all-IsValid l [] v = v
serve_all-IsValid l (r ∷ rs) v = serve_all-IsValid (after l (serve l r)) rs (serve-IsValid l r v)

-- An accepted request leaves a valid lease.
pub served-IsValid :
    (l : Lease) (r : Request) {l' : Lease} {e : ℕ} → serve l r ≡ ok (l', e) → IsValid l → IsValid l'
served-IsValid l r h v = rw h at (serve-IsValid l r v)

-- A new lease keeps its invariant whatever is asked of it, in any order and at any time: the holder
-- is the one that the state calls for, exactly a session under human control has an expiry, exactly
-- a claimed session names an operator, and the epoch is one more than the transitions recorded.
pub serve_all-new-IsValid :
    (session : String) (rs : List Request) → IsValid (serve_all (new session) rs)
serve_all-new-IsValid session rs = serve_all-IsValid (new session) rs (new-IsValid session)
