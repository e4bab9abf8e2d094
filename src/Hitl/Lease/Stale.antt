-- ===== src/Hitl/Lease/Stale.antt =====
-- src/cua/hitl/lease.py: a dispatch that was authorized before a transition is refused after it.
use computer_use_automation.Base.{
  ℕ, ◌+◌, ◌≤◌, ◌<◌, ◌≡◌, ◌↔◌, true, false, none, List, [], ◌∷◌, arith, ok,
}
use computer_use_automation.Domain.Actor.{Actor, automation, human}
use computer_use_automation.Hitl.Lease.{
  running, human_control, Lease, Request, ask_claim, serve, serve_all, after, assert_held, held_by,
  plus, minus,
}
use computer_use_automation.Hitl.Lease.Invariant.{IsValid}

-- `assert_held` passes exactly when `held_by` holds.
pub assert_held-iff-held_by :
    (l : Lease) (now : ℕ) (actor : Actor) (e : ℕ)
    → (assert_held l now actor e ≡ none) ↔ (held_by l now actor e ≡ true)
unfolding assert_held held_by
assert_held-iff-held_by l now actor e = ground arith

-- A request never lowers the epoch.
epoch-serve : (l : Lease) (r : Request) → l.epoch ≤ (after l (serve l r)).epoch
unfolding serve
epoch-serve l (ask_claim now who (plus d)) = ground arith
epoch-serve l (ask_claim now who (minus d)) = ground arith
epoch-serve l _ = ground arith

epoch-serve_all : (l : Lease) (rs : List Request) → l.epoch ≤ (serve_all l rs).epoch
unfolding serve_all
epoch-serve_all l [] = omega arith
epoch-serve_all l (r ∷ rs) =
    omega (arith, epoch-serve l r, epoch-serve_all (after l (serve l r)) rs)

serve_ok-epoch :
    (l : Lease) (r : Request) {l' : Lease} {e : ℕ} → serve l r ≡ ok (l', e) → l'.epoch ≡ l.epoch + 1
unfolding serve
serve_ok-epoch l (ask_claim now who (plus d)) h = ground arith
serve_ok-epoch l (ask_claim now who (minus d)) h = ground arith
serve_ok-epoch l _ h = ground arith

not_held_of_older :
    (l : Lease) (now : ℕ) (actor : Actor) (e : ℕ) → e < l.epoch → held_by l now actor e ≡ false
unfolding held_by
not_held_of_older l now actor e h = ground arith

-- Once a request is accepted, nobody holds the lease at an epoch of before it: not right after, and
-- not after any further requests, whoever asks and whenever.
pub held_by_stale :
    (l : Lease) (r : Request) {l' : Lease} {n : ℕ}
    → serve l r ≡ ok (l', n)
    → (rs : List Request) (now : ℕ) (actor : Actor) (e : ℕ) → e ≤ l.epoch
    → held_by (serve_all l' rs) now actor e ≡ false
held_by_stale l r {l' = l'} h rs now actor e old =
    not_held_of_older (serve_all l' rs) now actor e
      (omega (arith, serve_ok-epoch l r h, epoch-serve_all l' rs))

-- At no moment may two actors act, or one at two epochs.
pub held_by_unique :
    (l : Lease) (now : ℕ) (a b : Actor) (d e : ℕ)
    → held_by l now a d ≡ true
    → held_by l now b e ≡ true
    → (a ≡ b) × (d ≡ e)
unfolding held_by
held_by_unique l now a b d e h k = ground arith

-- From a valid lease, automation is admitted only while it is running, and a person only under human control.
pub held_by_state :
    (l : Lease) (now : ℕ) (actor : Actor) (e : ℕ)
    → IsValid l
    → held_by l now actor e ≡ true
    → ((actor ≡ automation) → l.state ≡ running) × ((actor ≡ human) → l.state ≡ human_control)
unfolding held_by
held_by_state l now actor e v h = ground arith
