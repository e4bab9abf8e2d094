-- ===== src/Hitl/Intervention/Pending.antt =====
-- src/cua/hitl/intervention.py: the pending requests, oldest first.
use mathlib.Core.List.{Perm, perm_middle, perm-append_left_iff, append-nil}
use mathlib.Core.List.Perm
use computer_use_automation.Base.{
  ℕ, ◌≤◌, List, [], ◌∷◌, ◌++◌, keep, All, arith, ltb, ltb→lt, Bool-cases, inl, inr,
}
use computer_use_automation.Hitl.Intervention.{
  InterventionRequest, InterventionQueue, is_claimable, put_by_age, sort_by_age, requests_of,
  pending,
}

-- Each is no younger than those behind it.
pub IsByAge : List InterventionRequest → Type 0
IsByAge [] = Unit
IsByAge (r ∷ rs) = All (λ x. r.created_at ≤ x.created_at) rs × IsByAge rs

put_by_age-perm :
    (r : InterventionRequest) (xs : List InterventionRequest) → Perm (put_by_age r xs) (r ∷ xs)
unfolding put_by_age
put_by_age-perm r [] = Perm.refl (r ∷ [])
put_by_age-perm r (x ∷ xs) = elim (Bool-cases (ltb r.created_at x.created_at)) [
  | inl e ↦ rw e (Perm.refl (r ∷ x ∷ xs))
  | inr e ↦ rw e (Perm.trans (Perm.cons x (put_by_age-perm r xs)) (Perm.swap r x xs))
]

sort_by_age-perm : (rs done : List InterventionRequest) → Perm (sort_by_age rs done) (rs ++ done)
unfolding sort_by_age
sort_by_age-perm [] done = Perm.refl done
sort_by_age-perm (r ∷ rs) done =
    Perm.trans (sort_by_age-perm rs (put_by_age r done))
      (Perm.trans ((perm-append_left_iff rs).1 (put_by_age-perm r done)) (perm_middle rs done))

All-put_by_age :
    (P : InterventionRequest → Type 0) (r : InterventionRequest) (xs : List InterventionRequest)
    → P r
    → All P xs
    → All P (put_by_age r xs)
unfolding put_by_age
All-put_by_age P r [] p h = (p, tt)
All-put_by_age P r (x ∷ xs) p h = elim (Bool-cases (ltb r.created_at x.created_at)) [
  | inl e ↦ rw e (p, h)
  | inr e ↦ rw e (h.0, All-put_by_age P r xs p h.1)
]

All-older :
    (a b : ℕ) (xs : List InterventionRequest)
    → a ≤ b
    → All (λ x. b ≤ x.created_at) xs
    → All (λ x. a ≤ x.created_at) xs
All-older a b [] h k = tt
All-older a b (x ∷ xs) h k = (omega (arith, k.0), All-older a b xs h k.1)

put_by_age-IsByAge :
    (r : InterventionRequest) (xs : List InterventionRequest)
    → IsByAge xs
    → IsByAge (put_by_age r xs)
unfolding put_by_age IsByAge
put_by_age-IsByAge r [] h = (tt, tt)
put_by_age-IsByAge r (x ∷ xs) h = elim (Bool-cases (ltb r.created_at x.created_at)) [
  | inl e ↦ rw e (
    (
      omega (arith, ltb→lt r.created_at x.created_at e),
      All-older r.created_at x.created_at xs (omega (arith, ltb→lt r.created_at x.created_at e))
          h.0,
    ),
    h,
  )
  | inr e ↦ rw e (
    All-put_by_age (λ y. x.created_at ≤ y.created_at) r xs (ground arith) h.0,
    put_by_age-IsByAge r xs h.1,
  )
]

sort_by_age-IsByAge :
    (rs done : List InterventionRequest) → IsByAge done → IsByAge (sort_by_age rs done)
unfolding sort_by_age
sort_by_age-IsByAge [] done h = h
sort_by_age-IsByAge (r ∷ rs) done h =
    sort_by_age-IsByAge rs (put_by_age r done) (put_by_age-IsByAge r done h)

-- What an operator is shown as pending is exactly the queue's open and abandoned requests, each as
-- often as the queue has it, the oldest first.
pub pending_lem :
    (q : InterventionQueue)
    → Perm (pending q) (keep (λ r. is_claimable r.state) (requests_of q)) × IsByAge (pending q)
unfolding pending IsByAge
pending_lem q =
    let waiting = keep (λ r. is_claimable r.state) (requests_of q) in
    (rw (append-nil waiting) at (sort_by_age-perm waiting []), sort_by_age-IsByAge waiting [] tt)
