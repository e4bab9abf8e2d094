-- ===== src/Agent/Budget/Streaks.antt =====
-- src/cua/agent/stop.py: what the counters count.
use computer_use_automation.Base.{
  ℕ, suc, ◌+◌, ◌≡◌, Bool, not, List, [], ◌∷◌, length, if◌then◌else◌, arith,
}
use computer_use_automation.Agent.Budget.{Budget, record_step}

-- The arguments of one `record_step`.
pub record Report : Type 0 where
  pub tokens : ℕ
  pub progressed : Bool
  pub denied : Bool

-- The budget after the reports of a run, the newest first.
unfoldable pub record_all : List Report → Budget → Budget
record_all [] b = b
record_all (r ∷ older) b = record_step r.tokens r.progressed r.denied (record_all older b)

-- How many in a row, from the newest back.
pub streak : (Report → Bool) → List Report → ℕ
streak p [] = 0
streak p (r ∷ older) = let rest = streak p older in if p r then suc rest else 0

pub total : List Report → ℕ
total [] = 0
total (r ∷ older) = r.tokens + total older

-- From fresh counters, `record_step` counts the turns, sums their tokens, and keeps how many turns in a
-- row, up to now, made no progress, and how many in a row were denied.
pub record_all_counts :
    (reports : List Report) (b : Budget)
    → b.steps ≡ 0
    → b.tokens ≡ 0
    → b.unchanged_steps ≡ 0
    → b.consecutive_denials ≡ 0
    → ((record_all reports b).steps ≡ length reports)
      × ((record_all reports b).tokens ≡ total reports)
      × ((record_all reports b).unchanged_steps ≡ streak (λ r. not r.progressed) reports)
      × ((record_all reports b).consecutive_denials ≡ streak (λ r. r.denied) reports)
unfolding record_all record_step streak total
record_all_counts [] b s t u d = (s, t, u, d)
record_all_counts (r ∷ older) b s t u d =
    let (steps, tokens, unchanged, denials) = record_all_counts older b s t u d in
    (ground arith, ground arith, ground arith, ground arith)
