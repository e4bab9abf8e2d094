-- ===== src/Replay/Wait/Polling.antt =====
-- src/cua/replay/wait.py: the loop ends, at the first poll that decides.
use computer_use_automation.Base.{
  ℕ, zero, suc, ◌+◌, ◌≤◌, ◌<◌, ◌≡◌, refl, ◌⊎◌, inl, inr, Bool, true, false, Option, none, some,
  Bool-cases, arith, nat_eq,
}
use computer_use_automation.Domain.Snapshot.{UiSnapshot}
use computer_use_automation.Domain.Text.{TextHost}
use computer_use_automation.Domain.Predicates.{Inputs}
use computer_use_automation.Domain.Capability.{WaitPolicy}
use computer_use_automation.Replay.Wait.{WaitOutcome, condition, poll_from, wait_for}

module _ (host : TextHost) (inputs : Inputs) (policy : WaitPolicy) (before : Option UiSnapshot)
    (seen : ℕ → UiSnapshot) (late : ℕ → Bool) where
  abbrev seen_before : ℕ → Option UiSnapshot
  seen_before zero = none
  seen_before (suc n) = some (seen n)

  -- The condition at poll `n`.
  pub holds_at : ℕ → Bool
  holds_at n = condition host inputs policy.for_what policy.until before (seen_before n) (seen n)

  -- Poll `n` decides, and none from `start` to it does.
  pub record Decides (start : ℕ) (fuel : ℕ) (x : Option WaitOutcome) : Type 0 where
    pub poll : ℕ
    pub within : poll < start + fuel
    pub outcome : x ≡ some (record { satisfied = holds_at poll; snapshot = seen poll })
    pub open_before : (k : ℕ) → start ≤ k → k < poll → (holds_at k ≡ false) × (late k ≡ false)
    pub decided : (holds_at poll ≡ true) ⊎ (late poll ≡ true)

  past :
      (n k poll : ℕ)
      → holds_at n ≡ false
      → late n ≡ false
      → ((k : ℕ) → suc n ≤ k → k < poll → (holds_at k ≡ false) × (late k ≡ false))
      → n ≤ k
      → k < poll
      → (holds_at k ≡ false) × (late k ≡ false)
  past n k poll e f open_before a b = elim (Bool-cases (nat_eq n k)) [
    | inl q ↦ grind arith
    | inr q ↦ open_before k (ground arith) b
  ]

  poll_from-Decides :
      (fuel n : ℕ) (limit : ℕ)
      → n ≤ limit
      → limit < n + fuel
      → late limit ≡ true
      → Decides n fuel (poll_from host inputs policy before seen late fuel n (seen_before n))
  unfolding wait_for holds_at
  poll_from-Decides zero n limit le lt h = absurd (omega arith)
  poll_from-Decides (suc fuel) n limit le lt h = elim (Bool-cases (holds_at n)) [
    | inl e ↦ rw e (record {
      poll = n;
      within = omega arith;
      outcome = rw e refl;
      open_before = λ k a b. absurd (omega arith);
      decided = inl e;
    })
    | inr e ↦ elim (Bool-cases (late n)) [
      | inl f ↦
          rw (e, f)
            (record {
              poll = n;
              within = omega arith;
              outcome = rw e refl;
              open_before = λ k a b. absurd (omega arith);
              decided = inr f;
            })
      | inr f ↦
          let d = poll_from-Decides fuel (suc n) limit (grind arith) (omega arith) h in
          rw (e, f)
            (record {
              poll = d.poll;
              within = omega (arith, d.within);
              outcome = d.outcome;
              open_before = λ k a b. past n k d.poll e f d.open_before a b;
              decided = d.decided;
            })
    ]
  ]

  -- With a limit at which the clock is past the deadline, that many polls and one more are enough: the
  -- wait ends, at the first poll at which its condition holds or the clock is past the deadline, with
  -- that poll's screen, and it is satisfied exactly if the condition holds there.
  pub wait_for-Decides :
      (limit : ℕ)
      → late limit ≡ true
      → Decides 0 (limit + 1) (wait_for host inputs policy before seen late (limit + 1))
  unfolding wait_for
  wait_for-Decides limit h = poll_from-Decides (limit + 1) 0 limit (omega arith) (omega arith) h
