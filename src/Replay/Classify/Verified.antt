-- ===== src/Replay/Classify/Verified.antt =====
-- src/cua/replay/classify.py: what it says of a screen at the checkpoint.
use computer_use_automation.Base.{inl, inr, true, Bool-cases, Option, none, some, ◌≡◌, arith}
use computer_use_automation.Domain.Snapshot.{UiSnapshot}
use computer_use_automation.Domain.Text.{TextHost}
use computer_use_automation.Domain.Predicates.{Inputs, evaluate}
use computer_use_automation.Domain.Capability.{Capability, Step, Outcome, RecoveryRule}
use computer_use_automation.Replay.Classify.{
  expected, asserted, by_expectation, by_recovery, by_outcome, classify,
}

module _ (host : TextHost) (seen : UiSnapshot) (inputs : Inputs) (c : Capability)
    (step : Option Step) where
  expectation-expected :
      (by_expectation host seen inputs c step true).observation ≡ expected
      → evaluate host c.checkpoint seen inputs ≡ true
  unfolding by_expectation asserted
  expectation-expected h = elim (Bool-cases (evaluate host c.checkpoint seen inputs)) [
    | inl e ↦ e
    | inr e ↦ absurd (ground (arith, e, h))
  ]

  recovery-expected :
      (rule : Option RecoveryRule)
      → (by_recovery host seen inputs c step true rule).observation ≡ expected
      → evaluate host c.checkpoint seen inputs ≡ true
  unfolding by_recovery
  recovery-expected (some rule) h = absurd (ground (arith, h))
  recovery-expected none h = expectation-expected h

  outcome-expected :
      (o : Option Outcome)
      → (by_outcome host seen inputs c step true o).observation ≡ expected
      → evaluate host c.checkpoint seen inputs ≡ true
  unfolding by_outcome
  outcome-expected (some o) h = absurd (ground (arith, h))
  outcome-expected none h = recovery-expected _ h

  -- A screen that is read as expected at the checkpoint satisfies it.
  pub classify-expected :
      (classify host seen inputs c step true).observation ≡ expected
      → evaluate host c.checkpoint seen inputs ≡ true
  unfolding classify
  classify-expected h = outcome-expected _ h
