-- ===== src/Replay/Classify/Reading.antt =====
-- src/cua/replay/classify.py: an answer before a hiccup, a hiccup before a broken expectation.
use computer_use_automation.Base.{
  ◌≡◌, ◌↔◌, refl, Bool, true, false, Option, none, some, List, [], ◌∷◌, All, if◌then◌else◌,
}
use computer_use_automation.Domain.Snapshot.{UiSnapshot}
use computer_use_automation.Domain.Text.{TextHost}
use computer_use_automation.Domain.Predicates.{Predicate, Inputs, evaluate}
use computer_use_automation.Domain.Predicates.Meaning.{Holds, evaluate-iff-Holds}
use computer_use_automation.Domain.Capability.{Capability, Step, Outcome, RecoveryRule}
use computer_use_automation.Replay.Classify.{
  ObservationClass, expected, business_outcome, recoverable, unexpected_state, Classification,
  first_detected, asserted, at_precondition, by_expectation, by_recovery, by_outcome, classify,
  plain, ClassReason, checkpoint_satisfied, checkpoint_unmet, precondition_satisfied,
  unmet_precondition,
}

false-ne_true : false ≡ true → ⊥
false-ne_true h = cc h

module _ (host : TextHost) (snapshot : UiSnapshot) (inputs : Inputs) where
  abbrev Shown : Predicate → Type 0
  Shown p = Holds host snapshot inputs p

  -- `x` is the first of the list whose assertion holds.
  pub data First {A : Type 0} (detect : A → Predicate) : List A → A → Type 0 where
    here : {x : A} {xs : List A} → Shown (detect x) → First detect (x ∷ xs) x
    later :
        {x y : A} {xs : List A} → ¬ Shown (detect y) → First detect xs x → First detect (y ∷ xs) x

  -- What the code finds, for what it looks for.
  Found : {A : Type 0} → (A → Predicate) → List A → Option A → Type 0
  Found detect xs none = All (λ x. ¬ Shown (detect x)) xs
  Found detect xs (some x) = First detect xs x

  first_detected-Found :
      {A : Type 0} (detect : A → Predicate) (xs : List A)
      → Found detect xs (first_detected host snapshot inputs detect xs)
  unfolding first_detected Found
  first_detected-Found detect [] = tt
  first_detected-Found detect (x ∷ xs) =
      at_head (evaluate host (detect x) snapshot inputs)
        (first_detected host snapshot inputs detect xs)
        (evaluate-iff-Holds host snapshot inputs (detect x)) (first_detected-Found detect xs)
    where
      at_head :
          (b : Bool) (rest : Option _)
          → (b ≡ true) ↔ Shown (detect x)
          → Found detect xs rest
          → Found detect (x ∷ xs) (if b then some x else rest)
      at_head true rest e k = here (e.0 refl)
      at_head false (some y) e k = later (λ h. false-ne_true (e.1 h)) k
      at_head false none e k = ((λ h. false-ne_true (e.1 h)), k)

  -- What is declared about the point: the checkpoint, the step's precondition, or nothing.
  abbrev declared : Capability → Option Step → Bool → Option Predicate
  declared c step true = some c.checkpoint
  declared c none false = none
  declared c (some step) false = step.precondition

  -- An expectation that the screen meets, or breaks.
  abbrev Meets : Option Predicate → Type 0
  Meets none = Unit
  Meets (some p) = Shown p

  abbrev Breaks : Option Predicate → Type 0
  Breaks none = ⊥
  Breaks (some p) = ¬ Shown p

  pub data Reads (c : Capability) (step : Option Step) (checking : Bool)
      : ObservationClass → Option Outcome → Option RecoveryRule → Type 0 where
    answered :
        {o : Outcome}
        → First (λ o. o.detect) c.outcomes o
        → Reads c step checking business_outcome (some o) none
    transient :
        {r : RecoveryRule}
        → All (λ o. ¬ Shown o.detect) c.outcomes
        → First (λ r. r.detect) c.recovery r
        → Reads c step checking recoverable none (some r)
    as_declared :
        All (λ o. ¬ Shown o.detect) c.outcomes
        → All (λ r. ¬ Shown r.detect) c.recovery
        → Meets (declared c step checking)
        → Reads c step checking expected none none
    unexplained :
        All (λ o. ¬ Shown o.detect) c.outcomes
        → All (λ r. ¬ Shown r.detect) c.recovery
        → Breaks (declared c step checking)
        → Reads c step checking unexpected_state none none

  ReadsAs : Capability → Option Step → Bool → Classification → Type 0
  ReadsAs c step checking x = Reads c step checking x.observation x.outcome x.recovery

  module _ (c : Capability) (no_answer : All (λ o. ¬ Shown o.detect) c.outcomes)
      (no_rule : All (λ r. ¬ Shown r.detect) c.recovery) where
    asserted-ReadsAs :
        (step : Option Step) (checking : Bool) (p : Predicate) (met unmet : ClassReason)
        → declared c step checking ≡ some p
        → ReadsAs c step checking (asserted host snapshot inputs p met unmet)
    unfolding ReadsAs classify
    asserted-ReadsAs step checking p met unmet e =
        at_screen (evaluate host p snapshot inputs) (evaluate-iff-Holds host snapshot inputs p)
      where
        at_screen :
            (b : Bool)
            → (b ≡ true) ↔ Shown p
            → ReadsAs c step checking (
                if b
                then plain host snapshot inputs expected met
                else plain host snapshot inputs unexpected_state unmet)
        at_screen true d = as_declared no_answer no_rule (rw e (d.0 refl))
        at_screen false d = unexplained no_answer no_rule (rw e (λ h. false-ne_true (d.1 h)))

    expectation-ReadsAs :
        (step : Option Step) (checking : Bool)
        → ReadsAs c step checking (by_expectation host snapshot inputs c step checking)
    unfolding ReadsAs classify
    expectation-ReadsAs step true =
        asserted-ReadsAs step true c.checkpoint checkpoint_satisfied checkpoint_unmet refl
    expectation-ReadsAs none false = as_declared no_answer no_rule tt
    expectation-ReadsAs (some step) false = at_precondition_of step.precondition refl
      where
        at_precondition_of :
            (p : Option Predicate)
            → step.precondition ≡ p
            → ReadsAs c (some step) false (at_precondition host snapshot inputs step.id p)
        at_precondition_of none e = as_declared no_answer no_rule (rw e tt)
        at_precondition_of (some p) e =
            asserted-ReadsAs (some step) false p precondition_satisfied (unmet_precondition step.id)
              e

  module _ (c : Capability) (step : Option Step) (checking : Bool) where
    -- A screen is read in the declared order: as the first declared outcome that holds; else, no
    -- outcome holding, as the first recovery rule whose condition holds; else, neither holding, as
    -- expected where the checkpoint or the step's precondition holds or nothing is declared, and as
    -- unexpected where that expectation is broken.
    pub classify-Reads :
        Reads c step checking
          (classify host snapshot inputs c step checking).observation
          (classify host snapshot inputs c step checking).outcome
          (classify host snapshot inputs c step checking).recovery
    unfolding classify Found ReadsAs
    classify-Reads =
        at_outcome (first_detected host snapshot inputs (λ o. o.detect) c.outcomes)
          (first_detected-Found (λ o. o.detect) c.outcomes)
      where
        at_recovery :
            (r : Option RecoveryRule)
            → All (λ o. ¬ Shown o.detect) c.outcomes
            → Found (λ r. r.detect) c.recovery r
            → ReadsAs c step checking (by_recovery host snapshot inputs c step checking r)
        at_recovery none h k = expectation-ReadsAs c h k step checking
        at_recovery (some r) h k = transient h k

        at_outcome :
            (o : Option Outcome)
            → Found (λ o. o.detect) c.outcomes o
            → ReadsAs c step checking (by_outcome host snapshot inputs c step checking o)
        at_outcome (some o) k = answered k
        at_outcome none k =
            at_recovery (first_detected host snapshot inputs (λ r. r.detect) c.recovery) k
              (first_detected-Found (λ r. r.detect) c.recovery)
