-- ===== src/Hitl/Reanchor/Resume.antt =====
-- src/cua/hitl/reanchor.py: automation skips nothing whose effect is not on the screen.
use computer_use_automation.Base.{
  ℕ, suc, ◌+◌, ◌-◌, ◌≤◌, String, ◌≡◌, refl, sym, ◌∙◌, true, false, Option, none, some, List, [],
  ◌∷◌, ◌++◌, arith, take, drop, length, length-drop, get_elem?, All, Bool-cases, inl, inr,
}
use mathlib.Core.List.{append-nil, append_assoc}
use computer_use_automation.Domain.Snapshot.{UiSnapshot}
use computer_use_automation.Domain.Text.{TextHost}
use computer_use_automation.Domain.Predicates.{Predicate, Inputs}
use computer_use_automation.Domain.Predicates.Meaning.{Holds, evaluate-iff-Holds}
use computer_use_automation.Domain.Capability.{Capability, Step}
use computer_use_automation.Hitl.Reanchor.{
  visibly_holds, visibly_fails, scan, resume_from, reconcile,
}

module _ (host : TextHost) (s : UiSnapshot) (inputs : Inputs) where
  -- The step declares a postcondition, and it holds on the screen.
  abbrev pub IsDone : Step → Type 0
  IsDone step = (p : Predicate) × (step.postcondition ≡ some p) × Holds host s inputs p

  -- A step to resume at has no postcondition that holds, and no precondition that does not; there is
  -- none past the last step.
  abbrev pub MayResume : Option Step → Type 0
  MayResume none = Unit
  MayResume (some step) =
      ((p : Predicate) → step.postcondition ≡ some p → ¬ (Holds host s inputs p))
      × ((p : Predicate) → step.precondition ≡ some p → Holds host s inputs p)

  done_if_visible :
      (q : Option Predicate)
      → visibly_holds host q s inputs ≡ true
      → (p : Predicate) × (q ≡ some p) × Holds host s inputs p
  unfolding visibly_holds
  done_if_visible none h = absurd (ground arith)
  done_if_visible (some p) h = (p, refl, (evaluate-iff-Holds host s inputs p).0 h)

  undone_if_not :
      (q : Option Predicate)
      → visibly_holds host q s inputs ≡ false
      → (p : Predicate) → q ≡ some p
      → ¬ (Holds host s inputs p)
  unfolding visibly_holds
  undone_if_not q h p e holds =
      let seen = (evaluate-iff-Holds host s inputs p).1 holds in
      let f = rw e at h in absurd (ground arith)

  met_if_not_failing :
      (q : Option Predicate)
      → visibly_fails host q s inputs ≡ false
      → (p : Predicate) → q ≡ some p
      → Holds host s inputs p
  unfolding visibly_fails
  met_if_not_failing q h p e =
      let f = rw e at h in (evaluate-iff-Holds host s inputs p).0 (ground arith)

  abbrev ids : List Step → List String
  ids [] = []
  ids (step ∷ steps) = step.id ∷ ids steps

  -- `k` steps of `steps` are skipped.
  pub record Skips (steps : List Step) (skipped : List String) (k : ℕ) : Type 0 where
    pub within : k ≤ length steps
    pub visible : All IsDone (take k steps)
    pub named : skipped ≡ ids (take k steps)
    pub then_resumes : MayResume (get_elem? steps k)

  scan-Skips :
      (index : ℕ) (before : List String) (steps : List Step) {i : ℕ}
      → (scan host s inputs index before steps).resume_index ≡ some i
      → (k : ℕ) × (own : List String) × (i ≡ index + k)
        × ((scan host s inputs index before steps).skipped ≡ before ++ own)
        × Skips steps own k
  unfolding scan
  scan-Skips index before [] h = (
    0,
    [],
    ground arith,
    sym (append-nil before),
    record { within = omega arith; visible = tt; named = refl; then_resumes = tt },
  )
  scan-Skips index before (step ∷ steps) h =
      elim (Bool-cases (visibly_holds host step.postcondition s inputs)) [
        | inl e ↦
            let (k, own, at, named, v) =
              scan-Skips (suc index) (before ++ step.id ∷ []) steps (rw e at h) in
            (
              suc k,
              step.id ∷ own,
              omega arith,
              rw e (named ∙ append_assoc before (step.id ∷ []) own),
              record {
                within = omega (arith, v.within);
                visible = (done_if_visible step.postcondition e, v.visible);
                named = rw v.named refl;
                then_resumes = v.then_resumes;
              },
            )
        | inr e ↦ elim (Bool-cases (visibly_fails host step.precondition s inputs)) [
          | inl f ↦ absurd (ground arith)
          | inr f ↦ (
            0,
            [],
            ground arith,
            rw (e, f) (sym (append-nil before)),
            record {
              within = omega arith;
              visible = tt;
              named = refl;
              then_resumes =
                  (undone_if_not step.postcondition e, met_if_not_failing step.precondition f);
            },
          )
        ]
      ]

  resume_from-Skips :
      (total from_index : ℕ) (steps : List Step) {i : ℕ}
      → from_index ≤ total
      → length steps ≡ total - from_index
      → (resume_from host s inputs total from_index steps).resume_index ≡ some i
      → (k : ℕ) × (i ≡ from_index + k)
        × Skips steps (resume_from host s inputs total from_index steps).skipped k
  unfolding resume_from
  resume_from-Skips total from_index [] le len h = (
    0,
    ground arith,
    record { within = omega arith; visible = tt; named = refl; then_resumes = tt },
  )
  resume_from-Skips total from_index (step ∷ steps) le len h =
      let (k, own, at, named, v) = scan-Skips from_index [] (step ∷ steps) h in (k, at, rw named v)

  -- Automation resumes at a step, from a starting point inside the flow, only if every step from there
  -- to it declares a postcondition that holds on the screen, those being the ones it reports as
  -- skipped; and that step, unless the flow is at its end, has no postcondition that holds, and no
  -- precondition that does not.
  pub reconcile-Skips :
      (c : Capability) (from_index : ℕ) {i : ℕ}
      → from_index ≤ length c.steps
      → (reconcile host c s inputs from_index).resume_index ≡ some i
      → (k : ℕ) × (i ≡ from_index + k)
        × Skips (drop from_index c.steps) (reconcile host c s inputs from_index).skipped k
  unfolding reconcile
  reconcile-Skips c from_index le h =
      resume_from-Skips (length c.steps) from_index (drop from_index c.steps) le
        (length-drop from_index c.steps) h
