-- ===== src/Hitl/Reanchor.antt =====
-- src/cua/hitl/reanchor.py: what a person changed, and where automation resumes.
pub mod Resume
pub mod Quiet
use computer_use_automation.Base.{
  ℕ, suc, String, Bool, true, false, ◌||◌, not, Option, none, some, List, [], ◌∷◌, ◌++◌, map, keep,
  any, mem, length, get_or, lookup, insert, is_empty, if◌then◌else◌, ◌==◌, drop, nat_eq, is_some,
}
use computer_use_automation.Domain.Snapshot.{UiNode, UiSnapshot}
use computer_use_automation.Domain.Text.{TextHost}
use computer_use_automation.Domain.Predicates.{Predicate, Inputs, evaluate}
use computer_use_automation.Domain.Capability.{Capability, Step}

pub record HumanDelta : Type 0 where
  pub url_before : String
  pub url_after : String
  pub navigated : Bool
  pub nodes_added : ℕ
  pub nodes_removed : ℕ
  pub values_changed : List (String × (String × String))

unfoldable pub changed : HumanDelta → Bool
changed d =
    d.navigated
    || not (nat_eq d.nodes_added 0)
    || not (nat_eq d.nodes_removed 0)
    || not (is_empty d.values_changed)

-- The set of a list's texts, as a list without repetition.
unfoldable pub as_set : List String → List String
as_set [] = []
as_set (x ∷ xs) = let rest = as_set xs in if mem x rest then rest else x ∷ rest

unfoldable pub node_ids : List UiNode → List String
node_ids [] = []
node_ids (n ∷ ns) = n.node_id ∷ node_ids ns

-- `{node.node_id: node.value for node in nodes if node.value is not None}`
unfoldable pub values_from : List UiNode → List (String × String) → List (String × String)
values_from [] seen = seen
values_from (n ∷ ns) seen =
    values_from ns (elim n.value [ none ↦ seen | some v ↦ insert n.node_id v seen ])

edit_of : List (String × String) → UiNode → List (String × (String × String))
edit_of before n = elim n.value [
  | none ↦ []
  | some v ↦ elim (lookup n.node_id before) [
    | none ↦ []
    | some old ↦ if old == v then [] else (n.node_id, (old, v)) ∷ []
  ]
]

edits : List (String × String) → List UiNode → List (String × (String × String))
edits before [] = []
edits before (n ∷ ns) = edit_of before n ++ edits before ns

unfoldable pub diff_snapshots : UiSnapshot → UiSnapshot → HumanDelta
unfolding as_set node_ids values_from edits edit_of
diff_snapshots before after =
    let before_ids = as_set (node_ids before.nodes) in
    let after_ids = as_set (node_ids after.nodes) in
    record {
      url_before = before.url;
      url_after = after.url;
      navigated = not (before.url == after.url);
      nodes_added = length (keep (λ k. not (mem k before_ids)) after_ids);
      nodes_removed = length (keep (λ k. not (mem k after_ids)) before_ids);
      values_changed = edits (values_from before.nodes []) after.nodes;
    }

-- `reason` says which of the three cases it is, with the step it names.
pub data ResumeReason : Type 0 where
  cannot_act_from : Step → ResumeReason
  resuming_at : Step → ResumeReason
  all_satisfied : ResumeReason

pub record Reconciliation : Type 0 where
  pub resume_index : Option ℕ
  pub reason : ResumeReason
  pub skipped : List String

module _ (host : TextHost) where
  -- `predicate is not None and predicate.evaluate(snapshot, inputs)`
  unfoldable pub visibly_holds : Option Predicate → UiSnapshot → Inputs → Bool
  visibly_holds none s inputs = false
  visibly_holds (some p) s inputs = evaluate host p s inputs

  -- `predicate is not None and not predicate.evaluate(snapshot, inputs)`
  unfoldable pub visibly_fails : Option Predicate → UiSnapshot → Inputs → Bool
  visibly_fails none s inputs = false
  visibly_fails (some p) s inputs = not (evaluate host p s inputs)

  -- The loop, over the steps from `index` on.
  unfoldable pub scan : UiSnapshot → Inputs → ℕ → List String → List Step → Reconciliation
  unfolding visibly_holds visibly_fails
  scan s inputs index skipped [] = record {
    resume_index = some index;
    reason = all_satisfied;
    skipped = skipped;
  }
  scan s inputs index skipped (step ∷ steps) =
      let rest = scan s inputs (suc index) (skipped ++ step.id ∷ []) steps in
      if visibly_holds step.postcondition s inputs
      then rest
      else if visibly_fails step.precondition s inputs
      then record { resume_index = none; reason = cannot_act_from step; skipped = skipped }
      else record { resume_index = some index; reason = resuming_at step; skipped = skipped }

  -- `range(from_index, len(steps))` is empty from a `from_index` past the end, where the loop's
  -- answer is `len(steps)`.
  pub resume_from : UiSnapshot → Inputs → ℕ → ℕ → List Step → Reconciliation
  unfolding scan
  resume_from s inputs total from_index [] = record {
    resume_index = some total;
    reason = all_satisfied;
    skipped = [];
  }
  resume_from s inputs total from_index (step ∷ steps) = scan s inputs from_index [] (step ∷ steps)

  unfoldable pub reconcile : Capability → UiSnapshot → Inputs → ℕ → Reconciliation
  unfolding resume_from
  reconcile c s inputs from_index =
      resume_from s inputs (length c.steps) from_index (drop from_index c.steps)
