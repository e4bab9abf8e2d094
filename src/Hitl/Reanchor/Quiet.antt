-- ===== src/Hitl/Reanchor/Quiet.antt =====
-- src/cua/hitl/reanchor.py: what it means that a handoff is reported as having changed nothing.
use computer_use_automation.Base.{
  String, ◌≡◌, refl, sym, ◌∙◌, Bool, true, false, not, some, List, [], ◌∷◌, ◌++◌, arith, keep, mem,
  length, lookup, All, Bool-cases, inl, inr, ◌==◌, eq_iff,
}
use computer_use_automation.Domain.Snapshot.{UiNode, UiSnapshot}
use computer_use_automation.Hitl.Reanchor.{
  HumanDelta, changed, as_set, node_ids, values_from, edit_of, edits, diff_snapshots,
}

mem-as_set : (k : String) (xs : List String) → mem k (as_set xs) ≡ mem k xs
unfolding as_set
mem-as_set k [] = refl
mem-as_set k (x ∷ xs) = elim (Bool-cases (mem x (as_set xs))) [
  | inl e ↦ rw e (grind (arith, eq_iff x k, mem-as_set k xs, mem-as_set x xs, e))
  | inr e ↦ rw e (rw (mem-as_set k xs) refl)
]

-- A comprehension that keeps nothing has dropped each member.
mem-keep_none :
    (p : String → Bool) (k : String) (xs : List String)
    → length (keep p xs) ≡ 0
    → mem k xs ≡ true
    → p k ≡ false
mem-keep_none p k [] h m = absurd (ground arith)
mem-keep_none p k (x ∷ xs) h m = elim (Bool-cases (p x)) [
  | inl e ↦ absurd (ground arith)
  | inr e ↦ elim (Bool-cases (x == k)) [
    | inl q ↦ let same : x ≡ k = (eq_iff x k).0 q in rw same at e
    | inr q ↦ mem-keep_none p k xs (ground arith) (ground arith)
  ]
]

append-nil_split : {A : Type 0} (xs ys : List A) → xs ++ ys ≡ [] → (xs ≡ []) × (ys ≡ [])
append-nil_split [] ys h = (refl, h)
append-nil_split (x ∷ xs) ys h = absurd (ground arith)

-- A control that had a value, and has one, has the value that it had.
pub Unedited : List (String × String) → UiNode → Type 0
Unedited before n =
    (v old : String) → n.value ≡ some v → lookup n.node_id before ≡ some old → old ≡ v

edit_of-Unedited :
    (before : List (String × String)) (n : UiNode) → edit_of before n ≡ [] → Unedited before n
unfolding diff_snapshots Unedited
edit_of-Unedited before n h v old e f =
    let g = rw (edit_of, e, f) at h in ground (arith, eq_iff old v)

edits-Unedited :
    (before : List (String × String)) (nodes : List UiNode)
    → edits before nodes ≡ []
    → All (Unedited before) nodes
unfolding diff_snapshots
edits-Unedited before [] h = tt
edits-Unedited before (n ∷ ns) h =
    let (here, rest) = append-nil_split (edit_of before n) (edits before ns) h in
    (edit_of-Unedited before n here, edits-Unedited before ns rest)

same_members :
    (xs ys : List String) (k : String)
    → length (keep (λ j. not (mem j (as_set xs))) (as_set ys)) ≡ 0
    → mem k ys ≡ true
    → mem k xs ≡ true
same_members xs ys k h m =
    let kept = mem-keep_none (λ j. not (mem j (as_set xs))) k (as_set ys) h (mem-as_set k ys ∙ m) in
    sym (mem-as_set k xs) ∙ ground arith

same_Bool : {a b : Bool} → (a ≡ true → b ≡ true) → (b ≡ true → a ≡ true) → a ≡ b
same_Bool {a = true} {b = true} f g = refl
same_Bool {a = true} {b = false} f g = sym (f refl)
same_Bool {a = false} {b = true} f g = g refl
same_Bool {a = false} {b = false} f g = refl

unchanged :
    (d : HumanDelta)
    → changed d ≡ false
    → (d.navigated ≡ false) × (d.nodes_added ≡ 0) × (d.nodes_removed ≡ 0) × (d.values_changed ≡ [])
unfolding changed
unchanged d h = (ground arith, ground arith, ground arith, ground arith)

-- A handoff that is reported as having changed nothing has left the page at its URL, with the same ids
-- on it, and each of its controls that had a value and has one with the value that it had.
pub diff_snapshots_quiet :
    (before after : UiSnapshot)
    → changed (diff_snapshots before after) ≡ false
    → (before.url ≡ after.url)
      × ((k : String) → mem k (node_ids after.nodes) ≡ mem k (node_ids before.nodes))
      × All (Unedited (values_from before.nodes [])) after.nodes
unfolding diff_snapshots
diff_snapshots_quiet before after h =
    let (still, none_added, none_removed, none_edited) =
      unchanged (diff_snapshots before after) h in
    (
      ground (arith, eq_iff before.url after.url),
      λ k.
          same_Bool (same_members (node_ids before.nodes) (node_ids after.nodes) k none_added)
            (same_members (node_ids after.nodes) (node_ids before.nodes) k none_removed),
      edits-Unedited (values_from before.nodes []) after.nodes none_edited,
    )
