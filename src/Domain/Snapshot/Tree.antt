-- ===== src/Domain/Snapshot/Tree.antt =====
-- src/cua/domain/snapshot.py: the tree of a snapshot. A node is the one that the index of ids has, so
-- that two of its nodes are the same object if they have one id. The two walks take fuel: the way up
-- ends at a node seen before, and the way down is as deep as the tree is.
pub mod Enough
use computer_use_automation.Base.{
  ℕ, zero, suc, String, Bool, true, false, Option, none, some, List, [], ◌∷◌, ◌++◌, ◌==◌, any,
  length, if◌then◌else◌,
}
use computer_use_automation.Domain.Snapshot.{UiNode, UiSnapshot}

-- `_by_id.get`: of the nodes with one id, the last.
unfoldable pub by_id : List UiNode → String → Option UiNode
by_id [] id = none
by_id (n ∷ ns) id = elim (by_id ns id) [
  | some m ↦ some m
  | none ↦ if n.node_id == id then some n else none
]

unfoldable pub found_ids : (String → Option UiNode) → List String → List UiNode
found_ids get [] = []
found_ids get (id ∷ ids) =
    let rest = found_ids get ids in elim (get id) [ some c ↦ c ∷ rest | none ↦ rest ]

abbrev pub is_text : String → Bool
is_text t = if t == "" then false else true

unfoldable pub first_with_role : String → List UiNode → Option UiNode
first_with_role role [] = none
first_with_role role (n ∷ ns) =
    let rest = first_with_role role ns in if n.role == role then some n else rest

-- What `f` gives of each, one after another.
unfoldable pub each : (UiNode → List UiNode) → List UiNode → List UiNode
each f [] = []
each f (n ∷ ns) = (n ∷ f n) ++ each f ns

module _ (s : UiSnapshot) where
  unfoldable pub children : UiNode → List UiNode
  unfolding found_ids by_id
  children n = found_ids (by_id s.nodes) n.child_ids

  unfoldable pub parent : UiNode → Option UiNode
  unfolding by_id
  parent n = elim n.parent_id [
    | none ↦ none
    | some id ↦ if is_text id then by_id s.nodes id else none
  ]

  -- The loop of `ancestors`, for so many rounds at most.
  unfoldable pub upward : ℕ → Option UiNode → List String → List UiNode
  unfolding parent
  upward rounds none seen = []
  upward zero (some n) seen = []
  upward (suc rounds) (some n) seen =
      let rest = upward rounds (parent n) (n.node_id ∷ seen) in
      if any (λ id. id == n.node_id) seen then [] else n ∷ rest

  unfoldable pub ancestors : UiNode → List UiNode
  unfolding upward
  ancestors n = upward (length s.nodes) (parent n) []

  -- The descendants to a depth.
  unfoldable pub downward : ℕ → UiNode → List UiNode
  unfolding each children
  downward zero n = []
  downward (suc depth) n = each (downward depth) (children n)

  unfoldable pub descendants : UiNode → List UiNode
  unfolding downward
  descendants n = downward (length s.nodes) n

  unfoldable pub nearest_ancestor : UiNode → String → Option UiNode
  unfolding ancestors first_with_role
  nearest_ancestor n role = first_with_role role (ancestors n)
