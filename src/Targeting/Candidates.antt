-- ===== src/Targeting/Candidates.antt =====
-- src/cua/targeting/candidates.py: what each rung of the resolution ladder offers. `str.lower`,
-- `re.search` and whether a pattern compiles are arguments.
pub mod Standing
pub mod Fitting
use computer_use_automation.Base.{
  ℕ, String, Bool, true, false, ◌&&◌, ◌||◌, not, Option, none, some, List, [], ◌∷◌, ◌++◌, ◌==◌, any,
  keep, is_empty, get_elem?, get_or, lookup, if◌then◌else◌,
}
use computer_use_automation.Domain.Snapshot.{UiNode, UiSnapshot, same_text}
use computer_use_automation.Domain.Snapshot.Tree.{is_text, parent, descendants, nearest_ancestor}
use computer_use_automation.Domain.Target.{
  MatchMode, exact, normalized, contains, regex, NameMatch, Anchor, AnchorRelation, row_of,
  adjacent_to, within_section, TargetDescriptor,
}
use computer_use_automation.Domain.Text.{TextHost, codes, has_prefix, occurs_in, same_codes}
use computer_use_automation.Targeting.Names.{normalize_name, same_name, fold}
use computer_use_automation.Targeting.Resolver.{Strategies}

-- What Python's library gives the generators.
pub record NameHost : Type 0 where
  pub text : TextHost
  pub compiles : String → Bool

-- `a is not None and b != a`, negated.
unfoldable pub narrows : Option String → Option String → Bool
narrows none actual = true
narrows (some t) actual = same_text actual (some t)

unfoldable pub in_scope : TargetDescriptor → UiNode → Bool
unfolding narrows
in_scope target n =
    narrows target.scope.frame n.scope.frame && narrows target.scope.region n.scope.region

unfoldable pub role_matches : TargetDescriptor → UiNode → Bool
role_matches target n = n.role == target.role

-- A control of the role, in the scope.
unfoldable pub fits : TargetDescriptor → UiNode → Bool
unfolding in_scope role_matches
fits target n = role_matches target n && in_scope target n

-- `_base_pool`, which is also `ordinal_pool`.
unfoldable pub base_pool : TargetDescriptor → UiSnapshot → List UiNode
base_pool target s = keep (fits target) s.nodes

abbrev pub same_node : UiNode → UiNode → Bool
same_node n m = n.node_id == m.node_id

-- The node or one that it stands in, by the form of an id.
unfoldable pub holds_node : UiNode → UiNode → Bool
unfolding has_prefix
holds_node anchor sibling =
    same_node sibling anchor || has_prefix (codes sibling.node_id ++ 47 ∷ []) (codes anchor.node_id)

unfoldable pub after_anchor : UiNode → List UiNode → List UiNode
unfolding holds_node
after_anchor anchor [] = []
after_anchor anchor (n ∷ ns) =
    let rest = after_anchor anchor ns in if holds_node anchor n then ns else rest

-- The first, if there is one.
unfoldable pub first_only : List UiNode → List UiNode
first_only [] = []
first_only (n ∷ ns) = n ∷ []

abbrev pub one_or_none : Option UiNode → List UiNode
one_or_none none = []
one_or_none (some n) = n ∷ []

-- The first node of each id that was found.
unfoldable pub in_order : List UiNode → List String → List UiNode → List UiNode
in_order found seen [] = []
in_order found seen (n ∷ ns) =
    let kept = in_order found (n.node_id ∷ seen) ns in
    let dropped = in_order found seen ns in
    if any (λ m. same_node m n) found && not (any (λ id. id == n.node_id) seen)
    then n ∷ kept
    else dropped

module _ (host : NameHost) (target : TargetDescriptor) (s : UiSnapshot) where
  abbrev pub lowered : Option String → List ℕ
  lowered t = host.text.lower (codes (get_or t ""))

  abbrev pub folded : Option String → List ℕ
  folded t = fold host.text.lower t

  abbrev pub lower_all : Option (List ℕ) → List ℕ
  lower_all none = []
  lower_all (some cs) = host.text.lower cs

  -- `wanted and wanted.lower() in (n.name or "").lower()`
  unfoldable pub name_contains : Option (List ℕ) → UiNode → Bool
  unfolding occurs_in
  name_contains none n = false
  name_contains (some wanted) n = occurs_in (host.text.lower wanted) (lowered n.name)

  unfoldable pub name_found : String → UiNode → Bool
  name_found pattern' n =
      is_text (get_or n.name "") && host.text.search pattern' (codes (get_or n.name ""))

  unfoldable pub by_mode : String → MatchMode → List UiNode
  unfolding name_contains name_found
  by_mode value exact =
      keep (λ n. same_name (normalize_name n.name) (normalize_name (some value)))
        (base_pool target s)
  by_mode value contains = keep (name_contains (normalize_name (some value))) (base_pool target s)
  by_mode value regex =
      if host.compiles value then keep (name_found value) (base_pool target s) else []
  by_mode value normalized = []

  unfoldable pub semantic_exact : List UiNode
  unfolding by_mode
  semantic_exact = elim target.name [ none ↦ [] | some m ↦ by_mode m.value m.match_mode ]

  unfoldable pub by_fold : List ℕ → List UiNode
  by_fold [] = []
  by_fold (c ∷ cs) = keep (λ n. same_codes (folded n.name) (c ∷ cs)) (base_pool target s)

  unfoldable pub semantic_normalized : List UiNode
  unfolding by_fold
  semantic_normalized = elim target.name [ none ↦ [] | some m ↦ by_fold (folded (some m.value)) ]

  unfoldable pub anchor_matches : String → MatchMode → UiNode → Bool
  anchor_matches text exact n = same_name (normalize_name n.name) (normalize_name (some text))
  anchor_matches text contains n =
      is_text (get_or n.name "") && occurs_in (lowered (some text)) (lowered n.name)
  anchor_matches text normalized n = same_codes (folded n.name) (folded (some text))
  anchor_matches text regex n = same_codes (folded n.name) (folded (some text))

  -- The fitting descendants of a container, without the anchor itself.
  unfoldable pub others_in : UiNode → Option UiNode → List UiNode
  others_in anchor none = []
  others_in anchor (some container) =
      keep (λ n. fits target n && not (same_node n anchor)) (descendants s container)

  abbrev pub is_child_of : UiNode → UiNode → Bool
  is_child_of container n = elim (parent s n) [ none ↦ false | some p ↦ same_node p container ]

  abbrev pub row_or_above : UiNode → Option UiNode → Option UiNode
  row_or_above anchor none = nearest_ancestor s anchor "row"
  row_or_above anchor (some p) = if p.role == "row" then some p else nearest_ancestor s anchor "row"

  -- The first fitting cell after the anchor's, in its row.
  unfoldable pub next_in : UiNode → Option UiNode → List UiNode
  unfolding after_anchor first_only
  next_in anchor none = []
  next_in anchor (some container) = first_only (
      keep (fits target)
        (after_anchor anchor (keep (is_child_of container) (descendants s container))))

  abbrev pub table_or_parent : UiNode → Option UiNode → Option UiNode
  table_or_parent anchor (some t) = some t
  table_or_parent anchor none = parent s anchor

  unfoldable pub near : AnchorRelation → UiNode → List UiNode
  unfolding others_in next_in
  near row_of anchor = others_in anchor (nearest_ancestor s anchor "row")
  near adjacent_to anchor = next_in anchor (row_or_above anchor (parent s anchor))
  near within_section anchor =
      others_in anchor (table_or_parent anchor (nearest_ancestor s anchor "table"))

  unfoldable pub near_all : AnchorRelation → List UiNode → List UiNode
  unfolding near
  near_all relation [] = []
  near_all relation (n ∷ ns) = near relation n ++ near_all relation ns

  unfoldable pub structural_anchor : List UiNode
  unfolding near_all in_order anchor_matches
  structural_anchor = elim target.anchor [
    | none ↦ []
    | some a ↦
        in_order (near_all a.relation (keep (anchor_matches a.text a.match_mode) s.nodes)) []
          s.nodes
  ]

  abbrev pub name_confirms : Option NameMatch → UiNode → Bool
  name_confirms none n = true
  name_confirms (some m) n = same_codes (folded n.name) (folded (some m.value))

  -- A stored hint is believed only of a control that fits and bears the name.
  unfoldable pub by_css : Option String → List UiNode
  by_css none = []
  by_css (some wanted) =
      if is_text wanted
      then keep (name_confirms target.name)
          (keep (fits target) (keep (λ n. same_text (lookup "css" n.hints) (some wanted)) s.nodes))
      else []

  unfoldable pub hint_cached : List UiNode
  unfolding by_css
  hint_cached = by_css (lookup "css" target.hints)

  unfoldable pub at_ordinal : Option ℕ → List UiNode
  at_ordinal none = []
  at_ordinal (some i) = one_or_none (get_elem? (base_pool target s) i)

  unfoldable pub ordinal_in_region : List UiNode
  unfolding at_ordinal
  ordinal_in_region = at_ordinal target.ordinal

-- The table of generators.
abbrev pub strategies : NameHost → Strategies
strategies host = record {
  by_exact = semantic_exact host;
  by_normalized = semantic_normalized host;
  by_anchor = structural_anchor host;
  by_hint = hint_cached host;
  by_ordinal = ordinal_in_region host;
}
