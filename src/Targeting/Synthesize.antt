-- ===== src/Targeting/Synthesize.antt =====
-- src/cua/targeting/synthesize.py: how a control that was acted on is described.
pub mod Positioned
use computer_use_automation.Base.{
  ℕ, zero, suc, ◌+◌, String, Bool, true, false, ◌&&◌, ◌||◌, not, Option, none, some, List, [], ◌∷◌,
  ◌==◌, is_empty, get_or, keep, leb, nat_eq, length, if◌then◌else◌,
}
use mathlib.Core.List.{reverse}
use computer_use_automation.Domain.Snapshot.{UiNode, UiSnapshot, NodeScope, same_text}
use computer_use_automation.Domain.Snapshot.Tree.{is_text, parent, descendants, nearest_ancestor}
use computer_use_automation.Domain.Text.{codes, strip, TextHost}
use computer_use_automation.Domain.Target.{
  MatchMode, exact, normalized, NameMatch, Anchor, AnchorRelation, row_of, adjacent_to,
  TargetDescriptor, ResolutionStrategy, semantic_exact, structural_anchor, ordinal_in_region,
}
use computer_use_automation.Targeting.Candidates.{NameHost, same_node, base_pool}

pub record Synthesis : Type 0 where
  pub descriptor : TargetDescriptor
  pub strategy : ResolutionStrategy
  pub unique : Bool

abbrev money_pattern : String
money_pattern = "^-?\\$-?[\\d,]+\\.\\d{2}$|^-?[\\d]{1,3}(?:,\\d{3})+\\.\\d{2}$"

abbrev date_pattern : String
date_pattern = "^\\d{1,2}/\\d{1,2}/\\d{4}$|^\\d{4}-\\d{2}-\\d{2}$"

abbrev integer_pattern : String
integer_pattern = "^-?\\d+$"

abbrev number_pattern : String
number_pattern = "^-?\\d+\\.\\d+$"

-- `lstrip("-")`
unfoldable pub without_dashes : List ℕ → List ℕ
without_dashes [] = []
without_dashes (c ∷ cs) = let rest = without_dashes cs in if nat_eq c b'-' then rest else c ∷ cs

-- `looks_like_value` of perception/normalize.py; its patterns are anchored at the start, where
-- `re.match` and `re.search` agree.
unfoldable pub looks_like_value : TextHost → String → Bool
unfolding without_dashes strip
looks_like_value host text =
    let stripped = strip (codes text) in
    if not (is_text text)
    then false
    else if host.search money_pattern stripped
        || host.search date_pattern stripped
        || host.search number_pattern stripped
    then true
    else host.search integer_pattern stripped && leb 4 (length (without_dashes stripped))

-- `node.role in READABLE_ROLES`
unfoldable pub is_readable : String → Bool
is_readable role = role == "cell" || role == "text" || role == "heading"

abbrev pub name_text : UiNode → String
name_text n = get_or n.name ""

-- The first that has a name.
unfoldable pub first_name : List UiNode → Option String
first_name [] = none
first_name (n ∷ ns) =
    let rest = first_name ns in if is_text (name_text n) then some (name_text n) else rest

-- What stands before the node, the nearest first.
unfoldable pub before_node : UiNode → List UiNode → List UiNode → Option (List UiNode)
before_node node passed [] = none
before_node node passed (n ∷ ns) =
    let rest = before_node node (n ∷ passed) ns in if same_node n node then some passed else rest

abbrev pub one_later : Option ℕ → Option ℕ
one_later none = none
one_later (some i) = some (suc i)

-- `next((i for i, n in enumerate(...) if ...), None)`
unfoldable pub position_of : (UiNode → Bool) → List UiNode → Option ℕ
position_of p [] = none
position_of p (n ∷ ns) = let rest = one_later (position_of p ns) in if p n then some 0 else rest

abbrev pub is_one : List UiNode → Bool
is_one (n ∷ []) = true
is_one _ = false

module _ (host : NameHost) (node : UiNode) (s : UiSnapshot) where
  unfoldable pub label_in_row : Option UiNode → Option String
  unfolding first_name
  label_in_row none = none
  label_in_row (some row) =
      first_name (keep (λ n. not (same_node n node) && n.role == "cell") (descendants s row))

  unfoldable pub row_label : Option String
  unfolding label_in_row
  row_label = label_in_row (nearest_ancestor s node "row")

  -- The nearest named sibling that does not hold a datum.
  unfoldable pub label_before : Option (List UiNode) → Option String
  unfolding first_name looks_like_value
  label_before none = none
  label_before (some passed) =
      first_name
        (keep (λ n. is_text (name_text n) && not (looks_like_value host.text (name_text n))) passed)

  abbrev pub stands_in : UiNode → UiNode → Bool
  stands_in above n = elim (parent s n) [ none ↦ false | some p ↦ same_node p above ]

  unfoldable pub preceding_in : Option UiNode → Option String
  unfolding label_before before_node
  preceding_in none = none
  preceding_in (some above) =
      label_before (before_node node [] (keep (stands_in above) (descendants s above)))

  unfoldable pub preceding_label : Option String
  unfolding preceding_in
  preceding_label = preceding_in (parent s node)

  abbrev pub anchored : AnchorRelation → Option String → Option Anchor
  anchored relation none = none
  anchored relation (some label) =
      if is_text label
      then some (record { relation = relation; text = label; match_mode = normalized })
      else none

  unfoldable pub anchor_for : Option Anchor
  unfolding preceding_label row_label is_readable
  anchor_for =
      if is_readable node.role
      then anchored adjacent_to preceding_label
      else anchored row_of row_label

  -- What every descriptor of the node says.
  abbrev pub plain_descriptor : TargetDescriptor
  plain_descriptor = record {
    role = node.role;
    name = none;
    scope = record { frame = node.scope.frame; region = node.scope.region };
    anchor = none;
    ordinal = none;
    hints = node.hints;
    fingerprint = node.fingerprint;
    recorded_strategy = none;
  }

  abbrev pub pool : List UiNode
  pool = base_pool plain_descriptor s

  unfoldable pub by_name : Synthesis
  unfolding anchor_for
  by_name = record {
    descriptor = record plain_descriptor {
      name = some (record { value = name_text node; match_mode = exact });
      anchor = anchor_for;
      recorded_strategy = some semantic_exact;
    };
    strategy = semantic_exact;
    unique = true;
  }

  -- `NameMatch(value=...)` has the mode `MatchMode.EXACT` where none is given.
  abbrev pub name_if_any : Option NameMatch
  name_if_any =
      if is_text (name_text node)
      then some (record { value = name_text node; match_mode = exact })
      else none

  unfoldable pub position : ℕ
  unfolding position_of
  position = get_or (position_of (λ n. same_node n node) pool) 0

  unfoldable pub by_position : Synthesis
  unfolding position
  by_position = record {
    descriptor = record plain_descriptor {
      name = name_if_any;
      ordinal = some position;
      recorded_strategy = some ordinal_in_region;
    };
    strategy = ordinal_in_region;
    unique = false;
  }

  unfoldable pub by_anchor_or_position : Option Anchor → Synthesis
  unfolding by_position
  by_anchor_or_position none = by_position
  by_anchor_or_position (some a) = record {
    descriptor = record plain_descriptor {
      anchor = some a;
      recorded_strategy = some structural_anchor;
    };
    strategy = structural_anchor;
    unique = true;
  }

  unfoldable pub synthesize_descriptor : Synthesis
  unfolding by_name by_anchor_or_position anchor_for
  synthesize_descriptor =
      if is_text (name_text node) && is_one (keep (λ n. same_text n.name node.name) pool)
      then by_name
      else by_anchor_or_position anchor_for
