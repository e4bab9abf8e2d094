-- ===== src/Domain/Target.antt =====
-- src/cua/domain/target.py: a semantic description of a control, and the resolution ladder.
use computer_use_automation.Base.{
  ℕ, suc, String, Bool, true, false, Option, none, some, List, [], ◌∷◌, ltb,
}
use computer_use_automation.Domain.Snapshot.{NodeScope}

pub data MatchMode : Type 0 where
  exact normalized contains regex : MatchMode

pub record NameMatch : Type 0 where
  pub value : String
  pub match_mode : MatchMode

pub data AnchorRelation : Type 0 where
  row_of adjacent_to within_section : AnchorRelation

pub record Anchor : Type 0 where
  pub relation : AnchorRelation
  pub text : String
  pub match_mode : MatchMode

pub data ResolutionStrategy : Type 0 where
  semantic_exact semantic_normalized structural_anchor hint_cached ordinal_in_region vision :
      ResolutionStrategy

abbrev pub ladder_order : List ResolutionStrategy
ladder_order =
    semantic_exact ∷ semantic_normalized ∷ structural_anchor ∷ hint_cached ∷ ordinal_in_region
    ∷ vision ∷ []

-- `strategy in REPLAY_FORBIDDEN`
unfoldable pub is_replay_forbidden : ResolutionStrategy → Bool
is_replay_forbidden vision = true
is_replay_forbidden _ = false

abbrev pub is_strategy : ResolutionStrategy → ResolutionStrategy → Bool
is_strategy semantic_exact semantic_exact = true
is_strategy semantic_normalized semantic_normalized = true
is_strategy structural_anchor structural_anchor = true
is_strategy hint_cached hint_cached = true
is_strategy ordinal_in_region ordinal_in_region = true
is_strategy vision vision = true
is_strategy _ _ = false

-- `LADDER.index(strategy)`: every strategy is in the ladder, so the index is always found.
index_in : List ResolutionStrategy → ResolutionStrategy → ℕ
index_in [] s = 0
index_in (t ∷ ts) s =
    let rest = suc (index_in ts s) in elim (is_strategy t s) [ true ↦ 0 | false ↦ rest ]

unfoldable pub ladder_rank : ResolutionStrategy → ℕ
unfolding index_in
ladder_rank s = index_in ladder_order s

unfoldable pub is_drift : Option ResolutionStrategy → ResolutionStrategy → Bool
unfolding ladder_rank
is_drift none used = false
is_drift (some recorded) used = ltb (ladder_rank recorded) (ladder_rank used)

pub record TargetDescriptor : Type 0 where
  pub role : String
  pub name : Option NameMatch
  pub scope : NodeScope
  pub anchor : Option Anchor
  pub ordinal : Option ℕ
  pub hints : List (String × String)
  pub fingerprint : String
  pub recorded_strategy : Option ResolutionStrategy
