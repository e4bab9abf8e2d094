-- ===== src/Targeting/Resolver.antt =====
-- src/cua/targeting/resolver.py: the resolution ladder. The candidate generators of candidates.py are
-- an argument. `ambiguity`, a float that is reported and never read, is left out. A descriptor's
-- `ordinal` is not negative here: the code refuses a negative one as it does one out of range.
pub mod Unique
use computer_use_automation.Base.{
  ℕ, suc, ◌+◌, String, Bool, true, false, ◌&&◌, ◌||◌, not, Option, none, some, List, [], ◌∷◌, ◌++◌,
  ◌==◌, take, length, ltb, keep, get_elem?, if◌then◌else◌, Result, ok, err,
}
use computer_use_automation.Domain.Snapshot.{UiNode, UiSnapshot}
use computer_use_automation.Domain.Capability.{is_set}
use computer_use_automation.Domain.Target.{
  TargetDescriptor, ResolutionStrategy, semantic_exact, semantic_normalized, structural_anchor,
  hint_cached, ordinal_in_region, vision, is_replay_forbidden, is_drift,
}

abbrev pub Generator : Type 0
Generator = TargetDescriptor → UiSnapshot → List UiNode

-- The five functions of candidates.py.
pub record Strategies : Type 0 where
  pub by_exact : Generator
  pub by_normalized : Generator
  pub by_anchor : Generator
  pub by_hint : Generator
  pub by_ordinal : Generator

-- `GENERATORS.get`: vision has no entry.
unfoldable pub generator_of : Strategies → ResolutionStrategy → Option Generator
generator_of g semantic_exact = some g.by_exact
generator_of g semantic_normalized = some g.by_normalized
generator_of g structural_anchor = some g.by_anchor
generator_of g hint_cached = some g.by_hint
generator_of g ordinal_in_region = some g.by_ordinal
generator_of g vision = none

pub record Resolution : Type 0 where
  pub node : UiNode
  pub strategy : ResolutionStrategy
  pub candidates_considered : ℕ
  pub fingerprint_matched : Bool
  pub strategies_tried : List ResolutionStrategy

pub data WhyUnresolved : Type 0 where
  none_distinguishable no_candidate : WhyUnresolved

pub record TargetResolutionError : Type 0 where
  pub target : TargetDescriptor
  pub reason : WhyUnresolved
  pub strategies_tried : List ResolutionStrategy
  pub candidates : List UiNode

unfoldable pub is_ambiguous : TargetResolutionError → Bool
is_ambiguous e = ltb 1 (length e.candidates)

pub record TargetResolver : Type 0 where
  pub allow_vision : Bool
  pub max_candidates_reported : ℕ
  pub strategies_available : List ResolutionStrategy

unfoldable pub ladder : TargetResolver → List ResolutionStrategy
ladder r = keep (λ s. r.allow_vision || not (is_replay_forbidden s)) r.strategies_available

-- The choice among what a rung found: the only one, or the one at the author's ordinal.
unfoldable pub choose : Option ℕ → List UiNode → Option UiNode
choose ordinal [] = none
choose ordinal (n ∷ []) = some n
choose none (n ∷ m ∷ ns) = none
choose (some i) (n ∷ m ∷ ns) = get_elem? (n ∷ m ∷ ns) i

module _ (g : Strategies) (r : TargetResolver) (target : TargetDescriptor)
    (snapshot : UiSnapshot) where
  conclude :
      ResolutionStrategy
      → List ResolutionStrategy
      → List UiNode
      → Option UiNode
      → Result TargetResolutionError Resolution
  conclude s tried found none = err (record {
    target = target;
    reason = none_distinguishable;
    strategies_tried = tried;
    candidates = take r.max_candidates_reported found;
  })
  conclude s tried found (some n) = ok (record {
    node = n;
    strategy = s;
    candidates_considered = length found;
    fingerprint_matched = is_set target.fingerprint && target.fingerprint == n.fingerprint;
    strategies_tried = tried;
  })

  -- What a rung yields: its candidates, or none where there is no generator.
  unfoldable pub found_at : ResolutionStrategy → List UiNode
  unfolding generator_of
  found_at s = elim (generator_of g s) [ none ↦ [] | some gen ↦ gen target snapshot ]

  abbrev pub tried_after : List ResolutionStrategy → ResolutionStrategy → List ResolutionStrategy
  tried_after tried s = elim (generator_of g s) [ none ↦ tried | some gen ↦ tried ++ s ∷ [] ]

  abbrev no_rung : List ResolutionStrategy → Result TargetResolutionError Resolution
  no_rung tried =
      err (record {
        target = target;
        reason = no_candidate;
        strategies_tried = tried;
        candidates = [];
      })

  at_rung :
      ResolutionStrategy
      → List ResolutionStrategy
      → List UiNode
      → Result TargetResolutionError Resolution
      → Result TargetResolutionError Resolution
  unfolding conclude choose
  at_rung s tried [] rest = rest
  at_rung s tried (n ∷ ns) rest = conclude s tried (n ∷ ns) (choose target.ordinal (n ∷ ns))

  unfoldable pub climb :
      List ResolutionStrategy → List ResolutionStrategy → Result TargetResolutionError Resolution
  unfolding at_rung found_at
  climb [] tried = no_rung tried
  climb (s ∷ ss) tried =
      at_rung s (tried_after tried s) (found_at s) (climb ss (tried_after tried s))

  unfoldable pub resolve : Result TargetResolutionError Resolution
  unfolding climb
  resolve = climb (ladder r) []

  with_drift :
      Result TargetResolutionError Resolution → Result TargetResolutionError (Resolution × Bool)
  with_drift (err e) = err e
  with_drift (ok x) = ok (x, is_drift target.recorded_strategy x.strategy)

  unfoldable pub resolve_with_drift : Result TargetResolutionError (Resolution × Bool)
  unfolding with_drift
  resolve_with_drift = with_drift resolve
