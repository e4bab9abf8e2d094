-- ===== src/Tests/Targeting.antt =====
-- src/cua/targeting on the screen with a button: it is found at its ordinal.
use computer_use_automation.Base.{
  ◌≡◌, inl, inr, refl, sym, ◌∙◌, String, lookup, Option, true, none, some, Result, ok, err, [], ◌∷◌,
}
use computer_use_automation.Domain.Snapshot.{UiNode, UiSnapshot}
use computer_use_automation.Domain.Target.{TargetDescriptor, ordinal_in_region, is_replay_forbidden}
use computer_use_automation.Targeting.Resolver.{
  TargetResolutionError, Resolution, resolve, ladder, generator_of,
}
use computer_use_automation.Targeting.Candidates.{NameHost}
use computer_use_automation.Targeting.Candidates as Candidates
use computer_use_automation.Targeting.Candidates.Standing.{In}
use computer_use_automation.Targeting.Candidates.Fitting.{IsDescribed, resolve-IsDescribed}
use computer_use_automation.Domain.Snapshot.Tree.{nearest_ancestor}
use computer_use_automation.Targeting.Names.{same_name, normalize_name}
use computer_use_automation.Targeting.Synthesize.{synthesize_descriptor, by_position}
use computer_use_automation.Targeting.Synthesize.Positioned.{ordinal_in_region-by_position}
use computer_use_automation.Tests.Data.{text_host, screen, save_button, save_target, resolver}

abbrev pub name_host : NameHost
name_host = record { text = text_host; compiles = λ p. true }

abbrev first_button : TargetDescriptor
first_button = record save_target { ordinal = some 0 }

abbrev found_first : Resolution
found_first = record {
  node = save_button;
  strategy = ordinal_in_region;
  candidates_considered = 1;
  fingerprint_matched = true;
  strategies_tried = ladder resolver;
}

one_button : (n m : UiNode) → In screen.nodes n → In screen.nodes m → n ≡ m
one_button n m (inl p) (inl q) = sym p ∙ q
one_button n m (inl p) (inr e) = absurd e
one_button n m (inr e) q = absurd e

resolve-IsDescribed_example : IsDescribed first_button screen save_button
unfolding resolve ladder generator_of is_replay_forbidden lookup Candidates.semantic_exact
    Candidates.semantic_normalized Candidates.structural_anchor Candidates.hint_cached
    Candidates.ordinal_in_region Candidates.base_pool Candidates.fits
resolve-IsDescribed_example =
    resolve-IsDescribed name_host first_button screen (λ n m p q e. one_button n m p q) resolver
      found_first refl

-- Three buttons, of which two are called the same.
abbrev named : String → String → UiNode
named id name = record save_button { node_id = id; name = some name }

abbrev three_buttons : UiSnapshot
three_buttons = record screen {
  nodes = named "n1" "Open" ∷ named "n2" "Save" ∷ named "n3" "Save" ∷ [];
}

abbrev recorded_second : TargetDescriptor
recorded_second = (synthesize_descriptor name_host (named "n2" "Save") three_buttons).descriptor

abbrev resolved_id : Result TargetResolutionError Resolution → Option String
resolved_id (ok x) = some x.node.node_id
resolved_id (err e) = none

-- The second button is recorded by its position among the three; what is resolved is the third.
recorded_second_resolved :
    resolved_id (resolve (Candidates.strategies name_host) resolver recorded_second three_buttons)
    ≡ some "n3"
unfolding resolve ladder is_replay_forbidden Candidates.semantic_exact synthesize_descriptor
    Candidates.base_pool Candidates.fits nearest_ancestor same_name normalize_name
recorded_second_resolved = refl

ordinal_in_region-by_position_example :
    Candidates.ordinal_in_region name_host
      (by_position name_host save_button screen).descriptor
      screen
    ≡ save_button ∷ []
ordinal_in_region-by_position_example =
    ordinal_in_region-by_position name_host save_button screen (λ n m p q e. one_button n m p q)
      (inl refl)
