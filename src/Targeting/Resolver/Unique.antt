-- ===== src/Targeting/Resolver/Unique.antt =====
-- src/cua/targeting/resolver.py: no guess is ever made.
use computer_use_automation.Base.{
  ℕ, ◌≡◌, refl, Option, none, some, List, [], ◌∷◌, arith, get_elem?, Result, ok,
}
use computer_use_automation.Domain.Snapshot.{UiNode, UiSnapshot}
use computer_use_automation.Domain.Target.{TargetDescriptor, ResolutionStrategy}
use computer_use_automation.Targeting.Resolver.{
  Strategies, TargetResolver, Resolution, TargetResolutionError, at_rung, tried_after, found_at,
  climb, resolve, ladder,
}

module _ (g : Strategies) (r : TargetResolver) (target : TargetDescriptor)
    (snapshot : UiSnapshot) where
  abbrev rung : ResolutionStrategy → List UiNode
  rung = found_at g r target snapshot

  -- `x` is the outcome of the first rung of `ss` that finds anything: earlier ones find nothing, and
  -- the node is the only candidate there, or the one at the ordinal of the descriptor.
  pub data FirstFound : List ResolutionStrategy → Resolution → Type 0 where
    skip :
        {s : ResolutionStrategy} {ss : List ResolutionStrategy} {x : Resolution}
        → rung s ≡ []
        → FirstFound ss x
        → FirstFound (s ∷ ss) x
    only :
        {s : ResolutionStrategy} {ss : List ResolutionStrategy} {x : Resolution}
        → x.strategy ≡ s
        → rung s ≡ x.node ∷ []
        → FirstFound (s ∷ ss) x
    chosen :
        {s : ResolutionStrategy} {ss : List ResolutionStrategy} {x : Resolution} {i : ℕ}
        → x.strategy ≡ s
        → target.ordinal ≡ some i
        → get_elem? (rung s) i ≡ some x.node
        → FirstFound (s ∷ ss) x

  at_rung-FirstFound :
      (s : ResolutionStrategy) (ss tried : List ResolutionStrategy) (found : List UiNode)
      (ordinal : Option ℕ) (rest : Result TargetResolutionError Resolution) {x : Resolution}
      → rung s ≡ found
      → target.ordinal ≡ ordinal
      → at_rung g r target snapshot s tried found rest ≡ ok x
      → (rest ≡ ok x → FirstFound ss x)
      → FirstFound (s ∷ ss) x
  unfolding climb
  at_rung-FirstFound s ss tried [] o rest e q h later = skip e (later h)
  at_rung-FirstFound s ss tried (n ∷ []) o rest e q h later =
      only (ground arith) (rw e (ground arith))
  at_rung-FirstFound s ss tried (n ∷ m ∷ ns) none rest e q h later = absurd (ground arith)
  at_rung-FirstFound s ss tried (n ∷ m ∷ ns) (some i) rest e q h later =
      chosen {i = i} (ground arith) q (rw e (ground arith))

  climb-FirstFound :
      (ss tried : List ResolutionStrategy) {x : Resolution}
      → climb g r target snapshot ss tried ≡ ok x
      → FirstFound ss x
  unfolding climb
  climb-FirstFound [] tried h = absurd (ground arith)
  climb-FirstFound (s ∷ ss) tried {x = x} h =
      at_rung-FirstFound s ss (tried_after g r target snapshot tried s) (rung s) target.ordinal
        (climb g r target snapshot ss (tried_after g r target snapshot tried s)) {x = x} refl refl h
        (climb-FirstFound ss (tried_after g r target snapshot tried s))

  -- A successful resolution is the outcome of the first rung of the ladder that finds anything, and
  -- its node is the only candidate there or the one at the ordinal that the author gave.
  pub resolve-FirstFound :
      {x : Resolution} → resolve g r target snapshot ≡ ok x → FirstFound (ladder r) x
  unfolding resolve
  resolve-FirstFound h = climb-FirstFound (ladder r) [] h
