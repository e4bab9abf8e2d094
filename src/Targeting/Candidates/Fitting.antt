-- ===== src/Targeting/Candidates/Fitting.antt =====
-- src/cua/targeting: what is resolved is a control that the descriptor describes.
use computer_use_automation.Base.{
  ℕ, zero, suc, ◌≡◌, ◌⊎◌, inl, inr, refl, ap, arith, String, Bool, true, ◌&&◌, not, Bool-cases,
  Option, none, some, List, [], ◌∷◌, All, All-append, any, keep, get_elem?, eq_iff, ◌==◌, ok,
  lookup,
}
use mathlib.Core.Path.{subst}
use computer_use_automation.Domain.Snapshot.{UiNode, UiSnapshot}
use computer_use_automation.Domain.Snapshot.Tree.{by_id, children, downward, descendants, is_text}
use computer_use_automation.Domain.Target.{
  MatchMode, exact, normalized, contains, regex, NameMatch, AnchorRelation, row_of, adjacent_to,
  within_section, Anchor, TargetDescriptor, ResolutionStrategy,
}
use computer_use_automation.Targeting.Resolver.{
  TargetResolver, Resolution, generator_of, found_at, ladder, resolve,
}
use computer_use_automation.Targeting.Resolver.Unique.{
  FirstFound, skip, only, chosen, resolve-FirstFound,
}
use computer_use_automation.Targeting.Candidates.{
  one_or_none, NameHost, narrows, role_matches, in_scope, fits, base_pool, same_node, after_anchor,
  holds_node, first_only, in_order, by_mode, semantic_exact, by_fold, semantic_normalized,
  others_in, next_in, near, near_all, structural_anchor, by_css, hint_cached, at_ordinal,
  ordinal_in_region, strategies, anchor_matches, folded,
}
use computer_use_automation.Targeting.Candidates.Standing.{
  In, keep-All, keep-passes, All-get, All-both, All-In, by_id-In, found_ids-In, each-In,
}

-- A control of the screen that has the role, and is in the frame and the region if they are given.
pub record IsDescribed (target : TargetDescriptor) (s : UiSnapshot) (n : UiNode) : Type 0 where
  pub role : n.role ≡ target.role
  pub frame : (target.scope.frame ≡ none) ⊎ (n.scope.frame ≡ target.scope.frame)
  pub region : (target.scope.region ≡ none) ⊎ (n.scope.region ≡ target.scope.region)
  pub stands : In s.nodes n

narrows_lem :
    (wanted actual : Option String)
    → narrows wanted actual ≡ true
    → (wanted ≡ none) ⊎ (actual ≡ wanted)
unfolding narrows
narrows_lem none actual h = inl refl
narrows_lem (some t) none h = absurd (ground (arith, h))
narrows_lem (some t) (some u) h = inr (ap some ((eq_iff u t).0 h))

and_true : (a b : Bool) → (a && b) ≡ true → (a ≡ true) × (b ≡ true)
and_true a b h = (ground (arith, h), ground (arith, h))

fits-IsDescribed :
    (target : TargetDescriptor) (s : UiSnapshot) (n : UiNode)
    → fits target n ≡ true
    → In s.nodes n
    → IsDescribed target s n
unfolding fits
fits-IsDescribed target s n h i =
    let parts : (role_matches target n ≡ true) × (in_scope target n ≡ true) =
      and_true (role_matches target n) (in_scope target n) h in
    let scoped : (narrows target.scope.frame n.scope.frame ≡ true)
        × (narrows target.scope.region n.scope.region ≡ true) =
      and_true (narrows target.scope.frame n.scope.frame)
        (narrows target.scope.region n.scope.region) (parts.1) in
    record {
      role = (eq_iff n.role target.role).0 (parts.0);
      frame = narrows_lem target.scope.frame n.scope.frame (scoped.0);
      region = narrows_lem target.scope.region n.scope.region (scoped.1);
      stands = i;
    }

module _ (host : NameHost) (target : TargetDescriptor) (s : UiSnapshot) where
  -- A control of the screen that has the role and is in the scope.
  abbrev pub IsFitting : UiNode → Type 0
  IsFitting n = (fits target n ≡ true) × In s.nodes n

  downward-In : (depth : ℕ) (n : UiNode) → All (In s.nodes) (downward s depth n)
  unfolding downward children
  downward-In zero n = tt
  downward-In (suc depth) n =
      each-In s.nodes (downward s depth) (children s n) (downward-In depth)
        (found_ids-In s.nodes (by_id s.nodes) n.child_ids (λ id n e. by_id-In s.nodes s.nodes id e))

  descendants-In : (n : UiNode) → All (In s.nodes) (descendants s n)
  unfolding descendants
  descendants-In n = downward-In _ n

  pool-IsFitting : All IsFitting (base_pool target s)
  unfolding base_pool
  pool-IsFitting =
      All-both (λ n. fits target n ≡ true) (In s.nodes) _
        (keep-passes (λ n. fits target n ≡ true) (fits target) s.nodes (λ n e. e))
        (keep-All (In s.nodes) (fits target) s.nodes (All-In s.nodes s.nodes (λ n k. k)))

  exact-IsFitting : All IsFitting (semantic_exact host target s)
  unfolding semantic_exact by_mode
  exact-IsFitting = at_name target.name
    where
      at_mode :
          (value : String) (mode : MatchMode) → All IsFitting (by_mode host target s value mode)
      at_mode value exact = keep-All IsFitting _ _ pool-IsFitting
      at_mode value contains = keep-All IsFitting _ _ pool-IsFitting
      at_mode value normalized = tt
      at_mode value regex = elim (Bool-cases (host.compiles value)) [
        | inl e ↦ rw e (keep-All IsFitting _ _ pool-IsFitting)
        | inr e ↦ rw e tt
      ]

      at_name :
          (m : Option NameMatch)
          → All IsFitting
              (elim m [ none ↦ [] | some m ↦ by_mode host target s m.value m.match_mode ])
      at_name none = tt
      at_name (some m) = at_mode m.value m.match_mode

  normalized-IsFitting : All IsFitting (semantic_normalized host target s)
  unfolding semantic_normalized by_fold
  normalized-IsFitting = at_name target.name
    where
      at_text : (cs : List ℕ) → All IsFitting (by_fold host target s cs)
      at_text [] = tt
      at_text (c ∷ cs) = keep-All IsFitting _ _ pool-IsFitting

      at_name :
          (m : Option NameMatch)
          → All IsFitting (elim m [
            | none ↦ []
            | some m ↦ by_fold host target s (folded host target s (some m.value))
          ])
      at_name none = tt
      at_name (some m) = at_text _

  others-IsFitting :
      (anchor : UiNode) (c : Option UiNode) → All IsFitting (others_in host target s anchor c)
  unfolding others_in
  others-IsFitting anchor none = tt
  others-IsFitting anchor (some c) =
      All-both (λ n. fits target n ≡ true) (In s.nodes) _
        (keep-passes (λ n. fits target n ≡ true) _ (descendants s c) (λ n e. ground (arith, e)))
        (keep-All (In s.nodes) _ (descendants s c) (descendants-In c))

  after_anchor-All :
      (P : UiNode → Type 0) (anchor : UiNode) (ns : List UiNode)
      → All P ns
      → All P (after_anchor anchor ns)
  unfolding after_anchor
  after_anchor-All P anchor [] h = tt
  after_anchor-All P anchor (n ∷ ns) h = elim (Bool-cases (holds_node anchor n)) [
    | inl e ↦ rw e (h.1)
    | inr e ↦ rw e (after_anchor-All P anchor ns (h.1))
  ]

  first-All : (P : UiNode → Type 0) (ns : List UiNode) → All P ns → All P (first_only ns)
  unfolding first_only
  first-All P [] h = tt
  first-All P (n ∷ ns) h = (h.0, tt)

  next-IsFitting :
      (anchor : UiNode) (c : Option UiNode) → All IsFitting (next_in host target s anchor c)
  unfolding next_in
  next-IsFitting anchor none = tt
  next-IsFitting anchor (some c) = first-All IsFitting _ (
      All-both (λ n. fits target n ≡ true) (In s.nodes) _
        (keep-passes (λ n. fits target n ≡ true) (fits target) _ (λ n e. e))
        (keep-All (In s.nodes) (fits target) _ (
          after_anchor-All (In s.nodes) anchor _
            (keep-All (In s.nodes) _ (descendants s c) (descendants-In c)))))

  near_all-IsFitting :
      (relation : AnchorRelation) (ns : List UiNode)
      → All IsFitting (near_all host target s relation ns)
  unfolding near_all near
  near_all-IsFitting relation [] = tt
  near_all-IsFitting relation (n ∷ ns) =
      All-append IsFitting (near host target s relation n) _ (at_relation relation)
        (near_all-IsFitting relation ns)
    where
      at_relation : (r : AnchorRelation) → All IsFitting (near host target s r n)
      at_relation row_of = others-IsFitting n _
      at_relation adjacent_to = next-IsFitting n _
      at_relation within_section = others-IsFitting n _

  hint-IsFitting : All IsFitting (hint_cached host target s)
  unfolding hint_cached by_css
  hint-IsFitting = at_hint (lookup "css" target.hints)
    where
      at_hint : (h : Option String) → All IsFitting (by_css host target s h)
      at_hint none = tt
      at_hint (some css) = elim (Bool-cases (is_text css)) [
        | inl e ↦ rw e (
            keep-All IsFitting _ _ (
              All-both (λ n. fits target n ≡ true) (In s.nodes) _
                (keep-passes (λ n. fits target n ≡ true) (fits target) _ (λ n e. e))
                (keep-All (In s.nodes) (fits target) _
                  (keep-All (In s.nodes) _ s.nodes (All-In s.nodes s.nodes (λ n k. k))))))
        | inr e ↦ rw e tt
      ]

  ordinal-IsFitting : All IsFitting (ordinal_in_region host target s)
  unfolding ordinal_in_region at_ordinal
  ordinal-IsFitting = at_index target.ordinal
    where
      at_found :
          (i : ℕ) (f : Option UiNode)
          → get_elem? (base_pool target s) i ≡ f
          → All IsFitting (one_or_none f)
      at_found i none e = tt
      at_found i (some n) e = (All-get IsFitting (base_pool target s) i pool-IsFitting e, tt)

      at_index : (i : Option ℕ) → All IsFitting (at_ordinal host target s i)
      at_index none = tt
      at_index (some i) = at_found i _ refl

  -- An id is that of one node.
  abbrev pub UniqueIds : Type 0
  UniqueIds = (n m : UiNode) → In s.nodes n → In s.nodes m → (n.node_id == m.node_id) ≡ true → n ≡ m

  module _ (unique : UniqueIds) where
    found-fits :
        (n : UiNode) (found : List UiNode)
        → In s.nodes n
        → any (λ m. same_node m n) found ≡ true
        → All IsFitting found
        → fits target n ≡ true
    found-fits n [] i e h = absurd (ground (arith, e))
    found-fits n (m ∷ ms) i e h = elim (Bool-cases (same_node m n)) [
      | inl t ↦ subst (λ k. fits target k ≡ true) (unique m n (h.0.1) i t) (h.0.0)
      | inr t ↦ found-fits n ms i (ground (arith, e, t)) (h.1)
    ]

    in_order-IsFitting :
        (found : List UiNode) (seen : List String) (ns : List UiNode)
        → All IsFitting found
        → All (In s.nodes) ns
        → All IsFitting (in_order found seen ns)
    unfolding in_order
    in_order-IsFitting found seen [] h k = tt
    in_order-IsFitting found seen (n ∷ ns) h k =
        elim (Bool-cases
          (any (λ m. same_node m n) found && not (any (λ id. id == n.node_id) seen))) [
            | inl e ↦ rw e (
              (found-fits n found (k.0) (ground (arith, e)) h, k.0),
              in_order-IsFitting found (n.node_id ∷ seen) ns h (k.1),
            )
            | inr e ↦ rw e (in_order-IsFitting found seen ns h (k.1))
          ]

    anchor-IsFitting : All IsFitting (structural_anchor host target s)
    unfolding structural_anchor
    anchor-IsFitting = at_anchor target.anchor
      where
        at_anchor :
            (a : Option Anchor)
            → All IsFitting (elim a [
              | none ↦ []
              | some a ↦
                  in_order
                    (near_all host target s a.relation
                      (keep (anchor_matches host target s a.text a.match_mode) s.nodes))
                    []
                    s.nodes
            ])
        at_anchor none = tt
        at_anchor (some a) =
            in_order-IsFitting _ [] s.nodes (near_all-IsFitting a.relation _)
              (All-In s.nodes s.nodes (λ n k. k))

    module _ (r : TargetResolver) where
      rung-IsFitting :
          (strategy : ResolutionStrategy)
          → All IsFitting (found_at (strategies host) r target s strategy)
      unfolding found_at generator_of
      rung-IsFitting ResolutionStrategy.semantic_exact = exact-IsFitting
      rung-IsFitting ResolutionStrategy.semantic_normalized = normalized-IsFitting
      rung-IsFitting ResolutionStrategy.structural_anchor = anchor-IsFitting
      rung-IsFitting ResolutionStrategy.hint_cached = hint-IsFitting
      rung-IsFitting ResolutionStrategy.ordinal_in_region = ordinal-IsFitting
      rung-IsFitting ResolutionStrategy.vision = tt

      FirstFound-IsFitting :
          (ss : List ResolutionStrategy) (x : Resolution)
          → FirstFound (strategies host) r target s ss x
          → IsFitting x.node
      FirstFound-IsFitting [] x f = elim f [ ]
      FirstFound-IsFitting (strategy ∷ ss) x (skip e f) = FirstFound-IsFitting ss x f
      FirstFound-IsFitting (strategy ∷ ss) x (only p e) =
          (subst (All IsFitting) e (rung-IsFitting strategy)).0
      FirstFound-IsFitting (strategy ∷ ss) x (chosen {i = i} p o e) =
          All-get IsFitting _ i (rung-IsFitting strategy) e

      -- With one node to an id, a control that is resolved stands on the screen, has the role that the
      -- descriptor names, and is in the frame and the region that it names, if any, by whichever rung.
      pub resolve-IsDescribed :
          (x : Resolution)
          → resolve (strategies host) r target s ≡ ok x
          → IsDescribed target s x.node
      resolve-IsDescribed x e =
          let fitting : IsFitting x.node =
            FirstFound-IsFitting (ladder r) x (resolve-FirstFound (strategies host) r target s e) in
          fits-IsDescribed target s x.node (fitting.0) (fitting.1)
