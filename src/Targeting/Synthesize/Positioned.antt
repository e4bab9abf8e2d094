-- ===== src/Targeting/Synthesize/Positioned.antt =====
-- src/cua/targeting: a position that was recorded is where the ordinal rung looks.
use computer_use_automation.Base.{
  ℕ, suc, ◌≡◌, inl, inr, refl, ap, ◌∙◌, arith, String, Bool, Bool-cases, true, false, Option, none,
  some, List, [], ◌∷◌, All, keep, get_elem?, eq_refl, get_or,
}
use mathlib.Core.Path.{subst}
use computer_use_automation.Domain.Snapshot.{UiNode, UiSnapshot}
use computer_use_automation.Domain.Target.{TargetDescriptor}
use computer_use_automation.Targeting.Candidates.{
  one_or_none, NameHost, narrows, in_scope, role_matches, fits, base_pool, same_node, at_ordinal,
  ordinal_in_region,
}
use computer_use_automation.Targeting.Candidates.Standing.{In, keep-All, All-In}
use computer_use_automation.Targeting.Candidates.Fitting.{UniqueIds}
use computer_use_automation.Targeting.Synthesize.{
  position_of, position, by_position, plain_descriptor, pool,
}

keep-In :
    (p : UiNode → Bool) (ns : List UiNode) (m : UiNode) → p m ≡ true → In ns m → In (keep p ns) m
keep-In p [] m e i = absurd i
keep-In p (n ∷ ns) m e (inl q) = let pn : p n ≡ true = ap p q ∙ e in rw pn (inl q)
keep-In p (n ∷ ns) m e (inr i) = elim (Bool-cases (p n)) [
  | inl k ↦ rw k (inr (keep-In p ns m e i))
  | inr k ↦ rw k (keep-In p ns m e i)
]

All-member : (P : UiNode → Type 0) (ns : List UiNode) (m : UiNode) → All P ns → In ns m → P m
All-member P [] m h i = absurd i
All-member P (n ∷ ns) m h (inl q) = subst P q (h.0)
All-member P (n ∷ ns) m h (inr i) = All-member P ns m (h.1) i

-- The position that is found is that of a node that passes.
record Positioned (p : UiNode → Bool) (ns : List UiNode) : Type 0 where
  index : ℕ
  node : UiNode
  counted : position_of p ns ≡ some index
  there : get_elem? ns index ≡ some node
  passes : p node ≡ true
  stands : In ns node

position_of-Positioned :
    (p : UiNode → Bool) (ns : List UiNode) (m : UiNode) → p m ≡ true → In ns m → Positioned p ns
unfolding position_of
position_of-Positioned p [] m e i = absurd i
position_of-Positioned p (n ∷ ns) m e i = elim (Bool-cases (p n)) [
  | inl k ↦ record {
    index = 0;
    node = n;
    counted = rw k refl;
    there = refl;
    passes = k;
    stands = inl refl;
  }
  | inr k ↦ later k (position_of-Positioned p ns m e (below i k))
]
  where
    below : In (n ∷ ns) m → p n ≡ false → In ns m
    below (inl q) k = absurd (ground (arith, ap p q, k, e))
    below (inr j) k = j

    later : p n ≡ false → Positioned p ns → Positioned p (n ∷ ns)
    later k r = record {
      index = suc r.index;
      node = r.node;
      counted = rw (k, r.counted) refl;
      there = r.there;
      passes = r.passes;
      stands = inr r.stands;
    }

narrows-same : (t : Option String) → narrows t t ≡ true
unfolding narrows
narrows-same none = refl
narrows-same (some t) = eq_refl t

module _ (host : NameHost) (node : UiNode) (s : UiSnapshot) where
  own_fits : fits (plain_descriptor host node s) node ≡ true
  unfolding fits role_matches in_scope
  own_fits =
      rw (eq_refl node.role, narrows-same node.scope.frame, narrows-same node.scope.region) refl

  at_ordinal_lem :
      (target : TargetDescriptor) (i : ℕ) (n : UiNode)
      → get_elem? (base_pool target s) i ≡ some n
      → at_ordinal host target s (some i) ≡ n ∷ []
  unfolding at_ordinal
  at_ordinal_lem target i n e = ap one_or_none e

  -- A control that is recorded by its position is all that the rung of positions offers for its
  -- descriptor on the same screen, if it stands there and no other node has its id.
  pub ordinal_in_region-by_position :
      UniqueIds host (plain_descriptor host node s) s
      → In s.nodes node
      → ordinal_in_region host (by_position host node s).descriptor s ≡ node ∷ []
  unfolding ordinal_in_region at_ordinal by_position position base_pool fits role_matches in_scope
  ordinal_in_region-by_position unique i =
      let found : Positioned (λ n. same_node n node) (pool host node s) =
        position_of-Positioned (λ n. same_node n node) (pool host node s) node
          (eq_refl node.node_id)
          (keep-In (fits (plain_descriptor host node s)) s.nodes node own_fits i) in
      let same : found.node ≡ node =
        unique found.node node
          (All-member (In s.nodes) (pool host node s) found.node
            (keep-All (In s.nodes) _ s.nodes (All-In s.nodes s.nodes (λ n k. k))) found.stands)
          i found.passes in
      let at : position host node s ≡ found.index = ap (λ o. get_or o 0) found.counted in
      ap (λ k. at_ordinal host (by_position host node s).descriptor s (some k)) at
      ∙ at_ordinal_lem (by_position host node s).descriptor found.index found.node found.there
      ∙ ap (λ n. n ∷ []) same
