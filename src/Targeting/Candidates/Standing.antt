-- ===== src/Targeting/Candidates/Standing.antt =====
-- src/cua/targeting: nodes that stand in a list, and what the walks of a snapshot's tree reach.
use computer_use_automation.Base.{
  ℕ, zero, suc, ◌≡◌, inl, inr, refl, arith, String, Bool, true, Bool-cases, Option, none, some,
  List, [], ◌∷◌, All, All-append, Any, keep, get_elem?, if◌then◌else◌, ◌==◌,
}
use mathlib.Core.Path.{subst}
use computer_use_automation.Domain.Snapshot.{UiNode}
use computer_use_automation.Domain.Snapshot.Tree.{by_id, found_ids, each}

-- The node stands in the list.
abbrev pub In : List UiNode → UiNode → Type 0
In ns n = Any (λ m. m ≡ n) ns

module _ (P : UiNode → Type 0) where
  pub keep-All : (p : UiNode → Bool) (ns : List UiNode) → All P ns → All P (keep p ns)
  keep-All p [] h = tt
  keep-All p (n ∷ ns) h = elim (Bool-cases (p n)) [
    | inl e ↦ rw e (h.0, keep-All p ns (h.1))
    | inr e ↦ rw e (keep-All p ns (h.1))
  ]

  pub keep-passes :
      (p : UiNode → Bool) (ns : List UiNode) → ((n : UiNode) → p n ≡ true → P n) → All P (keep p ns)
  keep-passes p [] h = tt
  keep-passes p (n ∷ ns) h = elim (Bool-cases (p n)) [
    | inl e ↦ rw e (h n e, keep-passes p ns h)
    | inr e ↦ rw e (keep-passes p ns h)
  ]

  pub All-get : (ns : List UiNode) (i : ℕ) {n : UiNode} → All P ns → get_elem? ns i ≡ some n → P n
  All-get [] i h e = absurd (ground (arith, e))
  All-get (m ∷ ns) zero {n} h e = let same : m ≡ n = ground (arith, e) in subst P same (h.0)
  All-get (m ∷ ns) (suc i) h e = All-get ns i (h.1) e

pub All-both :
    (P Q : UiNode → Type 0) (ns : List UiNode) → All P ns → All Q ns → All (λ n. P n × Q n) ns
All-both P Q [] h k = tt
All-both P Q (n ∷ ns) h k = ((h.0, k.0), All-both P Q ns (h.1) (k.1))

pub All-In : (all ns : List UiNode) → ((n : UiNode) → In ns n → In all n) → All (In all) ns
All-In all [] h = tt
All-In all (n ∷ ns) h = (h n (inl refl), All-In all ns (λ m k. h m (inr k)))

-- What the tree's walks reach are nodes of the snapshot.
module _ (nodes : List UiNode) where
  pub by_id-In : (ns : List UiNode) (id : String) {n : UiNode} → by_id ns id ≡ some n → In ns n
  unfolding by_id
  by_id-In [] id e = absurd (ground (arith, e))
  by_id-In (m ∷ ns) id {n} e = at_rest (by_id ns id) (λ k q. by_id-In ns id {n = k} q) e
    where
      at_rest :
          (r : Option UiNode)
          → ((k : UiNode) → r ≡ some k → In ns k)
          → elim r [ some k ↦ some k | none ↦ if m.node_id == id then some m else none ] ≡ some n
          → In (m ∷ ns) n
      at_rest (some k) q e = inr (q n e)
      at_rest none q e = elim (Bool-cases (m.node_id == id)) [
        | inl t ↦ inl (ground (arith, t, e))
        | inr t ↦ absurd (ground (arith, t, e))
      ]

  pub found_ids-In :
      (get : String → Option UiNode) (ids : List String)
      → ((id : String) (n : UiNode) → get id ≡ some n → In nodes n)
      → All (In nodes) (found_ids get ids)
  unfolding found_ids
  found_ids-In get [] h = tt
  found_ids-In get (id ∷ ids) h = at_node (get id) (λ n e. h id n e) (found_ids-In get ids h)
    where
      at_node :
          (r : Option UiNode)
          → ((n : UiNode) → r ≡ some n → In nodes n)
          → All (In nodes) (found_ids get ids)
          → All (In nodes) (elim r [ some c ↦ c ∷ found_ids get ids | none ↦ found_ids get ids ])
      at_node none k rest = rest
      at_node (some c) k rest = (k c refl, rest)

  pub each-In :
      (f : UiNode → List UiNode) (ns : List UiNode)
      → ((n : UiNode) → All (In nodes) (f n))
      → All (In nodes) ns
      → All (In nodes) (each f ns)
  unfolding each
  each-In f [] h k = tt
  each-In f (n ∷ ns) h k =
      All-append (In nodes) (n ∷ f n) (each f ns) (k.0, h n) (each-In f ns h (k.1))
