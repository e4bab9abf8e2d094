-- ===== src/Domain/Snapshot/Tree/Enough.antt =====
-- src/cua/domain/snapshot.py: the rounds of the walks in a snapshot's tree are enough.
use computer_use_automation.Base.{
  ℕ, zero, suc, ◌≤◌, ◌<◌, ◌≡◌, inl, inr, refl, ap, ◌∙◌, arith, String, Bool, Bool-cases, true,
  false, not, Option, none, some, ◌==◌, any, keep, length, Any, eq_refl, All, List, [], ◌∷◌,
}
use computer_use_automation.Domain.Snapshot.{UiNode, UiSnapshot}
use computer_use_automation.Domain.Snapshot.Tree.{each, parent, upward, children, downward}

each-same :
    (f g : UiNode → List UiNode) (ns : List UiNode)
    → All (λ c. f c ≡ g c) ns
    → each f ns ≡ each g ns
unfolding each
each-same f g [] h = refl
each-same f g (n ∷ ns) h = rw (h.0, each-same f g ns (h.1)) refl

module _ (s : UiSnapshot) (rank : UiNode → ℕ)
    (falls : (n : UiNode) → All (λ c. rank c < rank n) (children s n)) where
  lower_same :
      (depth : ℕ) (n : UiNode) (cs : List UiNode)
      → ((c : UiNode) → rank c ≤ depth → downward s (suc depth) c ≡ downward s depth c)
      → rank n ≤ suc depth
      → All (λ c. rank c < rank n) cs
      → All (λ c. downward s (suc depth) c ≡ downward s depth c) cs
  lower_same depth n [] same h k = tt
  lower_same depth n (c ∷ cs) same h k =
      (same c (omega (arith, h, k.0)), lower_same depth n cs same h (k.1))

  no_children :
      (n : UiNode) (cs : List UiNode) → rank n ≤ 0 → All (λ c. rank c < rank n) cs → cs ≡ []
  no_children n [] h k = refl
  no_children n (c ∷ cs) h k = absurd (omega (arith, h, k.0))

  -- Where a node's children are of lower rank, a depth of at least its rank reaches all that is below it:
  -- a greater one finds the same.
  pub downward_enough :
      (depth : ℕ) (n : UiNode) → rank n ≤ depth → downward s (suc depth) n ≡ downward s depth n
  unfolding downward each
  downward_enough zero n h = ap (each (downward s 0)) (no_children n (children s n) h (falls n))
  downward_enough (suc depth) n h =
      each-same (downward s (suc depth)) (downward s depth) (children s n)
        (lower_same depth n (children s n) (downward_enough depth) h (falls n))

-- Fewer are kept by a stricter test that refuses one that the other keeps.
keep-fewer :
    (p q : UiNode → Bool) (ns : List UiNode)
    → ((n : UiNode) → q n ≡ true → p n ≡ true)
    → length (keep q ns) ≤ length (keep p ns)
keep-fewer p q [] h = omega arith
keep-fewer p q (n ∷ ns) h = elim (Bool-cases (q n)) [
  | inl e ↦ let k : p n ≡ true = h n e in rw (e, k) (omega (arith, keep-fewer p q ns h))
  | inr e ↦ elim (Bool-cases (p n)) [
    | inl k ↦ rw (e, k) (omega (arith, keep-fewer p q ns h))
    | inr k ↦ rw (e, k) (keep-fewer p q ns h)
  ]
]

keep-fewer_by :
    (p q : UiNode → Bool) (ns : List UiNode) (m : UiNode)
    → ((n : UiNode) → q n ≡ true → p n ≡ true)
    → p m ≡ true
    → q m ≡ false
    → Any (λ n. n ≡ m) ns
    → length (keep q ns) < length (keep p ns)
keep-fewer_by p q [] m h a b i = absurd i
keep-fewer_by p q (n ∷ ns) m h a b (inl e) =
    let pn : p n ≡ true = ap p e ∙ a in
    let qn : q n ≡ false = ap q e ∙ b in rw (pn, qn) (omega (arith, keep-fewer p q ns h))
keep-fewer_by p q (n ∷ ns) m h a b (inr i) = elim (Bool-cases (q n)) [
  | inl e ↦ let k : p n ≡ true = h n e in rw (e, k) (omega (arith, keep-fewer_by p q ns m h a b i))
  | inr e ↦ elim (Bool-cases (p n)) [
    | inl k ↦ rw (e, k) (omega (arith, keep-fewer_by p q ns m h a b i))
    | inr k ↦ rw (e, k) (keep-fewer_by p q ns m h a b i)
  ]
]

module _ (s : UiSnapshot) where
  abbrev is_new : List String → UiNode → Bool
  is_new seen n = not (any (λ id. id == n.node_id) seen)

  -- How many nodes the way up has not come by.
  abbrev pub left_of : List String → ℕ
  left_of seen = length (keep (is_new seen) s.nodes)

  fewer_left :
      (seen : List String) (n : UiNode)
      → is_new seen n ≡ true
      → Any (λ m. m ≡ n) s.nodes
      → left_of (n.node_id ∷ seen) < left_of seen
  fewer_left seen n h i =
      keep-fewer_by (is_new seen) (is_new (n.node_id ∷ seen)) s.nodes n (λ m e. ground (arith, e)) h
        (rw (eq_refl n.node_id) refl) i

  -- Where what `parent` gives stands in the snapshot, as many rounds as there are nodes left to come by
  -- are enough: one more finds the same.
  pub upward_enough :
      ((n m : UiNode) → parent s n ≡ some m → Any (λ k. k ≡ m) s.nodes)
      → (rounds : ℕ) (o : Option UiNode) (seen : List String)
      → ((m : UiNode) → o ≡ some m → Any (λ k. k ≡ m) s.nodes)
      → left_of seen ≤ rounds
      → upward s (suc rounds) o seen ≡ upward s rounds o seen
  unfolding upward
  upward_enough stands rounds none seen i h = refl
  upward_enough stands zero (some n) seen i h =
      elim (Bool-cases (any (λ id. id == n.node_id) seen)) [
        | inl e ↦ rw e refl
        | inr e ↦ absurd (omega (arith, h, fewer_left seen n (rw e refl) (i n refl)))
      ]
  upward_enough stands (suc rounds) (some n) seen i h =
      elim (Bool-cases (any (λ id. id == n.node_id) seen)) [
        | inl e ↦ rw e refl
        | inr e ↦
            rw
              (
                e,
                upward_enough stands rounds (parent s n) (n.node_id ∷ seen) (stands n)
                    (omega (arith, h, fewer_left seen n (rw e refl) (i n refl))),
              )
              refl
      ]
