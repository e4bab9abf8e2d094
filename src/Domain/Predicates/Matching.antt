-- ===== src/Domain/Predicates/Matching.antt =====
-- src/cua/domain/predicates.py: what a query asks of a node, and how many nodes match.
use computer_use_automation.Base.{
  ℕ, suc, ◌≤◌, String, ◌≡◌, ◌↔◌, refl, ap, Bool, true, Option, none, some, List, [], ◌∷◌, eq_iff,
  arith, length, keep, Bool-cases, inl, inr, get_or, and_iff,
}
use computer_use_automation.Domain.Snapshot.{NodeScope, UiNode}
use computer_use_automation.Domain.Text.{TextHost, codes, normalize, squash, same_codes, occurs_in}
use computer_use_automation.Domain.Predicates.{
  NodeQuery, field_fits, scope_fits, name_equals, name_holds, name_searched, matches,
}

-- What is asked, if anything, is so.
abbrev pub Asks : {A : Type 0} → Option A → (A → Type 0) → Type 0
Asks none P = Unit
Asks (some wanted) P = P wanted

module _ (host : TextHost) where
  -- The node has the role, the frame and the region that are asked for, and its name, or the empty text,
  -- is as asked: the same when both are normalized, with a part in it when both are, or found by the
  -- pattern when it is squashed.
  pub record IsMatch (q : NodeQuery) (n : UiNode) : Type 0 where
    pub role : Asks q.role (λ wanted. n.role ≡ wanted)
    pub scope : Asks q.scope (λ wanted.
        Asks wanted.frame (λ frame. n.scope.frame ≡ some frame)
        × Asks wanted.region (λ region. n.scope.region ≡ some region))
    pub name : Asks q.name (λ wanted.
        same_codes (normalize host (codes (get_or n.name ""))) (normalize host (codes wanted))
        ≡ true)
    pub holds : Asks q.name_contains (λ part.
        occurs_in (normalize host (codes part)) (normalize host (codes (get_or n.name ""))) ≡ true)
    pub searched :
        Asks q.name_matches (λ p. host.search p (squash (codes (get_or n.name ""))) ≡ true)

  field_iff :
      (wanted actual : Option String)
      → (field_fits wanted actual ≡ true) ↔ Asks wanted (λ w. actual ≡ some w)
  field_iff none actual = ((λ _. tt), λ _. refl)
  field_iff (some w) none = ((λ h. absurd (ground arith)), λ h. absurd (ground arith))
  field_iff (some w) (some a) =
      ((λ h. ap some ((eq_iff a w).0 h)), λ h. (eq_iff a w).1 (ground arith))

  role_iff :
      (wanted : Option String) (actual : String)
      → (field_fits wanted (some actual) ≡ true) ↔ Asks wanted (λ w. actual ≡ w)
  role_iff none actual = ((λ _. tt), λ _. refl)
  role_iff (some w) actual = eq_iff actual w

  scope_iff :
      (wanted : Option NodeScope) (actual : NodeScope)
      → (scope_fits wanted actual ≡ true)
        ↔ Asks wanted (λ w.
          Asks w.frame (λ frame. actual.frame ≡ some frame)
          × Asks w.region (λ region. actual.region ≡ some region))
  scope_iff none actual = ((λ _. tt), λ _. refl)
  scope_iff (some w) actual =
      and_iff (field_fits w.frame actual.frame) (field_fits w.region actual.region)
        (field_iff w.frame actual.frame) (field_iff w.region actual.region)

  name_iff :
      (wanted : Option String) (actual : List ℕ)
      → (name_equals host wanted actual ≡ true)
        ↔ Asks wanted (λ w. same_codes (normalize host actual) (normalize host (codes w)) ≡ true)
  unfolding matches
  name_iff none actual = ((λ _. tt), λ _. refl)
  name_iff (some w) actual = ((λ h. h), λ h. h)

  holds_iff :
      (wanted : Option String) (actual : List ℕ)
      → (name_holds host wanted actual ≡ true)
        ↔ Asks wanted (λ w. occurs_in (normalize host (codes w)) (normalize host actual) ≡ true)
  unfolding matches
  holds_iff none actual = ((λ _. tt), λ _. refl)
  holds_iff (some w) actual = ((λ h. h), λ h. h)

  searched_iff :
      (wanted : Option String) (actual : List ℕ)
      → (name_searched host wanted actual ≡ true)
        ↔ Asks wanted (λ p. host.search p (squash actual) ≡ true)
  unfolding matches
  searched_iff none actual = ((λ _. tt), λ _. refl)
  searched_iff (some p) actual = ((λ h. h), λ h. h)

  pub matches-iff-IsMatch : (q : NodeQuery) (n : UiNode) → (matches host q n ≡ true) ↔ IsMatch q n
  unfolding matches
  matches-iff-IsMatch q n =
      let at = codes (get_or n.name "") in
      (
        (λ h. record {
          role = (role_iff q.role n.role).0 (ground arith);
          scope = (scope_iff q.scope n.scope).0 (ground arith);
          name = (name_iff q.name at).0 (ground arith);
          holds = (holds_iff q.name_contains at).0 (ground arith);
          searched = (searched_iff q.name_matches at).0 (ground arith);
        }),
        λ m.
            rw
              (
                (role_iff q.role n.role).1 m.role,
                (scope_iff q.scope n.scope).1 m.scope,
                (name_iff q.name at).1 m.name,
                (holds_iff q.name_contains at).1 m.holds,
              )
              ((searched_iff q.name_matches at).1 m.searched),
      )

-- So many of the nodes are such.
pub data Counts {A : Type 0} (P : A → Type 0) : List A → ℕ → Type 0 where
  none_left : Counts P [] 0
  hit : {n : A} {ns : List A} {k : ℕ} → P n → Counts P ns k → Counts P (n ∷ ns) (suc k)
  miss : {n : A} {ns : List A} {k : ℕ} → ¬ (P n) → Counts P ns k → Counts P (n ∷ ns) k

module _ {A : Type 0} (p : A → Bool) (P : A → Type 0) (means : (n : A) → (p n ≡ true) ↔ P n) where
  keep-Counts : (ns : List A) → Counts P ns (length (keep p ns))
  keep-Counts [] = none_left
  keep-Counts (n ∷ ns) = elim (Bool-cases (p n)) [
    | inl e ↦ rw e (hit ((means n).0 e) (keep-Counts ns))
    | inr e ↦ rw e (miss (λ k. let t = (means n).1 k in absurd (ground arith)) (keep-Counts ns))
  ]

  Counts-keep : {ns : List A} {k : ℕ} → Counts P ns k → length (keep p ns) ≡ k
  Counts-keep none_left = refl
  Counts-keep (hit {n} there c) = rw ((means n).1 there) (ap suc (Counts-keep c))
  Counts-keep (miss {n} away c) = elim (Bool-cases (p n)) [
    | inl e ↦ absurd (away ((means n).0 e))
    | inr e ↦ rw e (Counts-keep c)
  ]

  pub count_iff :
      (m : ℕ) (ns : List A) → (m ≤ length (keep p ns)) ↔ ((k : ℕ) × Counts P ns k × (m ≤ k))
  count_iff m ns =
      ((λ h. (length (keep p ns), keep-Counts ns, h)), λ (k, c, h). rw (Counts-keep c) h)
