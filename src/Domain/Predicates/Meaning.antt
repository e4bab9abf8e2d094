-- ===== src/Domain/Predicates/Meaning.antt =====
-- src/cua/domain/predicates.py: what an assertion says, as a statement.
use computer_use_automation.Base.{
  ℕ, ◌≤◌, String, ◌≡◌, ◌↔◌, ◌⊎◌, inl, inr, refl, Bool, true, Option, none, some, List, [], ◌∷◌,
  arith, keep, any, is_empty, All, Any, Bool-cases, get_or, or_iff, and_iff, not_iff, any_iff,
  nat_eq,
}
use computer_use_automation.Domain.Snapshot.{UiNode, UiSnapshot}
use computer_use_automation.Domain.Text.{TextHost, codes, squash, same_codes, occurs_in, normalize}
use computer_use_automation.Domain.Predicates.Matching.{
  IsMatch, matches-iff-IsMatch, Counts, count_iff,
}
use computer_use_automation.Domain.Predicates.{
  Predicate, Predicates, node_exists, node_absent, node_has_value, text_present, text_absent,
  url_matches, http_status_in, all_of, any_of, negation, nil, cons, NodeQuery, Inputs, matches,
  select, evaluate, evaluate_all, evaluate_any, text_shown, text_content, resolve, value_among,
  status_among,
}

module _ (host : TextHost) (s : UiSnapshot) (inputs : Inputs) where
  abbrev shows_value : String → UiNode → Bool
  shows_value expected n = same_codes (squash (codes (get_or n.value ""))) (squash (codes expected))

  abbrev HasValue : NodeQuery → Option String → Type 0
  HasValue q none = ⊥
  HasValue q (some expected) = Any (λ n. IsMatch host q n × (shows_value expected n ≡ true)) s.nodes

  -- The text occurs in the texts of the screen's nodes, both normalized.
  abbrev IsShown : String → Type 0
  IsShown t = occurs_in (normalize host (codes t)) (normalize host (text_content s)) ≡ true

  mutual
    pub Holds : Predicate → Type 0
    Holds (node_exists q n) = (k : ℕ) × Counts (IsMatch host q) s.nodes k × (n ≤ k)
    Holds (node_absent q) = All (λ n. ¬ (IsMatch host q n)) s.nodes
    Holds (node_has_value q v) = HasValue q (resolve host v inputs)
    Holds (text_present t) = IsShown t
    Holds (text_absent t) = ¬ (IsShown t)
    Holds (url_matches p) = host.search p (codes s.url) ≡ true
    Holds (http_status_in allowed) = Any (λ c. s.http_status ≡ some c) allowed
    Holds (all_of ps) = HoldsAll ps
    Holds (any_of ps) = HoldsAny ps
    Holds (negation p) = ¬ (Holds p)

    pub HoldsAll : Predicates → Type 0
    HoldsAll nil = Unit
    HoldsAll (cons p ps) = Holds p × HoldsAll ps

    pub HoldsAny : Predicates → Type 0
    HoldsAny nil = ⊥
    HoldsAny (cons p ps) = Holds p ⊎ HoldsAny ps

  module _ (p : UiNode → Bool) (P : UiNode → Type 0)
      (means : (n : UiNode) → (p n ≡ true) ↔ P n) where
    absent_iff : (nodes : List UiNode) → (is_empty (keep p nodes) ≡ true) ↔ All (λ n. ¬ (P n)) nodes
    absent_iff [] = ((λ _. tt), λ _. refl)
    absent_iff (n ∷ ns) = elim (Bool-cases (p n)) [
      | inl e ↦ rw e ((λ h. cc), λ h. absurd (h.0 ((means n).0 e)))
      | inr e ↦ rw e (
        (λ h. ((λ k. let t = (means n).1 k in cc), (absent_iff ns).0 h)),
        λ h. (absent_iff ns).1 h.1,
      )
    ]

    any-keep_iff :
        (q : UiNode → Bool) (nodes : List UiNode)
        → (any q (keep p nodes) ≡ true) ↔ Any (λ n. P n × (q n ≡ true)) nodes
    any-keep_iff q [] = ((λ h. cc), λ h. absurd h)
    any-keep_iff q (n ∷ ns) = elim (Bool-cases (p n)) [
      | inl e ↦ rw e (
          or_iff (q n) (any q (keep p ns)) ((λ h. ((means n).0 e, h)), λ h. h.1)
            (any-keep_iff q ns))
      | inr e ↦ rw e (
        (λ h. inr ((any-keep_iff q ns).0 h)),
        λ h. elim h [ inl x ↦ let t = (means n).1 x.0 in cc | inr y ↦ (any-keep_iff q ns).1 y ],
      )
    ]

  value_iff :
      (q : NodeQuery) (v : Option String) → (value_among v (select host q s) ≡ true) ↔ HasValue q v
  unfolding value_among select
  value_iff q none = ((λ h. cc), λ h. absurd h)
  value_iff q (some expected) =
      any-keep_iff (matches host q) (IsMatch host q) (matches-iff-IsMatch host q)
        (shows_value expected) s.nodes

  status_iff :
      (status : Option ℕ) (allowed : List ℕ)
      → (status_among status allowed ≡ true) ↔ Any (λ c. status ≡ some c) allowed
  status_iff none [] = ((λ h. cc), λ h. absurd h)
  status_iff none (c ∷ cs) =
      ((λ h. cc), λ h. elim h [ inl x ↦ cc x | inr y ↦ (status_iff none cs).1 y ])
  status_iff (some st) allowed =
      any_iff (nat_eq st) (λ c. some st ≡ some c) (λ c. (ground arith, ground arith)) allowed

  mutual
    unfolding evaluate Holds select text_shown

    decides : (p : Predicate) → (evaluate host p s inputs ≡ true) ↔ Holds p
    decides (node_exists q n) =
        let counted =
          count_iff (matches host q) (IsMatch host q) (matches-iff-IsMatch host q) n s.nodes in
        ((λ h. counted.0 (ground arith)), λ k. let l = counted.1 k in ground arith)
    decides (node_absent q) =
        absent_iff (matches host q) (IsMatch host q) (matches-iff-IsMatch host q) s.nodes
    decides (node_has_value q v) = value_iff q (resolve host v inputs)
    decides (text_present t) = ((λ h. h), λ h. h)
    decides (text_absent t) = not_iff (text_shown host t s) ((λ h. h), λ h. h)
    decides (url_matches p) = ((λ h. h), λ h. h)
    decides (http_status_in allowed) = status_iff s.http_status allowed
    decides (all_of ps) = decides_all ps
    decides (any_of ps) = decides_any ps
    decides (negation p) = not_iff (evaluate host p s inputs) (decides p)

    decides_all : (ps : Predicates) → (evaluate_all host ps s inputs ≡ true) ↔ HoldsAll ps
    decides_all nil = ((λ _. tt), λ _. refl)
    decides_all (cons p ps) =
        and_iff (evaluate host p s inputs) (evaluate_all host ps s inputs) (decides p)
          (decides_all ps)

    decides_any : (ps : Predicates) → (evaluate_any host ps s inputs ≡ true) ↔ HoldsAny ps
    decides_any nil = ((λ h. cc), λ h. absurd h)
    decides_any (cons p ps) =
        or_iff (evaluate host p s inputs) (evaluate_any host ps s inputs) (decides p)
          (decides_any ps)

  -- For every host, snapshot and inputs, the code's evaluation of an assertion is true exactly when
  -- what the assertion says holds: at least so many nodes match, no node matches, some matching node
  -- shows the value (never, if the value is bound to nothing), the normalized text occurs in the
  -- normalized text of the screen, or does not, the pattern is found in the URL, the status is one of
  -- those listed, all parts hold, some part holds, the part does not. A node matches when it has the
  -- role, frame and region that are asked for, and its name is the one asked for, has the part, and has
  -- the pattern, each where it is asked.
  pub evaluate-iff-Holds : (p : Predicate) → (evaluate host p s inputs ≡ true) ↔ Holds p
  evaluate-iff-Holds p = decides p
