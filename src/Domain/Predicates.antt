-- ===== src/Domain/Predicates.antt =====
-- src/cua/domain/predicates.py: the assertions of a capability. `evaluate` is a function of the
-- snapshot and the inputs. A literal value stands for its `str()`, the one form in which the program
-- uses it; a run's inputs are texts, as `validate_inputs` leaves them. `min_count` is not negative
-- here: a negative one asks for nothing, as 0 does.
pub mod Matching
pub mod Meaning
use computer_use_automation.Base.{
  ℕ, String, Bool, true, false, ◌&&◌, ◌||◌, not, Option, none, some, List, [], ◌∷◌, ◌++◌, ◌==◌, leb,
  nat_eq, if◌then◌else◌, keep, any, length, is_empty, get_or, lookup,
}
use computer_use_automation.Domain.Snapshot.{NodeScope, UiNode, UiSnapshot, same_text}
use computer_use_automation.Domain.Text.{TextHost, codes, normalize, squash, same_codes, occurs_in}

-- src/cua/domain/values.py
pub data ValueExpr : Type 0 where
  literal : String → ValueExpr
  input_ref : String → ValueExpr
  secret_ref : String → ValueExpr
  output_ref : String → ValueExpr

abbrev pub Inputs : Type 0
Inputs = List (String × String)

pub record NodeQuery : Type 0 where
  pub role : Option String
  pub name : Option String
  pub name_contains : Option String
  pub name_matches : Option String
  pub scope : Option NodeScope

mutual
  pub data Predicate : Type 0 where
    node_exists : NodeQuery → ℕ → Predicate
    node_absent : NodeQuery → Predicate
    node_has_value : NodeQuery → ValueExpr → Predicate
    text_present : String → Predicate
    text_absent : String → Predicate
    url_matches : String → Predicate
    http_status_in : List ℕ → Predicate
    all_of : Predicates → Predicate
    any_of : Predicates → Predicate
    negation : Predicate → Predicate

  pub data Predicates : Type 0 where
    nil : Predicates
    cons : Predicate → Predicates → Predicates

-- `self.x is not None and node.x != self.x`, negated.
abbrev pub field_fits : Option String → Option String → Bool
field_fits none actual = true
field_fits (some wanted) actual = same_text actual (some wanted)

abbrev pub scope_fits : Option NodeScope → NodeScope → Bool
scope_fits none actual = true
scope_fits (some wanted) actual =
    field_fits wanted.frame actual.frame && field_fits wanted.region actual.region

module _ (host : TextHost) where
  open host use {search}

  name_equals : Option String → List ℕ → Bool
  name_equals none actual = true
  name_equals (some wanted) actual =
      same_codes (normalize host actual) (normalize host (codes wanted))

  name_holds : Option String → List ℕ → Bool
  name_holds none actual = true
  name_holds (some part) actual = occurs_in (normalize host (codes part)) (normalize host actual)

  name_searched : Option String → List ℕ → Bool
  name_searched none actual = true
  name_searched (some pattern') actual = search pattern' (squash actual)

  -- The name is read as `node.name or ""`.
  unfoldable pub matches : NodeQuery → UiNode → Bool
  unfolding name_equals name_holds name_searched
  matches q node =
      let node_name = codes (get_or node.name "") in
      if not (field_fits q.role (some node.role))
      then false
      else if not (scope_fits q.scope node.scope)
      then false
      else if not (name_equals q.name node_name)
      then false
      else if not (name_holds q.name_contains node_name)
      then false
      else name_searched q.name_matches node_name

  unfoldable pub select : NodeQuery → UiSnapshot → List UiNode
  select q snapshot = keep (matches q) snapshot.nodes

-- `"\n".join(n.name for n in self.nodes if n.name)` of src/cua/domain/snapshot.py
joined : Bool → List UiNode → List ℕ
joined first [] = []
joined first (n ∷ ns) = elim (codes (get_or n.name "")) [
  | [] ↦ joined first ns
  | c ∷ cs ↦ (if first then [] else 10 ∷ []) ++ (c ∷ cs) ++ joined false ns
]

unfoldable pub text_content : UiSnapshot → List ℕ
unfolding joined
text_content s = joined true s.nodes

abbrev status_among : Option ℕ → List ℕ → Bool
status_among none allowed = false
status_among (some status) allowed = any (λ c. nat_eq status c) allowed

value_among : Option String → List UiNode → Bool
value_among none nodes = false
value_among (some expected) nodes =
    any (λ n. same_codes (squash (codes (get_or n.value ""))) (squash (codes expected))) nodes

module _ (host : TextHost) where
  open host use {search, secret_text}

  -- `_resolve`: a secret is not resolved, and stays the reference that it is.
  unfoldable pub resolve : ValueExpr → Inputs → Option String
  resolve (literal v) inputs = some v
  resolve (input_ref k) inputs = lookup k inputs
  resolve (output_ref k) inputs = lookup k inputs
  resolve (secret_ref k) inputs = some (secret_text k)

  -- What is on the screen, for the predicates with no part.
  unfoldable pub text_shown : String → UiSnapshot → Bool
  text_shown text s = occurs_in (normalize host (codes text)) (normalize host (text_content s))

  unfoldable mutual
    unfolding value_among text_shown resolve

    pub evaluate : Predicate → UiSnapshot → Inputs → Bool
    evaluate (node_exists q min_count) s inputs = leb min_count (length (select host q s))
    evaluate (node_absent q) s inputs = is_empty (select host q s)
    evaluate (node_has_value q v) s inputs = value_among (resolve v inputs) (select host q s)
    evaluate (text_present text) s inputs = text_shown text s
    evaluate (text_absent text) s inputs = not (text_shown text s)
    evaluate (url_matches pattern') s inputs = search pattern' (codes s.url)
    evaluate (http_status_in allowed) s inputs = status_among s.http_status allowed
    evaluate (all_of ps) s inputs = evaluate_all ps s inputs
    evaluate (any_of ps) s inputs = evaluate_any ps s inputs
    evaluate (negation p) s inputs = not (evaluate p s inputs)

    pub evaluate_all : Predicates → UiSnapshot → Inputs → Bool
    evaluate_all nil s inputs = true
    evaluate_all (cons p ps) s inputs = evaluate p s inputs && evaluate_all ps s inputs

    pub evaluate_any : Predicates → UiSnapshot → Inputs → Bool
    evaluate_any nil s inputs = false
    evaluate_any (cons p ps) s inputs = evaluate p s inputs || evaluate_any ps s inputs
