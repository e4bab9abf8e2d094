-- ===== src/Replay/Inputs/Specified.antt =====
-- src/cua/replay/inputs.py: the declared inputs by their names.
use computer_use_automation.Base.{
  String, ◌≡◌, refl, Option, none, some, List, [], ◌∷◌, ◌++◌, map, lookup, Bool-cases, inl, inr,
  sym, ◌∙◌, ap, ◌==◌, mem, insert, lookup-insert, or_else, if◌then◌else◌,
}
use mathlib.Core.List.{append-nil, append_assoc}
use computer_use_automation.Domain.Capability.{InputSpec}
use computer_use_automation.Replay.Inputs.{Declared, declare, declared_of}

-- The last of the specifications with a name: a later one replaces an earlier.
pub last_named : String → List InputSpec → Option InputSpec
last_named name [] = none
last_named name (spec ∷ specs) =
    let later = last_named name specs in
    elim later [ some found ↦ some found | none ↦ if spec.name == name then some spec else none ]

-- The names of the specifications that are not among those seen, each where it comes first.
pub first_names : List String → List InputSpec → List String
first_names seen [] = []
first_names seen (spec ∷ specs) =
    let again = first_names seen specs in
    let later = first_names (seen ++ spec.name ∷ []) specs in
    if mem spec.name seen then again else spec.name ∷ later

abbrev pub names_of : Declared → List String
names_of declared = map (λ e. e.0) declared

-- The names stand in the order in which they are first specified, each once, and under each there
-- stands the last specification of that name.
pub record Declares (specs : List InputSpec) (declared : Declared) : Type 0 where
  pub ordered : names_of declared ≡ first_names [] specs
  pub latest : (name : String) → lookup name declared ≡ last_named name specs

names_of-insert :
    (name : String) (spec : InputSpec) (known : Declared)
    → names_of (insert name spec known)
      ≡ (if mem name (names_of known) then names_of known else names_of known ++ name ∷ [])
unfolding insert
names_of-insert name spec [] = refl
names_of-insert name spec ((at, old) ∷ known) =
    let later = names_of-insert name spec known in
    elim (Bool-cases (at == name)) [
      | inl e ↦ rw e refl
      | inr e ↦ elim (Bool-cases (mem name (names_of known))) [
        | inl f ↦ rw (e, f) (ap (λ ns. at ∷ ns) (later ∙ rw f refl))
        | inr f ↦ rw (e, f) (ap (λ ns. at ∷ ns) (later ∙ rw f refl))
      ]
    ]

names_of-declare :
    (specs : List InputSpec) (known : Declared)
    → names_of (declare known specs) ≡ names_of known ++ first_names (names_of known) specs
unfolding declared_of first_names
names_of-declare [] known = sym (append-nil (names_of known))
names_of-declare (spec ∷ specs) known =
    let step = names_of-insert spec.name spec known in
    let rest = names_of-declare specs (insert spec.name spec known) in
    elim (Bool-cases (mem spec.name (names_of known))) [
      | inl e ↦ rw (rest, step, e) refl
      | inr e ↦ rw (rest, step, e) (append_assoc (names_of known) (spec.name ∷ []) _)
    ]

lookup-declare :
    (specs : List InputSpec) (known : Declared) (name : String)
    → lookup name (declare known specs) ≡ or_else (last_named name specs) (lookup name known)
unfolding declared_of last_named
lookup-declare [] known name = refl
lookup-declare (spec ∷ specs) known name =
    lookup-declare specs (insert spec.name spec known) name
    ∙ rw (lookup-insert spec.name name spec known) (at_later (last_named name specs))
  where
    at_later :
        (later : Option InputSpec)
        → or_else later (if spec.name == name then some spec else lookup name known)
          ≡ or_else
              (elim later [
                | some found ↦ some found
                | none ↦ if spec.name == name then some spec else none
              ])
              (lookup name known)
    at_later none = elim (Bool-cases (spec.name == name)) [ inl e ↦ rw e refl | inr e ↦ rw e refl ]
    at_later (some found) = refl

pub declared_of-Declares : (specs : List InputSpec) → Declares specs (declared_of specs)
unfolding declared_of lookup last_named
declared_of-Declares specs = record {
  ordered = names_of-declare specs [];
  latest = λ name. lookup-declare specs [] name ∙ no_default (last_named name specs);
}
  where
    no_default : (o : Option InputSpec) → or_else o none ≡ o
    no_default none = refl
    no_default (some x) = refl
