-- ===== src/Replay/Inputs/Contract.antt =====
-- src/cua/replay/inputs.py: exactly the arguments that meet the declared contract are accepted.
use computer_use_automation.Base.{
  String, ◌≡◌, ◌↔◌, refl, true, false, Option, none, some, List, [], ◌∷◌, All, is_some, lookup,
  Result, ok, err, arith, Bool-cases, inl, inr, ◌⊎◌, sym, Any, or_iff, eq_iff, ◌==◌, mem,
}
use mathlib.Core.Path.{subst}
use computer_use_automation.Domain.Predicates.{
  ValueExpr, literal, input_ref, secret_ref, output_ref, Inputs,
}
use computer_use_automation.Domain.Capability.{
  is_set, ValueType, string, integer, number, boolean, money, date, enumeration, InputSpec,
}
use computer_use_automation.Replay.Inputs.Specified.{Declares, declared_of-Declares}
use computer_use_automation.Replay.Inputs.{
  InputHost, InputError, shape_of, Supplied, Declared, declared_of, all_known, default_text,
  or_default, given, chosen, fits_shape, fits_pattern, fits_enum, misfit, with_value, one_input,
  resolve_all, validate_inputs,
}

-- Every argument is for a declared input.
pub Known : Declared → Supplied → Type 0
Known declared supplied = All (λ arg. is_some (lookup (arg.0) declared) ≡ true) supplied

all_known-Known :
    (declared : Declared) (supplied : Supplied)
    → (all_known declared supplied ≡ true) ↔ Known declared supplied
unfolding all_known Known
all_known-Known declared [] = ((λ _. tt), λ _. refl)
all_known-Known declared ((name, value) ∷ rest) =
    let (to, from) = all_known-Known declared rest in
    ((λ h. (ground arith, to (ground arith))), λ k. rw (k.0, from k.1) refl)

abbrev IsReference : ValueExpr → Type 0
IsReference (literal text) = ⊥
IsReference _ = Unit

-- The text has the shape of the type, where the type has one.
pub HasShape : InputHost → ValueType → String → Type 0
HasShape host integer text = host.fullmatch "[+-]?[0-9]+" text ≡ true
HasShape host number text =
    host.fullmatch "[+-]?([0-9]+(\\.[0-9]*)?|\\.[0-9]+)([eE][+-]?[0-9]+)?" text ≡ true
HasShape host boolean text = host.fullmatch "(?i:true|false)" text ≡ true
HasShape host _ text = Unit

module _ (host : InputHost) (supplied : Supplied) where
  abbrev NotGiven : String → Type 0
  NotGiven name = (lookup name supplied ≡ none) ⊎ (lookup name supplied ≡ some none)

  -- The value that an input gets: the caller's; or where there is none, the default, a literal's text or
  -- how a reference shows; or none.
  pub data Given (name : String) (spec : InputSpec) : Option String → Type 0 where
    by_caller :
        (text : String) → lookup name supplied ≡ some (some text) → Given name spec (some text)
    by_literal :
        (text : String)
        → NotGiven name
        → spec.default ≡ some (literal text)
        → Given name spec (some text)
    by_reference :
        (v : ValueExpr)
        → NotGiven name
        → spec.default ≡ some v
        → IsReference v
        → Given name spec (some (host.show_reference v))
    by_none : NotGiven name → spec.default ≡ none → Given name spec none

  chosen-Given :
      (name : String) (spec : InputSpec) → Given name spec (chosen host supplied name spec)
  unfolding chosen
  chosen-Given name spec = at_given (lookup name supplied) refl
    where
      at_default :
          (d : Option ValueExpr)
          → spec.default ≡ d
          → NotGiven name
          → Given name spec (default_text host d)
      at_default none e k = by_none k e
      at_default (some (literal text)) e k = by_literal text k e
      at_default (some (input_ref r)) e k = by_reference (input_ref r) k e tt
      at_default (some (secret_ref r)) e k = by_reference (secret_ref r) k e tt
      at_default (some (output_ref r)) e k = by_reference (output_ref r) k e tt

      at_given :
          (g : Option (Option String))
          → lookup name supplied ≡ g
          → Given name spec (or_default host (given g) spec.default)
      at_given none e = at_default spec.default refl (inl e)
      at_given (some none) e = at_default spec.default refl (inr e)
      at_given (some (some text)) e = by_caller text e

  Given-chosen :
      (name : String) (spec : InputSpec) (o : Option String)
      → Given name spec o
      → chosen host supplied name spec ≡ o
  unfolding chosen
  Given-chosen name spec _ (by_caller text e) = rw e refl
  Given-chosen name spec _ (by_literal text (inl e) d) = rw (e, d) refl
  Given-chosen name spec _ (by_literal text (inr e) d) = rw (e, d) refl
  Given-chosen name spec _ (by_reference (input_ref r) (inl e) d k) = rw (e, d) refl
  Given-chosen name spec _ (by_reference (input_ref r) (inr e) d k) = rw (e, d) refl
  Given-chosen name spec _ (by_reference (secret_ref r) (inl e) d k) = rw (e, d) refl
  Given-chosen name spec _ (by_reference (secret_ref r) (inr e) d k) = rw (e, d) refl
  Given-chosen name spec _ (by_reference (output_ref r) (inl e) d k) = rw (e, d) refl
  Given-chosen name spec _ (by_reference (output_ref r) (inr e) d k) = rw (e, d) refl
  Given-chosen name spec _ (by_reference (literal t) k d wrong) = absurd wrong
  Given-chosen name spec _ (by_none (inl e) d) = rw (e, d) refl
  Given-chosen name spec _ (by_none (inr e) d) = rw (e, d) refl

  abbrev Patterned : Option String → String → Type 0
  Patterned pattern' text =
      (p : String) → pattern' ≡ some p → is_set p ≡ true → host.fullmatch p text ≡ true

  abbrev Enumerated : Option (List String) → String → Type 0
  Enumerated enum text =
      (x : String) (xs : List String) → enum ≡ some (x ∷ xs) → Any (λ a. a ≡ text) (x ∷ xs)

  -- A value of the declared type and of the pattern, if there is one that is not empty, and among the
  -- enumerated ones, if there are any.
  pub record Fits (spec : InputSpec) (text : String) : Type 0 where
    pub typed : HasShape host spec.value_type text
    pub patterned : Patterned spec.pattern' text
    pub enumerated : Enumerated spec.enum text

  shape_iff :
      (t : ValueType) (text : String)
      → (fits_shape host (shape_of t) text ≡ true) ↔ HasShape host t text
  unfolding HasShape
  shape_iff string text = ((λ h. tt), λ k. refl)
  shape_iff integer text = ((λ h. h), λ k. k)
  shape_iff number text = ((λ h. h), λ k. k)
  shape_iff boolean text = ((λ h. h), λ k. k)
  shape_iff money text = ((λ h. tt), λ k. refl)
  shape_iff date text = ((λ h. tt), λ k. refl)
  shape_iff enumeration text = ((λ h. tt), λ k. refl)

  pattern_iff :
      (p : Option String) (text : String) → (fits_pattern host p text ≡ true) ↔ Patterned p text
  pattern_iff none text = ((λ h q e set. absurd (ground arith)), λ k. refl)
  pattern_iff (some p) text = (
    λ h q e set.
        let same : p ≡ q = ground arith in
        let p_set : is_set p ≡ true = rw same set in
        let fits : host.fullmatch p text ≡ true = ground arith in rw (sym same) fits,
    λ k. elim (Bool-cases (is_set p)) [ inl e ↦ rw e (k p refl e) | inr e ↦ rw e refl ],
  )

  listed_iff : (text : String) (xs : List String) → (mem text xs ≡ true) ↔ Any (λ a. a ≡ text) xs
  listed_iff text [] = ((λ h. absurd (ground arith)), λ k. absurd k)
  listed_iff text (x ∷ xs) = or_iff (x == text) (mem text xs) (eq_iff x text) (listed_iff text xs)

  enum_iff :
      (allowed : Option (List String)) (text : String)
      → (fits_enum host allowed text ≡ true) ↔ Enumerated allowed text
  enum_iff none text = ((λ h x xs e. absurd (ground arith)), λ k. refl)
  enum_iff (some []) text = ((λ h x xs e. absurd (ground arith)), λ k. refl)
  enum_iff (some (y ∷ ys)) text = (
    λ h x xs e.
        let same : y ∷ ys ≡ x ∷ xs = ground arith in
        subst (Any (λ a. a ≡ text)) same ((listed_iff text (y ∷ ys)).0 h),
    λ k. (listed_iff text (y ∷ ys)).1 (k y ys refl),
  )

  -- What the declared inputs are bound to, in their order: the chosen value, which fits; or nothing,
  -- where there is no value and none is required.
  pub data Bound : Declared → Inputs → Type 0 where
    no_more : Bound [] []
    bound :
        {name : String} {spec : InputSpec} {text : String} {declared : Declared} {out : Inputs}
        → Given name spec (some text)
        → Fits spec text
        → Bound declared out
        → Bound ((name, spec) ∷ declared) ((name, text) ∷ out)
    left_out :
        {name : String} {spec : InputSpec} {declared : Declared} {out : Inputs}
        → Given name spec none
        → spec.required ≡ false
        → Bound declared out
        → Bound ((name, spec) ∷ declared) out

  misfit-Fits :
      (name : String) (spec : InputSpec) (text : String)
      → misfit host name spec text ≡ none
      → Fits spec text
  unfolding misfit
  misfit-Fits name spec text h = record {
    typed = (shape_iff spec.value_type text).0 (ground arith);
    patterned = (pattern_iff spec.pattern' text).0 (ground arith);
    enumerated = (enum_iff spec.enum text).0 (ground arith);
  }

  Fits-misfit :
      (name : String) (spec : InputSpec) (text : String)
      → Fits spec text
      → misfit host name spec text ≡ none
  unfolding misfit
  Fits-misfit name spec text f =
      let typed = (shape_iff spec.value_type text).1 f.typed in
      let patterned = (pattern_iff spec.pattern' text).1 f.patterned in
      let enumerated = (enum_iff spec.enum text).1 f.enumerated in
      rw (typed, patterned, enumerated) refl

  resolve_all-Bound :
      (declared : Declared) (out : Inputs)
      → resolve_all host declared supplied ≡ ok out
      → Bound declared out
  unfolding validate_inputs
  resolve_all-Bound [] out h = let e : out ≡ [] = ground arith in rw e no_more
  resolve_all-Bound ((name, spec) ∷ rest) out h =
      at_choice (chosen host supplied name spec) refl (resolve_all host rest supplied)
        (λ more e. resolve_all-Bound rest more e) h
    where
      at_check :
          (text : String)
          → chosen host supplied name spec ≡ some text
          → (m : Option InputError) → misfit host name spec text ≡ m
          → (r : Result InputError Inputs) → ((more : Inputs) → r ≡ ok more → Bound rest more)
          → with_value host name text m r ≡ ok out
          → Bound ((name, spec) ∷ rest) out
      at_check text e (some why) q r ih k = absurd (ground arith)
      at_check text e none q (err why) ih k = absurd (ground arith)
      at_check text e none q (ok more) ih k =
          let o : out ≡ (name, text) ∷ more = ground arith in
          rw o (
            bound (subst (Given name spec) e (chosen-Given name spec))
              (misfit-Fits name spec text q) (ih more refl))

      at_choice :
          (v : Option String)
          → chosen host supplied name spec ≡ v
          → (r : Result InputError Inputs) → ((more : Inputs) → r ≡ ok more → Bound rest more)
          → one_input host name spec v r ≡ ok out
          → Bound ((name, spec) ∷ rest) out
      at_choice (some text) e r ih k = at_check text e (misfit host name spec text) refl r ih k
      at_choice none e r ih k = elim (Bool-cases spec.required) [
        | inl q ↦ absurd (ground arith)
        | inr q ↦
            left_out (subst (Given name spec) e (chosen-Given name spec)) q (ih out (rw q at k))
      ]

  Bound-resolve_all :
      (declared : Declared) (out : Inputs)
      → Bound declared out
      → resolve_all host declared supplied ≡ ok out
  unfolding validate_inputs
  Bound-resolve_all _ _ no_more = refl
  Bound-resolve_all ((name, spec) ∷ declared) _ (bound {text = text} {out = out} c f b) =
      rw (Given-chosen name spec (some text) c)
        (rw (Fits-misfit name spec text f) (rw (Bound-resolve_all declared out b) refl))
  Bound-resolve_all ((name, spec) ∷ declared) out (left_out c r b) =
      rw (Given-chosen name spec none c, r) (Bound-resolve_all declared out b)

  -- The arguments are accepted, with the given bindings, exactly when each argument is for a declared
  -- input and the bindings are what the declared inputs are bound to, in their order: the caller's value
  -- or else the default, of the shape of the declared type, of the pattern if one is set, and among the
  -- enumerated values if there are any; or nothing, where there is neither and the input is not
  -- required. The declared inputs are the names in the order in which they are first specified, each
  -- once, with the last specification of the name.
  pub validate_inputs-Bound :
      (specs : List InputSpec) (out : Inputs)
      → Declares specs (declared_of specs)
        × ((validate_inputs host specs supplied ≡ ok out)
            ↔ (Known (declared_of specs) supplied × Bound (declared_of specs) out))
  unfolding validate_inputs
  validate_inputs-Bound specs out =
      let (to, from) = all_known-Known (declared_of specs) supplied in
      (
        declared_of-Declares specs,
        (
          (λ h. (to (ground arith), resolve_all-Bound (declared_of specs) out (ground arith))),
          λ k. rw (from k.0) (Bound-resolve_all (declared_of specs) out k.1),
        ),
      )
