-- ===== src/Replay/Inputs.antt =====
-- src/cua/replay/inputs.py: the caller's arguments against the declared inputs. An argument is its `str()`, and none is Python's None;
-- `re.fullmatch` and the `str()` of a default that is a reference are arguments.
pub mod Specified
pub mod Contract
use computer_use_automation.Base.{
  String, Bool, true, false, ◌&&◌, not, Option, none, some, List, [], ◌∷◌, mem, is_empty, is_some,
  lookup, insert, if◌then◌else◌, Result, ok, err,
}
use computer_use_automation.Domain.Capability.{
  is_set, ValueType, string, integer, number, boolean, money, date, enumeration, InputSpec,
}
use computer_use_automation.Domain.Predicates.{ValueExpr, literal, Inputs}

pub record InputHost : Type 0 where
  pub fullmatch : String → String → Bool
  pub show_reference : ValueExpr → String

pub data InputError : Type 0 where
  unknown_inputs : InputError
  missing_required not_of_type no_match not_among : String → InputError

-- `_TYPE_SHAPES.get`
abbrev pub shape_of : ValueType → Option String
shape_of integer = some "[+-]?[0-9]+"
shape_of number = some "[+-]?([0-9]+(\\.[0-9]*)?|\\.[0-9]+)([eE][+-]?[0-9]+)?"
shape_of boolean = some "(?i:true|false)"
shape_of _ = none

-- What the caller passes, by name.
abbrev pub Supplied : Type 0
Supplied = List (String × Option String)

abbrev pub Declared : Type 0
Declared = List (String × InputSpec)

-- `{spec.name: spec for spec in capability.inputs}`
declare : Declared → List InputSpec → Declared
declare known [] = known
declare known (spec ∷ specs) = declare (insert spec.name spec known) specs

unfoldable pub declared_of : List InputSpec → Declared
unfolding declare
declared_of specs = declare [] specs

-- `set(supplied) - set(declared)` is empty.
unfoldable pub all_known : Declared → Supplied → Bool
all_known declared [] = true
all_known declared ((name, value) ∷ rest) =
    is_some (lookup name declared) && all_known declared rest

-- `supplied.get(name)`
abbrev given : Option (Option String) → Option String
given none = none
given (some value) = value

module _ (host : InputHost) where
  -- `str(value)` of a default.
  abbrev default_text : Option ValueExpr → Option String
  default_text none = none
  default_text (some (literal text)) = some text
  default_text (some reference) = some (host.show_reference reference)

  abbrev or_default : Option String → Option ValueExpr → Option String
  or_default (some text) default = some text
  or_default none default = default_text default

  -- The value that an input gets: the caller's, or else the default.
  unfoldable pub chosen : Supplied → String → InputSpec → Option String
  chosen supplied name spec = or_default (given (lookup name supplied)) spec.default

  abbrev pub fits_shape : Option String → String → Bool
  fits_shape none text = true
  fits_shape (some shape) text = host.fullmatch shape text

  -- An empty pattern or enumeration asks for nothing.
  abbrev pub fits_pattern : Option String → String → Bool
  fits_pattern none text = true
  fits_pattern (some p) text = if is_set p then host.fullmatch p text else true

  abbrev pub fits_enum : Option (List String) → String → Bool
  fits_enum none text = true
  fits_enum (some []) text = true
  fits_enum (some (x ∷ xs)) text = mem text (x ∷ xs)

  -- What is wrong with the value of an input.
  unfoldable pub misfit : String → InputSpec → String → Option InputError
  misfit name spec text =
      if not (fits_shape (shape_of spec.value_type) text)
      then some (not_of_type name)
      else if not (fits_pattern spec.pattern' text)
      then some (no_match name)
      else if not (fits_enum spec.enum text)
      then some (not_among name)
      else none

  with_value :
      String → String → Option InputError → Result InputError Inputs → Result InputError Inputs
  with_value name text (some e) rest = err e
  with_value name text none (err e) = err e
  with_value name text none (ok rest) = ok ((name, text) ∷ rest)

  one_input :
      String → InputSpec → Option String → Result InputError Inputs → Result InputError Inputs
  unfolding with_value misfit
  one_input name spec (some text) rest = with_value name text (misfit name spec text) rest
  one_input name spec none rest = if spec.required then err (missing_required name) else rest

  -- The loop over the declared inputs.
  resolve_all : Declared → Supplied → Result InputError Inputs
  unfolding one_input chosen
  resolve_all [] supplied = ok []
  resolve_all ((name, spec) ∷ rest) supplied =
      one_input name spec (chosen supplied name spec) (resolve_all rest supplied)

  unfoldable pub validate_inputs : List InputSpec → Supplied → Result InputError Inputs
  unfolding resolve_all declared_of all_known
  validate_inputs specs supplied =
      if not (all_known (declared_of specs) supplied)
      then err unknown_inputs
      else resolve_all (declared_of specs) supplied
