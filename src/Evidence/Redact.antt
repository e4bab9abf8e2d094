-- ===== src/Evidence/Redact.antt =====
-- src/cua/policy/redact.py: what reaches a sink. `str.replace`, `re.sub`, the decimal form of a number
-- and `len(str(value))` are arguments. The set of secrets is a list, in the order of its iteration.
use Prim.Native.String
use computer_use_automation.Base.{ℕ, String, Bool, List, [], ◌∷◌, mem, leb, if◌then◌else◌}
use computer_use_automation.Domain.Capability.{is_set}
use computer_use_automation.Evidence.Json.{
  Json, Items, Fields, null, bool, num, str, arr, obj, nil, cons, end, field,
}

pub record RedactHost : Type 0 where
  pub replace : String → String → String → String
  pub sub : String → String → String → String
  pub decimal : ℕ → String
  pub str_length : Json → ℕ

pub record RedactionRule : Type 0 where
  pub name : String
  pub pattern' : String

pub record Redactor : Type 0 where
  pub rules : List RedactionRule
  pub always_redact_sensitive_inputs : Bool
  pub extra_secrets : List String

-- `MASK.format(label=label)`
abbrev pub mask : String → String
mask label = String.◌++◌ "<redacted:" (String.◌++◌ label ">")

unfoldable pub register_secret : Redactor → String → Redactor
register_secret r value =
    if leb 4 (String.count value)
    then (if mem value r.extra_secrets
        then r
        else record r { extra_secrets = value ∷ r.extra_secrets })
    else r

module _ (host : RedactHost) (r : Redactor) where
  open host use {replace, sub, decimal, str_length}

  scrub_secrets : List String → String → String
  scrub_secrets [] text = text
  scrub_secrets (s ∷ ss) text = scrub_secrets ss (replace text s (mask "secret"))

  scrub_rules : List RedactionRule → String → String
  scrub_rules [] text = text
  scrub_rules (p ∷ ps) text = scrub_rules ps (sub p.pattern' (mask p.name) text)

  unfoldable pub redact_text : String → String
  unfolding scrub_secrets scrub_rules
  redact_text value =
      if is_set value then scrub_rules r.rules (scrub_secrets r.extra_secrets value) else value

  text_of : Json → Json
  text_of (str s) = str (redact_text s)
  text_of v = v

  -- `value(item, sensitive=True)`
  unfoldable pub masked : Json → Json
  unfolding text_of
  masked v =
      if r.always_redact_sensitive_inputs
      then str (String.◌++◌ "<redacted:string[" (String.◌++◌ (decimal (str_length v)) "]>"))
      else text_of v

  unfoldable mutual
    unfolding masked

    pub structure : List String → Json → Json
    structure keys null = null
    structure keys (bool b) = bool b
    structure keys (num n) = num n
    structure keys (str s) = str (redact_text s)
    structure keys (arr vs) = arr (structure_items keys vs)
    structure keys (obj fs) = obj (structure_fields keys fs)

    pub structure_items : List String → Items → Items
    structure_items keys nil = nil
    structure_items keys (cons v vs) = cons (structure keys v) (structure_items keys vs)

    pub structure_fields : List String → Fields → Fields
    structure_fields keys end = end
    structure_fields keys (field k v fs) =
        field k (if mem k keys then masked v else structure keys v) (structure_fields keys fs)
