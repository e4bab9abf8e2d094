-- ===== src/Policy/Secrets.antt =====
-- src/cua/policy/secrets.py: a secret is looked up when it is dispatched, and made known to the redactor.
-- `os.environ`, `str.upper` and `str.replace` are arguments.
pub mod Issued
use Prim.Native.String
use computer_use_automation.Base.{
  String, Bool, true, false, Option, none, some, List, [], ◌∷◌, mem, lookup, or_else, if◌then◌else◌,
  Result, ok, err,
}
use computer_use_automation.Evidence.Redact.{Redactor, register_secret}

-- `issued` is the set `_issued`.
pub record SecretResolver : Type 0 where
  pub prefix : String
  pub overrides : List (String × String)
  pub redactor : Option Redactor
  pub issued : List String

pub record SecretHost : Type 0 where
  pub environ : String → Option String
  pub upper : String → String
  pub replace : String → String → String → String

pub data SecretError : Type 0 where
  secret_not_found : String → SecretError

abbrev register_in : Option Redactor → String → Option Redactor
register_in none value = none
register_in (some r) value = some (register_secret r value)

-- `self._issued.add(value)`, and the redactor told.
unfoldable pub issue : SecretResolver → String → SecretResolver
issue s value = record s {
  issued = if mem value s.issued then s.issued else value ∷ s.issued;
  redactor = register_in s.redactor value;
}

issued_value :
    SecretResolver → String → Option String → Result SecretError (String × SecretResolver)
unfolding issue
issued_value s name none = err (secret_not_found name)
issued_value s name (some value) = ok (value, issue s value)

module _ (host : SecretHost) where
  unfoldable pub env_key : SecretResolver → String → String
  env_key s name =
      String.◌++◌ s.prefix (host.replace (host.replace (host.upper name) "." "_") "-" "_")

  unfoldable pub resolve_secret :
      SecretResolver → String → Result SecretError (String × SecretResolver)
  unfolding issued_value env_key
  resolve_secret s name =
      issued_value s name (or_else (lookup name s.overrides) (host.environ (env_key s name)))
