-- ===== src/Replay/Bind.antt =====
-- src/cua/replay/bind.py: the references of an action, resolved immediately before its dispatch. Inputs
-- and outputs are texts, and a literal is its `str()`, the form that `bind_action` gives it.
pub mod Source
use computer_use_automation.Base.{String, Option, none, some, List, lookup, Result, ok, err}
use computer_use_automation.Domain.Predicates.{
  ValueExpr, literal, input_ref, secret_ref, output_ref, Inputs,
}
use computer_use_automation.Domain.Action.{Action, Operation, type_text, select_option}
use computer_use_automation.Policy.Secrets.{SecretResolver, SecretHost, SecretError, resolve_secret}

-- `UnboundReferenceError`, in its three cases, and what the secret resolver raises.
pub data BindError : Type 0 where
  no_input no_output no_resolver : String → BindError
  from_secrets : SecretError → BindError

-- `getattr(action, "value", None)`
abbrev pub value_of_operation : Operation → Option ValueExpr
value_of_operation (type_text t v c) = some v
value_of_operation (select_option t v) = some v
value_of_operation _ = none

-- `action.model_copy(update={"value": ...})`
abbrev pub with_value_in : Operation → ValueExpr → Operation
with_value_in (type_text t v c) new = type_text t new c
with_value_in (select_option t v) new = select_option t new
with_value_in o new = o

abbrev pub Resolved : Type 0
Resolved = Result BindError (String × Option SecretResolver)

abbrev pub in_mapping : BindError → Option SecretResolver → Option String → Resolved
in_mapping e secrets none = err e
in_mapping e secrets (some text) = ok (text, secrets)

abbrev pub resolved_secret : Result SecretError (String × SecretResolver) → Resolved
resolved_secret (err e) = err (from_secrets e)
resolved_secret (ok (text, next)) = ok (text, some next)

abbrev pub bound_to : Action → Resolved → Result BindError (Action × Option SecretResolver)
bound_to a (err e) = err e
bound_to a (ok (text, next)) =
    ok (record a { operation = with_value_in a.operation (literal text) }, next)

-- The resolver comes back with what it has issued.
module _ (host : SecretHost) (inputs outputs : Inputs) (secrets : Option SecretResolver) where
  abbrev pub secret_from : Option SecretResolver → String → Resolved
  secret_from none k = err (no_resolver k)
  secret_from (some s) k = resolved_secret (resolve_secret host s k)

  unfoldable pub resolve_value : ValueExpr → Resolved
  resolve_value (literal text) = ok (text, secrets)
  resolve_value (input_ref k) = in_mapping (no_input k) secrets (lookup k inputs)
  resolve_value (output_ref k) = in_mapping (no_output k) secrets (lookup k outputs)
  resolve_value (secret_ref k) = secret_from secrets k

  abbrev pub bind_value :
      Action → Option ValueExpr → Result BindError (Action × Option SecretResolver)
  bind_value a none = ok (a, secrets)
  bind_value a (some v) = bound_to a (resolve_value v)

  unfoldable pub bind_action : Action → Result BindError (Action × Option SecretResolver)
  bind_action a = bind_value a (value_of_operation a.operation)
