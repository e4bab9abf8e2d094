-- ===== src/Tests/Bind.antt =====
-- src/cua/replay/bind.py: a secret typed into the form.
use computer_use_automation.Base.{◌≡◌, ◌↔◌, refl, false, none, some, [], ◌∷◌, ok, err, lookup}
use computer_use_automation.Domain.Predicates.{ValueExpr, literal, secret_ref, output_ref}
use computer_use_automation.Domain.Action.{Action, type_text}
use computer_use_automation.Policy.Secrets.{issue, resolve_secret}
use computer_use_automation.Replay.Bind.{bind_action, resolve_value, no_output, no_resolver}
use computer_use_automation.Replay.Bind.Source.{IsBoundAction, bind_action-IsBound}
use computer_use_automation.Tests.Data.{save_target}
use computer_use_automation.Tests.Policy.{secret_host, fresh_resolver}

abbrev typing : ValueExpr → Action
typing v = record { risk = none; operation = type_text save_target v false }

secret_typed :
    bind_action secret_host [] [] (some fresh_resolver) (typing (secret_ref "password"))
    ≡ ok (typing (literal "hunter2"), some (issue fresh_resolver "hunter2"))
unfolding bind_action resolve_value resolve_secret lookup
secret_typed = refl

-- An output is not looked up among the inputs.
output_missing :
    bind_action secret_host (("total", "12") ∷ []) [] none (typing (output_ref "total"))
    ≡ err (no_output "total")
unfolding bind_action resolve_value lookup
output_missing = refl

secret_unresolvable :
    bind_action secret_host [] [] none (typing (secret_ref "pin")) ≡ err (no_resolver "pin")
unfolding bind_action resolve_value
secret_unresolvable = refl

bind_action-IsBound_example :
    (bind_action secret_host [] [] (some fresh_resolver) (typing (secret_ref "password"))
      ≡ ok (typing (literal "hunter2"), some (issue fresh_resolver "hunter2")))
    ↔ IsBoundAction secret_host [] []
        (some fresh_resolver)
        (typing (secret_ref "password"))
        (typing (literal "hunter2"))
        (some (issue fresh_resolver "hunter2"))
bind_action-IsBound_example =
    bind_action-IsBound secret_host [] [] (some fresh_resolver) (typing (secret_ref "password"))
      (typing (literal "hunter2")) (some (issue fresh_resolver "hunter2"))
