-- ===== src/Tests/Policy.antt =====
-- src/cua/policy/ on the small deployment.
use computer_use_automation.Base.{
  ◌≡◌, ◌↔◌, refl, true, false, Option, none, some, [], ◌∷◌, lookup, or_else, is_some,
}
use Prim.Native.Nat.{max}
use computer_use_automation.Domain.Action.{safe, action_type, url_of}
use computer_use_automation.Domain.Capability.{hash_is_valid}
use computer_use_automation.Domain.Approval.{CapabilityApproval, permits_unattended_replay}
use computer_use_automation.Domain.Text.{occurs_in}
use computer_use_automation.Policy.Config.{disposition_for}
use computer_use_automation.Policy.Allowlist.{allowed, check}
use computer_use_automation.Policy.Allowlist.Permitted as Allowlist
use computer_use_automation.Policy.Allowlist.Permitted.{check-iff-IsPermitted, check_narrows}
use computer_use_automation.Policy.Risk.{rank, classify, semantic_tier, highest}
use computer_use_automation.Policy.Risk.Highest.{Rates, danger, rank-classify}
use computer_use_automation.Policy.Irreversible.{IrreversibleGrant, refusal}
use computer_use_automation.Policy.Irreversible.Gate.{Approves, refusal-none}
use computer_use_automation.Policy.Engine.{AuthorizedAction, Attempt, minted, assess, authorize}
use computer_use_automation.Policy.Engine.Permit as Permit
use computer_use_automation.Policy.Engine.Permit.{authorize-iff-IsPermitted}
use computer_use_automation.Policy.Engine.Token.{IsTokenOf, authorize-IsTokenOf}
use computer_use_automation.Base.{ℕ, ok}
use computer_use_automation.Evidence.Redact.{register_secret}
use computer_use_automation.Policy.Secrets.{SecretResolver, SecretHost, issue, resolve_secret}
use computer_use_automation.Policy.Secrets.Issued.{Knows, resolve_each, resolve_each-Knows}
use computer_use_automation.Tests.Data.{
  save_button, click_save, submit_click, save_form, derivation, url_host, policy_host, policy,
  grant, save_attempt,
}

-- An irreversible step, presented with a grant or without one.
abbrev submit : Option IrreversibleGrant → Attempt
submit g = record save_attempt { action = submit_click; grant = g }

abbrev save_token : AuthorizedAction
save_token = record {
  action = click_save;
  actor = save_attempt.actor;
  session_id = "s";
  lease_epoch = 1;
  decision_id = "d1";
  risk = safe;
  resolved_node_id = some "n1";
  requires_confirm = false;
}

submit_granted : is_some (minted (authorize policy_host policy "d1" (submit (some grant)))) ≡ true
unfolding authorize action_type url_of disposition_for classify highest lookup semantic_tier
    occurs_in refusal hash_is_valid permits_unattended_replay
submit_granted = refl

submit_alone : is_some (minted (authorize policy_host policy "d1" (submit none))) ≡ false
unfolding authorize action_type url_of disposition_for classify highest lookup semantic_tier
    occurs_in
submit_alone = refl

authorize-iff-IsPermitted_example :
    (is_some (minted (authorize policy_host policy "d1" (submit (some grant)))) ≡ true)
    ↔ Permit.IsPermitted policy_host policy (submit (some grant))
authorize-iff-IsPermitted_example =
    authorize-iff-IsPermitted policy_host policy "d1" (submit (some grant))

authorize-IsTokenOf_example :
    IsTokenOf "d1" save_attempt (assess policy_host policy save_attempt).tier save_token
unfolding authorize action_type url_of disposition_for classify highest lookup semantic_tier
    occurs_in
authorize-IsTokenOf_example =
    authorize-IsTokenOf policy_host policy "d1" save_attempt {a = save_token} refl

refusal-none_example :
    (grant.caller_opt_in ≡ true)
    × (hash_is_valid derivation.compute_hash save_form ≡ true)
    × ((a : CapabilityApproval) × (grant.approval ≡ some a)
        × Approves derivation save_form a grant.applied_binding)
unfolding refusal hash_is_valid permits_unattended_replay
refusal-none_example = refusal-none derivation grant save_form policy.replay_gates refl refl refl

check-iff-IsPermitted_example :
    (check url_host policy.allowlist ("app.test" ∷ []) "https://app.test/form" ≡ allowed)
    ↔ Allowlist.IsPermitted url_host policy.allowlist ("app.test" ∷ []) "https://app.test/form"
check-iff-IsPermitted_example =
    check-iff-IsPermitted url_host policy.allowlist ("app.test" ∷ []) "https://app.test/form"

rank-classify_example :
    (said : ℕ) × Rates (λ t. t) policy.risk.lexicon (some save_button) said
    × (rank (classify (λ t. t) policy.risk submit_click (some save_button) none).tier
        ≡ max
            (max
              (rank policy.risk.default_tier)
              (danger (lookup (action_type submit_click) policy.risk.tiers_by_action)))
            (max said (danger (or_else none submit_click.risk))))
unfolding action_type
rank-classify_example = rank-classify (λ t. t) policy.risk submit_click (some save_button) none refl

abbrev pub secret_host : SecretHost
secret_host = record { environ = λ k. some "hunter2"; upper = λ t. t; replace = λ t a b. t }

abbrev pub fresh_resolver : SecretResolver
fresh_resolver = record {
  prefix = "CUA_SECRET_";
  overrides = ("pin", "123") ∷ [];
  redactor =
      some (record { rules = []; always_redact_sensitive_inputs = true; extra_secrets = [] });
  issued = [];
}

-- A value of three characters is issued, and the redactor does not learn it.
short_unregistered :
    resolve_secret secret_host fresh_resolver "pin"
    ≡ ok ("123", record fresh_resolver { issued = "123" ∷ [] })
unfolding resolve_secret issue register_secret lookup
short_unregistered = refl

resolve_each-Knows_example :
    Knows "hunter2" (resolve_each secret_host fresh_resolver ("pin" ∷ "password" ∷ [])).0
unfolding resolve_each resolve_secret issue register_secret lookup
resolve_each-Knows_example =
    resolve_each-Knows secret_host fresh_resolver ("pin" ∷ "password" ∷ []) "hunter2" refl refl
