-- ===== src/Replay/Bind/Source.antt =====
-- src/cua/replay/bind.py: what a bound action holds, and when there is one.
use computer_use_automation.Base.{
  String, Bool, ◌≡◌, ◌↔◌, refl, sym, ap, ◌∙◌, Option, none, some, lookup, Result, ok, err, arith,
}
use mathlib.Core.Path.{subst}
use computer_use_automation.Domain.Predicates.{
  ValueExpr, literal, input_ref, secret_ref, output_ref, Inputs,
}
use computer_use_automation.Domain.Action.{
  Action, Operation, click, type_text, select_option, press_key, navigate, reload, scroll, wait_for,
  extract, assertion, raw_input,
}
use computer_use_automation.Domain.Target.{TargetDescriptor}
use computer_use_automation.Policy.Secrets.{
  SecretResolver, SecretHost, SecretError, issue, resolve_secret,
}
use computer_use_automation.Policy.Secrets.Issued.{
  IsIssued, IsIssued-iff-issue, found_for, resolve_secret-ok, resolve_secret_found,
}
use computer_use_automation.Replay.Bind.{
  BindError, no_input, no_output, Resolved, in_mapping, resolved_secret, bound_to, secret_from,
  resolve_value, bind_value, bind_action, value_of_operation, with_value_in,
}

module _ (host : SecretHost) (inputs outputs : Inputs) (secrets : Option SecretResolver) where
  -- Where the text of a value comes from, and what the resolver has issued then.
  pub data Supplies (text : String) (next : Option SecretResolver) : ValueExpr → Type 0 where
    by_literal : {w : String} → w ≡ text → secrets ≡ next → Supplies text next (literal w)
    by_input :
        {k : String}
        → lookup k inputs ≡ some text
        → secrets ≡ next
        → Supplies text next (input_ref k)
    by_output :
        {k : String}
        → lookup k outputs ≡ some text
        → secrets ≡ next
        → Supplies text next (output_ref k)
    by_secret :
        {k : String} (s after : SecretResolver)
        → secrets ≡ some s
        → found_for host s k ≡ some text
        → IsIssued s text after
        → some after ≡ next
        → Supplies text next (secret_ref k)

  -- The operation with its value, if it has one, replaced by the text.
  pub data IsBound (b : Operation) (next : Option SecretResolver) : Operation → Type 0 where
    typed :
        {t : TargetDescriptor} {v : ValueExpr} {c : Bool} (text : String)
        → type_text t (literal text) c ≡ b
        → Supplies text next v
        → IsBound b next (type_text t v c)
    selected :
        {t : TargetDescriptor} {v : ValueExpr} (text : String)
        → select_option t (literal text) ≡ b
        → Supplies text next v
        → IsBound b next (select_option t v)
    as_is :
        {o : Operation} → value_of_operation o ≡ none → o ≡ b → secrets ≡ next → IsBound b next o

  mapping-ok :
      (e : BindError) (found : Option String) (text : String) (next : Option SecretResolver)
      → in_mapping e secrets found ≡ ok (text, next)
      → (found ≡ some text) × (secrets ≡ next)
  mapping-ok e none text next h = absurd (ground arith)
  mapping-ok e (some w) text next h = (ground arith, ground arith)

  secret-ok :
      (k text : String) (s : SecretResolver) (next : Option SecretResolver)
      (r : Result SecretError (String × SecretResolver))
      → resolve_secret host s k ≡ r
      → resolved_secret r ≡ ok (text, next)
      → (found_for host s k ≡ some text) × (some (issue s text) ≡ next)
  secret-ok k text s next (err e) q h = absurd (ground arith)
  secret-ok k text s next (ok (w, after)) q h =
      let same : w ≡ text = ground arith in
      let known = resolve_secret-ok host s after k w q in
      (
        known.0 ∙ ap some same,
        ap (λ x. some (issue s x)) (sym same) ∙ ap some known.1 ∙ ground arith,
      )

  resolve_value-Supplies :
      (v : ValueExpr) (text : String) (next : Option SecretResolver)
      → resolve_value host inputs outputs secrets v ≡ ok (text, next)
      → Supplies text next v
  unfolding resolve_value
  resolve_value-Supplies (literal w) text next h = by_literal (ground arith) (ground arith)
  resolve_value-Supplies (input_ref k) text next h =
      let (found, same) = mapping-ok (no_input k) (lookup k inputs) text next h in
      by_input found same
  resolve_value-Supplies (output_ref k) text next h =
      let (found, same) = mapping-ok (no_output k) (lookup k outputs) text next h in
      by_output found same
  resolve_value-Supplies (secret_ref k) text next h = of_secrets secrets refl h
    where
      of_secrets :
          (known : Option SecretResolver)
          → secrets ≡ known
          → secret_from host inputs outputs secrets known k ≡ ok (text, next)
          → Supplies text next (secret_ref k)
      of_secrets none q h = absurd (ground arith)
      of_secrets (some s) q h =
          let (found, same) = secret-ok k text s next (resolve_secret host s k) refl h in
          by_secret s (issue s text) q found ((IsIssued-iff-issue s text (issue s text)).1 refl)
            same

  Supplies-resolve_value :
      (v : ValueExpr) (text : String) (next : Option SecretResolver)
      → Supplies text next v
      → resolve_value host inputs outputs secrets v ≡ ok (text, next)
  unfolding resolve_value
  Supplies-resolve_value v text next (by_literal q same) = rw (q, same) refl
  Supplies-resolve_value v text next (by_input found same) = rw (found, same) refl
  Supplies-resolve_value v text next (by_output found same) = rw (found, same) refl
  Supplies-resolve_value v text next (by_secret {k} s after q found issued same) =
      let done = (IsIssued-iff-issue s text after).0 issued in
      rw (q, resolve_secret_found host s k text found, done, same) refl

  -- The action's own fields stay, and so does its operation but for the value.
  pub IsBoundAction : Action → Action → Option SecretResolver → Type 0
  IsBoundAction a b next = (a.risk ≡ b.risk) × IsBound b.operation next a.operation

  with_text-IsBound :
      (o : Operation) (v : ValueExpr) (text : String) (next : Option SecretResolver)
      → value_of_operation o ≡ some v
      → Supplies text next v
      → IsBound (with_value_in o (literal text)) next o
  with_text-IsBound (type_text t w c) v text next h k =
      let same : v ≡ w = ground arith in typed text refl (subst (Supplies text next) same k)
  with_text-IsBound (select_option t w) v text next h k =
      let same : v ≡ w = ground arith in selected text refl (subst (Supplies text next) same k)
  with_text-IsBound (click t) v text next h k = absurd (ground arith)
  with_text-IsBound (press_key x t) v text next h k = absurd (ground arith)
  with_text-IsBound (navigate u) v text next h k = absurd (ground arith)
  with_text-IsBound reload v text next h k = absurd (ground arith)
  with_text-IsBound (scroll x t n) v text next h k = absurd (ground arith)
  with_text-IsBound (wait_for p n) v text next h k = absurd (ground arith)
  with_text-IsBound (extract t i f) v text next h k = absurd (ground arith)
  with_text-IsBound (assertion p) v text next h k = absurd (ground arith)
  with_text-IsBound (raw_input x p q r) v text next h k = absurd (ground arith)

  bound_to-IsBound :
      (a b : Action) (next : Option SecretResolver) (v : ValueExpr) (r : Resolved)
      → value_of_operation a.operation ≡ some v
      → resolve_value host inputs outputs secrets v ≡ r
      → bound_to a r ≡ ok (b, next)
      → IsBoundAction a b next
  unfolding IsBoundAction
  bound_to-IsBound a b next v (err e) has q h = absurd (ground arith)
  bound_to-IsBound a b next v (ok (text, after)) has q h =
      let same : after ≡ next = ground arith in
      let made : record a { operation = with_value_in a.operation (literal text) } ≡ b =
        ground arith in
      (
        ap (λ x. x.risk) made,
        subst (λ x. IsBound x next a.operation) (ap (λ x. x.operation) made)
            (with_text-IsBound a.operation v text next has
              (resolve_value-Supplies v text next (q ∙ ground arith))),
      )

  bind_value-IsBound :
      (a b : Action) (next : Option SecretResolver) (v : Option ValueExpr)
      → value_of_operation a.operation ≡ v
      → bind_value host inputs outputs secrets a v ≡ ok (b, next)
      → IsBoundAction a b next
  unfolding IsBoundAction
  bind_value-IsBound a b next none has h =
      let same : a ≡ b = ground arith in
      (ap (λ x. x.risk) same, as_is has (ap (λ x. x.operation) same) (ground arith))
  bind_value-IsBound a b next (some v) has h =
      bound_to-IsBound a b next v (resolve_value host inputs outputs secrets v) has refl h

  same_action : (a b : Action) → a.risk ≡ b.risk → a.operation ≡ b.operation → a ≡ b
  same_action a b p q = λ i. record { risk = p i; operation = q i }

  IsBound-bind_value :
      (a b : Action) (next : Option SecretResolver) (o : Operation)
      → a.operation ≡ o
      → a.risk ≡ b.risk
      → IsBound b.operation next o
      → bind_value host inputs outputs secrets a (value_of_operation o) ≡ ok (b, next)
  IsBound-bind_value a b next o q same (typed {v = v} text is k) =
      rw (Supplies-resolve_value v text next k, q, same, is) refl
  IsBound-bind_value a b next o q same (selected {v = v} text is k) =
      rw (Supplies-resolve_value v text next k, q, same, is) refl
  IsBound-bind_value a b next o q same (as_is none_there is kept) =
      rw (none_there, kept) (ap (λ x. ok (x, next)) (same_action a b same (q ∙ is)))

  -- Binding yields an action, with the resolver there is then, exactly when that action is the declared
  -- one with its value, if it has one, replaced by the text that the value stands for: a literal's own,
  -- that of an input that was supplied, of an output that was produced, or of a secret, the override or
  -- else the environment variable of its name. For a secret the text has joined those issued and, if
  -- there is a redactor and the text has four characters or more, the redactor's secrets, and nothing
  -- else of the resolver has changed; for any other value the resolver is as before.
  pub bind_action-IsBound :
      (a b : Action) (next : Option SecretResolver)
      → (bind_action host inputs outputs secrets a ≡ ok (b, next)) ↔ IsBoundAction a b next
  unfolding bind_action IsBoundAction
  bind_action-IsBound a b next = (
    bind_value-IsBound a b next (value_of_operation a.operation) refl,
    λ k. IsBound-bind_value a b next a.operation refl k.0 k.1,
  )

module _ (host later_host : SecretHost) where
  IsBound-again :
      (inputs outputs : Inputs) (secrets next : Option SecretResolver)
      (later_inputs later_outputs : Inputs) (later : Option SecretResolver) (o b : Operation)
      → IsBound host inputs outputs secrets b next o
      → IsBound later_host later_inputs later_outputs later b later b
  IsBound-again inputs outputs secrets next later_inputs later_outputs later o b (typed text is k) =
      subst (λ x. IsBound later_host later_inputs later_outputs later x later x) is
        (typed text refl (by_literal refl refl))
  IsBound-again inputs outputs secrets next later_inputs later_outputs later o b
        (selected text is k) =
      subst (λ x. IsBound later_host later_inputs later_outputs later x later x) is
        (selected text refl (by_literal refl refl))
  IsBound-again inputs outputs secrets next later_inputs later_outputs later o b (as_is has is k) =
      subst (λ x. IsBound later_host later_inputs later_outputs later x later x) is
        (as_is has refl refl)

  -- A bound action holds no reference any more: binding it again, with whatever inputs, outputs and
  -- resolver, yields the same action and issues nothing.
  pub bind_action-bind_action :
      (inputs outputs : Inputs) (secrets next : Option SecretResolver)
      (later_inputs later_outputs : Inputs) (later : Option SecretResolver) (a b : Action)
      → bind_action host inputs outputs secrets a ≡ ok (b, next)
      → bind_action later_host later_inputs later_outputs later b ≡ ok (b, later)
  unfolding IsBoundAction
  bind_action-bind_action inputs outputs secrets next later_inputs later_outputs later a b h =
      let bound = (bind_action-IsBound host inputs outputs secrets a b next).0 h in
      (bind_action-IsBound later_host later_inputs later_outputs later b b later).1 (
        refl,
        IsBound-again inputs outputs secrets next later_inputs later_outputs later a.operation
            b.operation bound.1,
      )
