-- ===== src/Policy/Secrets/Issued.antt =====
-- src/cua/policy/secrets.py with policy/redact.py: the redactor knows what was handed out.
use computer_use_automation.Base.{
  String, ◌≡◌, ◌↔◌, false, refl, sym, ap, ◌∙◌, true, Option, none, some, List, [], ◌∷◌, arith, mem,
  leb, Bool-cases, inl, inr, ◌==◌, eq_iff, eq_refl, lookup, or_else, if◌then◌else◌, Result, ok, err,
}
use Prim.Native.String
use mathlib.Core.Path.{subst}
use computer_use_automation.Evidence.Redact.{Redactor, register_secret}
use computer_use_automation.Policy.Secrets.{
  SecretResolver, SecretHost, SecretError, issue, issued_value, register_in, env_key,
  resolve_secret,
}

-- The resolver's redactor, if it has one, has the text among its secrets.
abbrev pub Knows : String → SecretResolver → Type 0
Knows text s = (r : Redactor) → s.redactor ≡ some r → mem text r.extra_secrets ≡ true

-- Registering keeps what is known, and adds a value that is long enough.
register_secret_keeps :
    (r : Redactor) (new value : String)
    → mem value r.extra_secrets ≡ true
    → mem value (register_secret r new).extra_secrets ≡ true
unfolding register_secret
register_secret_keeps r new value h = ground arith

register_secret_adds :
    (r : Redactor) (value : String)
    → leb 4 (String.count value) ≡ true
    → mem value (register_secret r value).extra_secrets ≡ true
unfolding register_secret
register_secret_adds r value h = elim (Bool-cases (mem value r.extra_secrets)) [
  | inl e ↦ rw (h, e) e
  | inr e ↦ rw (h, e) (rw (eq_refl value) refl)
]

-- What the issuing of a text does: the text joins those issued, once, and if there is a redactor, and
-- the text has four characters or more, its secrets, once; the rest stays.
pub record IsIssued (s : SecretResolver) (text : String) (next : SecretResolver) : Type 0 where
  pub prefix : next.prefix ≡ s.prefix
  pub overrides : next.overrides ≡ s.overrides
  pub issued : next.issued ≡ (if mem text s.issued then s.issued else text ∷ s.issued)
  pub unredacted : s.redactor ≡ none → next.redactor ≡ none
  pub too_short :
      (r : Redactor)
      → s.redactor ≡ some r
      → leb 4 (String.count text) ≡ false
      → next.redactor ≡ some r
  pub registered :
      (r : Redactor)
      → s.redactor ≡ some r
      → leb 4 (String.count text) ≡ true
      → next.redactor
        ≡ some (record r {
          extra_secrets =
              if mem text r.extra_secrets then r.extra_secrets else text ∷ r.extra_secrets;
        })

register_secret_short :
    (r : Redactor) (text : String) → leb 4 (String.count text) ≡ false → register_secret r text ≡ r
unfolding register_secret
register_secret_short r text h = rw h refl

register_secret_long :
    (r : Redactor) (text : String)
    → leb 4 (String.count text) ≡ true
    → register_secret r text ≡ record r {
      extra_secrets = if mem text r.extra_secrets then r.extra_secrets else text ∷ r.extra_secrets;
    }
unfolding register_secret
register_secret_long r text h = elim (Bool-cases (mem text r.extra_secrets)) [
  | inl e ↦ rw (h, e) refl
  | inr e ↦ rw (h, e) refl
]

issue-IsIssued : (s : SecretResolver) (text : String) → IsIssued s text (issue s text)
unfolding issue
issue-IsIssued s text = record {
  prefix = refl;
  overrides = refl;
  issued = refl;
  unredacted = λ e. ap (λ o. register_in o text) e;
  too_short =
      λ r e short. ap (λ o. register_in o text) e ∙ ap some (register_secret_short r text short);
  registered =
      λ r e long. ap (λ o. register_in o text) e ∙ ap some (register_secret_long r text long);
}

same_resolver :
    (a b : SecretResolver)
    → a.prefix ≡ b.prefix
    → a.overrides ≡ b.overrides
    → a.redactor ≡ b.redactor
    → a.issued ≡ b.issued
    → a ≡ b
same_resolver a b p o r e =
    λ i. record { prefix = p i; overrides = o i; redactor = r i; issued = e i }

-- Nothing else does what issuing does.
pub IsIssued-iff-issue :
    (s : SecretResolver) (text : String) (next : SecretResolver)
    → IsIssued s text next ↔ (issue s text ≡ next)
IsIssued-iff-issue s text next = (there, λ e. subst (IsIssued s text) e (issue-IsIssued s text))
  where
    same_redactor :
        (known : Option Redactor)
        → s.redactor ≡ known
        → IsIssued s text next
        → next.redactor ≡ (issue s text).redactor
    same_redactor none e k = k.unredacted e ∙ sym ((issue-IsIssued s text).unredacted e)
    same_redactor (some r) e k = elim (Bool-cases (leb 4 (String.count text))) [
      | inl long ↦ k.registered r e long ∙ sym ((issue-IsIssued s text).registered r e long)
      | inr short ↦ k.too_short r e short ∙ sym ((issue-IsIssued s text).too_short r e short)
    ]

    there : IsIssued s text next → issue s text ≡ next
    there k =
        let i = issue-IsIssued s text in
        same_resolver (issue s text) next (i.prefix ∙ sym k.prefix) (i.overrides ∙ sym k.overrides)
          (sym (same_redactor s.redactor refl k)) (i.issued ∙ sym k.issued)

issue_keeps : (s : SecretResolver) (new text : String) → Knows text s → Knows text (issue s new)
unfolding issue
issue_keeps s new text k = at_redactor s.redactor k
  where
    at_redactor :
        (known : Option Redactor)
        → ((r : Redactor) → known ≡ some r → mem text r.extra_secrets ≡ true)
        → (r : Redactor) → register_in known new ≡ some r
        → mem text r.extra_secrets ≡ true
    at_redactor none k r e = absurd (ground arith)
    at_redactor (some old) k r e =
        let same : r ≡ register_secret old new = ground arith in
        rw same (register_secret_keeps old new text (k old refl))

issue_adds :
    (s : SecretResolver) (text : String)
    → leb 4 (String.count text) ≡ true
    → Knows text (issue s text)
unfolding issue
issue_adds s text long = at_redactor s.redactor
  where
    at_redactor :
        (known : Option Redactor) (r : Redactor)
        → register_in known text ≡ some r
        → mem text r.extra_secrets ≡ true
    at_redactor none r e = absurd (ground arith)
    at_redactor (some old) r e =
        let same : r ≡ register_secret old text = ground arith in
        rw same (register_secret_adds old text long)

module _ (host : SecretHost) where
  -- The resolver after a resolution, whether it returned or raised.
  abbrev after_resolve :
      SecretResolver → Result SecretError (String × SecretResolver) → SecretResolver
  after_resolve s (ok (value, next)) = next
  after_resolve s (err e) = s

  -- The value that a name has, if any: the override, or else that of its variable, the prefix and the
  -- name in upper case with an underscore for each dot and dash.
  abbrev pub found_for : SecretResolver → String → Option String
  found_for s name = or_else (lookup name s.overrides) (
      host.environ
        (String.◌++◌ s.prefix (host.replace (host.replace (host.upper name) "." "_") "-" "_")))

  pub resolve_secret-ok :
      (s next : SecretResolver) (name text : String)
      → resolve_secret host s name ≡ ok (text, next)
      → (found_for s name ≡ some text) × (issue s text ≡ next)
  unfolding resolve_secret issued_value env_key
  resolve_secret-ok s next name text = of_found (found_for s name)
    where
      of_found :
          (found : Option String)
          → issued_value s name found ≡ ok (text, next)
          → (found ≡ some text) × (issue s text ≡ next)
      of_found none h = absurd (ground arith)
      of_found (some w) h =
          let same : w ≡ text = ground arith in
          (ap some same, ap (issue s) (sym same) ∙ ground arith)

  pub resolve_secret_found :
      (s : SecretResolver) (name text : String)
      → found_for s name ≡ some text
      → resolve_secret host s name ≡ ok (text, issue s text)
  unfolding resolve_secret issued_value env_key
  resolve_secret_found s name text h = rw h refl

  -- The names resolved one after the other, and the texts handed out for those that have one.
  abbrev then_handed :
      Result SecretError (String × SecretResolver)
      → SecretResolver × List String
      → SecretResolver × List String
  then_handed (ok (text, next)) (last, texts) = (last, text ∷ texts)
  then_handed (err e) (last, texts) = (last, texts)

  unfoldable pub resolve_each : SecretResolver → List String → SecretResolver × List String
  resolve_each s [] = (s, [])
  resolve_each s (name ∷ names) =
      let found = resolve_secret host s name in
      then_handed found (resolve_each (after_resolve s found) names)

  resolve_keeps :
      (s : SecretResolver) (name text : String)
      → Knows text s
      → Knows text (after_resolve s (resolve_secret host s name))
  unfolding resolve_secret
  resolve_keeps s name text k =
      at_value (or_else (lookup name s.overrides) (host.environ (env_key host s name)))
    where
      at_value : (found : Option String) → Knows text (after_resolve s (issued_value s name found))
      at_value none = k
      at_value (some value) = issue_keeps s value text k

  first-then_handed :
      (r : Result SecretError (String × SecretResolver)) (rest : SecretResolver × List String)
      → (then_handed r rest).0 ≡ rest.0
  first-then_handed (ok (text, next)) (last, texts) = refl
  first-then_handed (err e) (last, texts) = refl

  each_keeps :
      (s : SecretResolver) (names : List String) (text : String)
      → Knows text s
      → Knows text (resolve_each s names).0
  unfolding resolve_each
  each_keeps s [] text k = k
  each_keeps s (name ∷ names) text k =
      let found = resolve_secret host s name in
      subst (Knows text)
        (sym (first-then_handed found (resolve_each (after_resolve s found) names)))
        (each_keeps (after_resolve s found) names text (resolve_keeps s name text k))

  -- Of the texts that resolutions hand out, found or not, one after the other: the redactor that the
  -- resolver has then, if it has one, has each of four characters or more among the secrets it scrubs.
  pub resolve_each-Knows :
      (s : SecretResolver) (names : List String) (text : String)
      → mem text (resolve_each s names).1 ≡ true
      → leb 4 (String.count text) ≡ true
      → Knows text (resolve_each s names).0
  unfolding resolve_each
  resolve_each-Knows s [] text m long = absurd (ground arith)
  resolve_each-Knows s (name ∷ names) text m long =
      at_found (resolve_secret host s name) refl m
        (resolve_each-Knows (after_resolve s (resolve_secret host s name)) names text)
    where
      at_found :
          (r : Result SecretError (String × SecretResolver))
          → resolve_secret host s name ≡ r
          → mem text (then_handed r (resolve_each (after_resolve s r) names)).1 ≡ true
          → (mem text (resolve_each (after_resolve s r) names).1 ≡ true
              → leb 4 (String.count text) ≡ true
              → Knows text (resolve_each (after_resolve s r) names).0)
          → Knows text (then_handed r (resolve_each (after_resolve s r) names)).0
      at_found (err e) q m later = later m long
      at_found (ok (w, next)) q m later = elim (Bool-cases (w == text)) [
        | inl here ↦
            let same : w ≡ text = (eq_iff w text).0 here in
            let issued = (resolve_secret-ok s next name w q).1 in
            each_keeps next names text
              (subst (Knows text) (ap (issue s) (sym same) ∙ issued) (issue_adds s text long))
        | inr other ↦ later (ground arith) long
      ]
