-- ===== src/Evidence/Bus/Reconcile.antt =====
-- src/cua/evidence/bus.py: which events keep the trace reconciled, whatever the redactor does.
use computer_use_automation.Base.{
  String, ◌≡◌, refl, ap, inl, inr, Bool, true, false, ◌||◌, Option, none, some, List, [], ◌∷◌, ◌++◌,
  arith, keep, any, mem, if◌then◌else◌, eq_iff, Bool-cases,
}
use computer_use_automation.Evidence.Json.{Json, Fields, end, field, get, truthy, same}
use computer_use_automation.Evidence.Redact.{
  RedactHost, Redactor, structure, structure_fields, masked,
}
use computer_use_automation.Evidence.Bus.{
  Event, grants, decision_of, is_dispatch, authorized_ids, is_unauthorized, unauthorized_dispatches,
}

-- No dispatch of the trace lacks its authorization.
abbrev pub IsReconciled : List Event → Type 0
IsReconciled events = unauthorized_dispatches events ≡ []

-- `redact_field` is what a field becomes on its way to the trace.
module _ (host : RedactHost) (r : Redactor) (keys : List String) where
  unfoldable pub redact_field : String → Json → Json
  redact_field k v = if mem k keys then masked host r v else structure host r keys v

  abbrev pub redact_found : String → Option Json → Option Json
  redact_found k none = none
  redact_found k (some v) = some (redact_field k v)

  pub get-structure_fields :
      (k : String) (fs : Fields)
      → get k (structure_fields host r keys fs) ≡ redact_found k (get k fs)
  unfolding get structure redact_field
  get-structure_fields k end = refl
  get-structure_fields k (field j v fs) = ground (arith, eq_iff j k, get-structure_fields k fs)

pub any-append :
    (p : Option Json → Bool) (xs ys : List (Option Json))
    → any p (xs ++ ys) ≡ (any p xs || any p ys)
any-append p [] ys = refl
any-append p (x ∷ xs) ys = ground (arith, any-append p xs ys)

pub authorized_ids-append :
    (xs ys : List Event) → authorized_ids (xs ++ ys) ≡ authorized_ids xs ++ authorized_ids ys
unfolding authorized_ids
authorized_ids-append [] ys = refl
authorized_ids-append (e ∷ es) ys = elim (Bool-cases (grants e)) [
  | inl q ↦ rw q (ap (λ t. decision_of e ∷ t) (authorized_ids-append es ys))
  | inr q ↦ rw q (authorized_ids-append es ys)
]

-- What is authorized stays so when more ids are.
is_unauthorized-append :
    (ids more : List (Option Json)) (e : Event)
    → is_unauthorized ids e ≡ false
    → is_unauthorized (ids ++ more) e ≡ false
unfolding is_unauthorized
is_unauthorized-append ids more e h = rw (any-append (same (decision_of e)) ids more) (ground arith)

keep-none-append :
    (ids more : List (Option Json)) (es : List Event)
    → keep (is_unauthorized ids) es ≡ []
    → keep (is_unauthorized (ids ++ more)) es ≡ []
keep-none-append ids more [] h = refl
keep-none-append ids more (e ∷ es) h = elim (Bool-cases (is_unauthorized ids e)) [
  | inl q ↦ absurd (ground arith)
  | inr q ↦ rw (is_unauthorized-append ids more e q) (keep-none-append ids more es (rw q at h))
]

-- An event that is not an unmatched dispatch: it is no dispatch, or a refused one, or its decision is
-- among those that the trace has authorized.
pub data Accounted (events : List Event) (e : Event) : Type 0 where
  other_kind : is_dispatch e.event ≡ false → Accounted events e
  refused_attempt : truthy (get "refused" e.payload) ≡ true → Accounted events e
  authorized_before : any (same (decision_of e)) (authorized_ids events) ≡ true → Accounted events e

Accounted-not :
    (events : List Event) (e : Event)
    → Accounted events e
    → is_unauthorized (authorized_ids events) e ≡ false
unfolding is_unauthorized
Accounted-not events e (other_kind h) = ground arith
Accounted-not events e (refused_attempt h) = ground arith
Accounted-not events e (authorized_before h) = ground arith

keep-snoc :
    (p : Event → Bool) (es : List Event) (e : Event)
    → keep p es ≡ []
    → p e ≡ false
    → keep p (es ++ e ∷ []) ≡ []
keep-snoc p [] e h q = rw q
keep-snoc p (x ∷ es) e h q = elim (Bool-cases (p x)) [
  | inl y ↦ absurd (ground arith)
  | inr y ↦ rw y (keep-snoc p es e (rw y at h) q)
]

-- A reconciled trace stays reconciled under an event that is accounted for.
pub IsReconciled-snoc :
    (events : List Event) (e : Event)
    → IsReconciled events
    → Accounted events e
    → IsReconciled (events ++ e ∷ [])
unfolding unauthorized_dispatches
IsReconciled-snoc events e h a = rw (authorized_ids-append events (e ∷ [])) (
    keep-snoc (is_unauthorized (authorized_ids events ++ authorized_ids (e ∷ []))) events e
      (keep-none-append (authorized_ids events) (authorized_ids (e ∷ [])) events h)
      (is_unauthorized-append (authorized_ids events) (authorized_ids (e ∷ [])) e
        (Accounted-not events e a)))

ids_of_granted :
    (a e : Event)
    → grants a ≡ true
    → same (decision_of e) (decision_of a) ≡ true
    → any (same (decision_of e)) (authorized_ids (a ∷ [])) ≡ true
unfolding authorized_ids
ids_of_granted a e g h = rw g (rw h refl)

-- The last event of a trace authorizes what bears its decision, if it grants.
pub authorized_last :
    (events : List Event) (a e : Event)
    → grants a ≡ true
    → same (decision_of e) (decision_of a) ≡ true
    → any (same (decision_of e)) (authorized_ids (events ++ a ∷ [])) ≡ true
authorized_last events a e g h =
    rw
      (
        authorized_ids-append events (a ∷ []),
        any-append (same (decision_of e)) (authorized_ids events) (authorized_ids (a ∷ [])),
      )
      (found (any (same (decision_of e)) (authorized_ids events)))
  where
    found : (b : Bool) → (b || any (same (decision_of e)) (authorized_ids (a ∷ []))) ≡ true
    found true = refl
    found false = ids_of_granted a e g h
