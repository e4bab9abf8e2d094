-- ===== src/Runtime/Dispatcher/Reconciled.antt =====
-- src/cua/runtime/dispatcher.py: every dispatch in the trace has its authorization.
use Prim.Native.String
use text.Mathlib.TextLemmas.{cons-append, cons-ne-nil}
use computer_use_automation.Base.{
  ℕ, String, ◌≡◌, refl, inl, inr, Bool, true, false, Option, none, some, List, arith, Result, ok,
  err, Bool-cases, is_some, sym, ◌∙◌, ◌==◌, eq_iff, eq_refl,
}
use computer_use_automation.Domain.Snapshot.{UiNode}
use computer_use_automation.Domain.Action.{target_of}
use computer_use_automation.Domain.Target.{TargetDescriptor}
use computer_use_automation.Evidence.Json.{str, bool, Fields, get, truthy, same}
use computer_use_automation.Evidence.Redact.{
  RedactHost, Redactor, structure, structure_fields, masked, redact_text,
}
use computer_use_automation.Evidence.Bus as Bus
use computer_use_automation.Evidence.Bus.{
  Event, EvidenceBus, EventType, is_dispatch, emit, event_of, grants, authorized_ids, decision_of,
}
use computer_use_automation.Evidence.Bus.Reconcile.{
  IsReconciled, IsReconciled-snoc, other_kind, refused_attempt, authorized_before, redact_field,
  get-structure_fields, redact_found, authorized_last,
}
use computer_use_automation.Policy.Engine.{
  PolicyDecision, Authorization, decided, crashed, Verdict, allowing, denying, confirming,
  is_allowing, AuthorizedAction, authorize,
}
use computer_use_automation.Policy.Engine.Token.{decided-IsCoherent}
use computer_use_automation.Targeting.Resolver.{
  Resolution, TargetResolutionError, resolve_with_drift,
}
use computer_use_automation.Surfaces.{ActionResult}
use computer_use_automation.Runtime.Payloads.{stale_payload, dispatch_payload, authorize_payload}
use computer_use_automation.Runtime.Dispatcher.{
  Landing, inside, outside, unreadable, after_landing, resolved_token, on_token, on_verdict,
  on_decision, after_resolution, on_resolved, on_target, attempt, node_of, gesture_hit, is_stale,
  execute, log, log_hit,
}
use computer_use_automation.Runtime.Command.{Setup, Session, Command, DispatchOutcome}

-- A true flag stays true on its way to the trace, masked or not.
module _ (host : RedactHost) (r : Redactor) (keys : List String) where
  mask-ne-empty : (t : String) → (String.◌++◌ "<redacted:string[" t == "") ≡ false
  mask-ne-empty t = elim (Bool-cases (String.◌++◌ "<redacted:string[" t == "")) [
    | inl e ↦
        absurd (cons-ne-nil "<" _ (sym (cons-append "<" "redacted:string[" t) ∙ (eq_iff _ "").0 e))
    | inr e ↦ e
  ]

  truthy-true : (k : String) → truthy (some (redact_field host r keys k (bool true))) ≡ true
  unfolding redact_field truthy masked structure
  truthy-true k =
      ground (arith, mask-ne-empty (String.◌++◌ (host.decimal (host.str_length (bool true))) "]>"))

  same-str :
      (k s : String)
      → same (some (redact_field host r keys k (str s))) (some (redact_field host r keys k (str s)))
        ≡ true
  unfolding redact_field same masked structure
  same-str k s = ground (
    arith,
    eq_refl (redact_text host r s),
    eq_refl (
        String.◌++◌ "<redacted:string["
          (String.◌++◌ (host.decimal (host.str_length (str s))) "]>")),
  )

module _ {W : Type 0} (d : Setup W) where
  abbrev trace_of : Session W → List Event
  trace_of s = s.evidence.trace

  log_other :
      (event : EventType) (c : Command) (payload : Fields) (s : Session W)
      → is_dispatch event ≡ false
      → IsReconciled (trace_of s)
      → IsReconciled (trace_of (log d event c payload s))
  unfolding emit
  log_other event c payload s h k = IsReconciled-snoc (trace_of s) _ k (other_kind h)

  log_stale :
      (c : Command) (s : Session W) (n : ℕ)
      → IsReconciled (trace_of s)
      → IsReconciled (trace_of (log d Bus.dispatch c (stale_payload n) s))
  unfolding emit stale_payload get
  log_stale c s n k = IsReconciled-snoc (trace_of s) _ k (
      refused_attempt (
        rw
          (get-structure_fields d.redaction s.evidence.redactor s.evidence.sensitive_keys "refused"
            (stale_payload n))
          (truthy-true d.redaction s.evidence.redactor s.evidence.sensitive_keys "refused")))

  -- The event of an allowing decision authorizes a dispatch under that decision.
  log_dispatched :
      (c : Command) (p : PolicyDecision) (a : AuthorizedAction) (r : ActionResult) (s : Session W)
      (w : W)
      → is_allowing p.outcome ≡ true
      → IsReconciled (trace_of s)
      → IsReconciled (
          trace_of (
            log d Bus.dispatch c
              (dispatch_payload p c.action a r)
              (record (log d Bus.authorize c (authorize_payload d.printer p c.action) s) {
                world = w;
              })))
  unfolding emit dispatch_payload authorize_payload get
  log_dispatched c p a r s w h k =
      IsReconciled-snoc _
        (event_of d.redaction
          (log d Bus.authorize c (authorize_payload d.printer p c.action) s).evidence Bus.dispatch
          c.actor c.lease_epoch (dispatch_payload p c.action a r))
        (log_other Bus.authorize c (authorize_payload d.printer p c.action) s refl k)
        (authorized_before (
          authorized_last (trace_of s)
            (event_of d.redaction s.evidence Bus.authorize c.actor c.lease_epoch
              (authorize_payload d.printer p c.action))
            (event_of d.redaction s.evidence Bus.dispatch c.actor c.lease_epoch
              (dispatch_payload p c.action a r))
            (rw (kept "granted" (authorize_payload d.printer p c.action)) (
              rw h
                (truthy-true d.redaction s.evidence.redactor s.evidence.sensitive_keys "granted")))
            (rw
              (
                kept "decision_id" (authorize_payload d.printer p c.action),
                kept "decision_id" (dispatch_payload p c.action a r),
              )
              (same-str d.redaction s.evidence.redactor s.evidence.sensitive_keys "decision_id"
                p.decision_id))))
    where
      kept :
          (k : String) (fs : Fields)
          → get k (structure_fields d.redaction s.evidence.redactor s.evidence.sensitive_keys fs)
            ≡ redact_found d.redaction s.evidence.redactor s.evidence.sensitive_keys k (get k fs)
      kept = get-structure_fields d.redaction s.evidence.redactor s.evidence.sensitive_keys

  after_landing_kept :
      (c : Command) (p : PolicyDecision) (x : Option (Resolution × Bool)) (r : ActionResult)
      (l : Landing) (s : Session W)
      → IsReconciled (trace_of s)
      → IsReconciled (trace_of (after_landing d c p x r l s).1)
  unfolding execute
  after_landing_kept c p x r inside s k = k
  after_landing_kept c p x r (outside url why) s k = log_other Bus.note c _ s refl k
  after_landing_kept c p x r unreadable s k = k

  allowing_of :
      (p : PolicyDecision) (a : AuthorizedAction)
      → is_allowing p.outcome ≡ is_some p.authorized
      → p.authorized ≡ some a
      → is_allowing p.outcome ≡ true
  allowing_of p a h e = ground arith

  module _ (id : String) (c : Command) where
    Kept : Option DispatchOutcome × Session W → Type 0
    Kept o = IsReconciled (trace_of o.1)

    on_token-Kept :
        (x : Option (Resolution × Bool)) (p : PolicyDecision) (s : Session W)
        (a : Option AuthorizedAction)
        → p.authorized ≡ a
        → is_allowing p.outcome ≡ is_some p.authorized
        → IsReconciled (trace_of s)
        → Kept
            (on_token d c p x a (log d Bus.authorize c (authorize_payload d.printer p c.action) s))
    unfolding execute Kept
    on_token-Kept x p s none q h k = log_other Bus.authorize c _ s refl k
    on_token-Kept x p s (some a) q h k =
        let (r, w) = d.driver.dispatch (resolved_token d x a) s.world in
        after_landing_kept c p x r _ _
          (log_dispatched c p (resolved_token d x a) r s w (allowing_of p a h q) k)

    on_verdict-Kept :
        (x : Option (Resolution × Bool)) (p : PolicyDecision) (s : Session W) (v : Verdict)
        → is_allowing p.outcome ≡ is_some p.authorized
        → IsReconciled (trace_of s)
        → Kept (
            on_verdict d c p x v (log d Bus.authorize c (authorize_payload d.printer p c.action) s))
    unfolding execute Kept
    on_verdict-Kept x p s confirming h k = log_other Bus.authorize c _ s refl k
    on_verdict-Kept x p s denying h k = on_token-Kept x p s p.authorized refl h k
    on_verdict-Kept x p s allowing h k = on_token-Kept x p s p.authorized refl h k

    on_decision-Kept :
        (t : Option UiNode) (x : Option (Resolution × Bool)) (s : Session W) (a : Authorization)
        → authorize d.host d.policy id (attempt d c t) ≡ a
        → IsReconciled (trace_of s)
        → Kept (on_decision d c x a s)
    unfolding execute Kept
    on_decision-Kept t x s crashed e k = k
    on_decision-Kept t x s (decided p) e k =
        on_verdict-Kept x p s p.outcome
          (decided-IsCoherent d.host d.policy id (attempt d c t) e).allows_minted k

    after_resolution-Kept :
        (x : Option (Resolution × Bool)) (s : Session W)
        → IsReconciled (trace_of s)
        → Kept (after_resolution d id c x s)
    unfolding execute Kept
    after_resolution-Kept x s k = at_hit (gesture_hit d c s.world)
      where
        at_hit :
            (hit : Option UiNode)
            → Kept (
                on_decision d c x
                  (authorize d.host d.policy id (attempt d c (node_of x hit)))
                  (log_hit d c hit s))
        at_hit none = on_decision-Kept (node_of x none) x s _ refl k
        at_hit (some h) =
            on_decision-Kept (node_of x (some h)) x (log_hit d c (some h) s) _ refl
              (log_other Bus.resolve c _ s refl k)

    on_target-Kept :
        (t : Option TargetDescriptor) (s : Session W)
        → IsReconciled (trace_of s)
        → Kept (on_target d id c t s)
    unfolding execute Kept
    on_target-Kept none s k = after_resolution-Kept none s k
    on_target-Kept (some t) s k = at_rung (resolve_with_drift d.strategies d.resolver t c.snapshot)
      where
        at_rung :
            (o : Result TargetResolutionError (Resolution × Bool)) → Kept (on_resolved d id c t o s)
        at_rung (err e) = log_other Bus.resolve c _ s refl k
        at_rung (ok (x, drifted)) =
            after_resolution-Kept (some (x, drifted)) _ (log_other Bus.resolve c _ s refl k)

    -- Whatever the command, the policy, the surface and the redactor, a trace in which every dispatch
    -- that was not refused follows an authorization of its decision keeps that property.
    pub execute-IsReconciled :
        (s : Session W)
        → IsReconciled s.evidence.trace
        → IsReconciled (execute d id c s).1.evidence.trace
    unfolding execute Kept
    execute-IsReconciled s k = elim (Bool-cases (is_stale d c.expected_epoch c.lease_epoch)) [
      | inl e ↦ rw e (log_stale c s _ k)
      | inr e ↦ rw e (on_target-Kept (target_of c.action) s k)
    ]
