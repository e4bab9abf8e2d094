-- ===== src/Replay/Executor/Overtaken.antt =====
-- src/cua/replay/executor.py with hitl/lease.py: a run from before a handoff.
use computer_use_automation.Base.{
  ℕ, ◌<◌, ◌≤◌, String, ◌≡◌, refl, sym, ap, ◌∙◌, inl, inr, true, Option, none, some, arith, Result,
  ok, err,
}
use mathlib.Core.Path.{subst}
use computer_use_automation.Domain.Capability.{Capability}
use computer_use_automation.Runtime.Command.{Session, Command}
use computer_use_automation.Runtime.Dispatcher as Dispatcher
use computer_use_automation.Runtime.Dispatcher.{is_stale}
use computer_use_automation.Runtime.Dispatcher.Untouched.{execute-Acted}
use computer_use_automation.Runtime.Capture.{capture}
use computer_use_automation.Evidence.Redact.{Redactor}
use computer_use_automation.Hitl.Lease as Lease
use computer_use_automation.Hitl.Lease.{Lease, LeaseError}
use computer_use_automation.Hitl.Handoff.{SessionBroker, Escalation}
use computer_use_automation.Hitl.Broker as Broker
use computer_use_automation.Replay.Inputs.{Supplied}
use computer_use_automation.Replay.Limits.{epochs}
use computer_use_automation.Replay.Executor.State.{
  ReplayExecutor, supervised, Live, session_of, put_session, world_of, lease_of,
}
use computer_use_automation.Replay.Executor.Stepping.{keep_secrets, redactor_of, share_redactor}
use computer_use_automation.Replay.Executor.Flow.{run}
use computer_use_automation.Replay.Executor.Moves.{
  Move, reads, settles, looks, notes, captures, masks, resolves, adopts, dispatches, calls, Moves,
  stay, then_move,
}
use computer_use_automation.Replay.Executor.Walked.{run-Walks}
use computer_use_automation.Replay.Executor.Walked.Parts.{lease_of-with_session}
use computer_use_automation.Replay.Executor.Surface.{world_of-put_session, world_of-escalate}

module _ {W : Type 0} (x : ReplayExecutor W) where
  -- The surface has changed by itself at most.
  pub data Drift (before : W) : W → Type 0 where
    unchanged : Drift before before
    by_itself : {w : W} → Drift before w → (n : ℕ) → Drift before (x.around.settle n w)

  epoch-escalate :
      (l l' : Lease) (reason : String) (e : ℕ)
      → Lease.escalate l reason ≡ ok (l', e)
      → l.epoch ≤ l'.epoch
  unfolding Lease.escalate
  epoch-escalate l l' reason e h = ground arith

  epoch-call :
      (b : SessionBroker W) (now : ℕ) (id : String) (e : Escalation)
      → b.lease.epoch ≤ (Broker.escalate x.dispatcher x.broker_texts b now id e).1.lease.epoch
  unfolding Broker.escalate
  epoch-call b now id e = at_lease (Lease.escalate b.lease e.reason) refl
    where
      at_lease :
          (r : Result LeaseError (Lease × ℕ))
          → Lease.escalate b.lease e.reason ≡ r
          → b.lease.epoch
            ≤ (Broker.escalated x.dispatcher x.broker_texts b now id e r).1.lease.epoch
      at_lease (err m) q = omega arith
      at_lease (ok (l, epoch)) q = epoch-escalate b.lease l e.reason epoch q

  execute_stale :
      (id : String) (c : Command) (s : Session W)
      → is_stale x.dispatcher c.expected_epoch c.lease_epoch ≡ true
      → (Dispatcher.execute x.dispatcher id c s).1.world ≡ s.world
  execute_stale id c s h = elim (execute-Acted x.dispatcher id c s) [
    | inl same ↦ same
    | inr (fresh, acted) ↦ absurd (ground arith)
  ]

  module _ (before : W) (e : ℕ) where
    -- The run holds an epoch of before the lease's.
    record IsOvertaken (v : Live W) : Type 0 where
      held : v.lease_epoch ≡ some e
      lease : Lease
      has_lease : lease_of v.site ≡ some lease
      older : e < lease.epoch
      drift : Drift before (world_of v)

    kept :
        (s : Session W) (v : Live W)
        → IsOvertaken v
        → Drift before s.world
        → IsOvertaken (put_session s v)
    kept s v o d = record {
      held = o.held;
      lease = o.lease;
      has_lease = lease_of-with_session x s v.site ∙ o.has_lease;
      older = o.older;
      drift = subst (Drift before) (sym (world_of-put_session s v)) d;
    }

    kept-share_redactor :
        (r : Option Redactor) (v : Live W) → IsOvertaken v → IsOvertaken (share_redactor x r v)
    kept-share_redactor none v o = o
    kept-share_redactor (some r) v o = kept _ v o o.drift

    stale_command :
        (v : Live W) (c : Command)
        → IsOvertaken v
        → c.lease_epoch ≡ (epochs v.lease_epoch (lease_of v.site)).0
        → c.expected_epoch ≡ (epochs v.lease_epoch (lease_of v.site)).1
        → is_stale x.dispatcher c.expected_epoch c.lease_epoch ≡ true
    unfolding epochs
    stale_command v c o p q =
        let at_epochs : epochs v.lease_epoch (lease_of v.site) ≡ (e, some o.lease.epoch) =
          rw (o.held, o.has_lease) refl in
        let held : c.lease_epoch ≡ e = p ∙ ap (λ t. t.0) at_epochs in
        let current : c.expected_epoch ≡ some o.lease.epoch = q ∙ ap (λ t. t.1) at_epochs in
        let older : e < o.lease.epoch = o.older in rw (held, current) (ground arith)

    called :
        (v : Live W) (b : SessionBroker W) (now : ℕ) (id : String) (m : Escalation)
        → v.site ≡ supervised b
        → IsOvertaken v
        → IsOvertaken (record v {
          site = supervised (Broker.escalate x.dispatcher x.broker_texts b now id m).1;
        })
    called v b now id m q o =
        let same : some b.lease ≡ some o.lease = sym (ap lease_of q) ∙ o.has_lease in
        let epoch : b.lease.epoch ≡ o.lease.epoch = ground (arith, same) in
        record {
          held = o.held;
          lease = (Broker.escalate x.dispatcher x.broker_texts b now id m).1.lease;
          has_lease = refl;
          older = omega (arith, o.older, epoch, epoch-call b now id m);
          drift =
              subst (Drift before) (sym (world_of-escalate x b now id m))
                (subst (λ s. Drift before (session_of s).world) q o.drift);
        }

    Move-IsOvertaken : {v w : Live W} → Move x v w → IsOvertaken v → IsOvertaken w
    unfolding Dispatcher.observe keep_secrets capture
    Move-IsOvertaken (reads v) o = record {
      held = o.held;
      lease = o.lease;
      has_lease = o.has_lease;
      older = o.older;
      drift = o.drift;
    }
    Move-IsOvertaken (settles v n) o = kept _ v o (by_itself o.drift n)
    Move-IsOvertaken (looks v) o = kept _ v o o.drift
    Move-IsOvertaken (notes v event epoch payload h) o = kept _ v o o.drift
    Move-IsOvertaken (captures v host label noted c reason seen) o = kept _ v o o.drift
    Move-IsOvertaken (masks v keys) o = kept _ v o o.drift
    Move-IsOvertaken (resolves v next) o =
        kept-share_redactor (redactor_of next) (record v { secrets = next })
          (record {
            held = o.held;
            lease = o.lease;
            has_lease = o.has_lease;
            older = o.older;
            drift = o.drift;
          })
    Move-IsOvertaken (adopts v l p q) o = absurd (ground (arith, o.held, p))
    Move-IsOvertaken (dispatches v id c p q r s) o = kept _ v o (
        subst (Drift before)
          (sym (execute_stale id c (session_of v.site) (stale_command v c o r s))) o.drift)
    Move-IsOvertaken (calls v b now id m q) o = called v b now id m q o

    Moves-IsOvertaken : {u v : Live W} → Moves x u v → IsOvertaken u → IsOvertaken v
    Moves-IsOvertaken stay o = o
    Moves-IsOvertaken (then_move p m) o = Move-IsOvertaken m (Moves-IsOvertaken p o)

  -- A run that holds an epoch of before the lease's never acts: however it ends, the surface has
  -- changed by itself at most.
  pub run_overtaken :
      (c : Capability) (supplied : Supplied) (v : Live W) (e : ℕ) (l : Lease)
      → v.lease_epoch ≡ some e
      → lease_of v.site ≡ some l
      → e < l.epoch
      → Drift (world_of v) (world_of (run x c supplied v).1)
  run_overtaken c supplied v e l p q h =
      (Moves-IsOvertaken (world_of v) e ((run-Walks x c supplied).at v)
        (record { held = p; lease = l; has_lease = q; older = h; drift = unchanged })).drift
