-- ===== src/Replay/Executor/Surface.antt =====
-- src/cua/replay/executor.py: what the surface sees of a run.
use computer_use_automation.Base.{
  ℕ, String, ◌≡◌, refl, sym, ap, ◌∙◌, arith, inl, inr, false, Option, none, some, Result, ok, err,
}
use mathlib.Core.Path.{subst}
use computer_use_automation.Domain.Actor.{automation}
use computer_use_automation.Domain.Capability.{Capability}
use computer_use_automation.Evidence.Redact.{Redactor}
use computer_use_automation.Runtime.Command.{Session, Command}
use computer_use_automation.Runtime.Dispatcher as Dispatcher
use computer_use_automation.Runtime.Dispatcher.{is_stale}
use computer_use_automation.Runtime.Dispatcher.Untouched.{Acted, execute-Acted}
use computer_use_automation.Runtime.Capture.{capture}
use computer_use_automation.Hitl.Lease as Lease
use computer_use_automation.Hitl.Lease.{Lease, LeaseError}
use computer_use_automation.Hitl.Handoff.{SessionBroker, Escalation}
use computer_use_automation.Hitl.Broker as Broker
use computer_use_automation.Replay.Inputs.{Supplied}
use computer_use_automation.Replay.Executor.State.{
  ReplayExecutor, Site, alone, supervised, Live, session_of, with_session, put_session, world_of,
  lease_of,
}
use computer_use_automation.Replay.Executor.Stepping.{keep_secrets, redactor_of, share_redactor}
use computer_use_automation.Replay.Executor.Flow.{run}
use computer_use_automation.Replay.Executor.Walked.Parts.{lease_of-with_session}
use computer_use_automation.Replay.Limits.{epochs}
use computer_use_automation.Replay.Executor.Moves.{
  Move, reads, settles, looks, notes, captures, masks, resolves, adopts, dispatches, calls, Moves,
  stay, then_move,
}
use computer_use_automation.Replay.Executor.Walked.{run-Walks}

pub world_of-put_session :
    {W : Type 0} (s : Session W) (v : Live W) → world_of (put_session s v) ≡ s.world
world_of-put_session {W = W} s v = at_site v.site
  where
    at_site : (site : Site W) → (session_of (with_session s site)).world ≡ s.world
    at_site (alone old) = refl
    at_site (supervised b) = refl

module _ {W : Type 0} (x : ReplayExecutor W) where
  -- The epoch that a command carries is that of the lease, if there is a broker.
  abbrev pub IsCurrent : Command → Option Lease → Type 0
  IsCurrent c lease = (l : Lease) → lease ≡ some l → c.lease_epoch ≡ l.epoch

  -- How the surface and the broker's lease came from one state to another. Whatever else a run does
  -- leaves both; the surface changes by itself, or by an action that policy minted for a command of
  -- automation's, in the executor's session, at the epoch that the lease has then; and the lease
  -- changes where an operator is called.
  pub data Trail (u : Live W) : Live W → Type 0 where
    unchanged : Trail u u
    aside :
        {v w : Live W}
        → Trail u v
        → world_of w ≡ world_of v
        → lease_of w.site ≡ lease_of v.site
        → Trail u w
    by_itself :
        {v w : Live W} (n : ℕ)
        → Trail u v
        → world_of w ≡ x.around.settle n (world_of v)
        → lease_of w.site ≡ lease_of v.site
        → Trail u w
    by_call :
        {v w : Live W} (l called : Lease) (reason : String) (epoch : ℕ)
        → Trail u v
        → lease_of v.site ≡ some l
        → Lease.escalate l reason ≡ ok (called, epoch)
        → world_of w ≡ world_of v
        → lease_of w.site ≡ some called
        → Trail u w
    by_command :
        {v w : Live W} (id : String) (c : Command)
        → Trail u v
        → c.actor ≡ automation
        → c.session_id ≡ x.session_id
        → IsCurrent c (lease_of v.site)
        → Acted x.dispatcher id c (world_of v) (world_of w)
        → lease_of w.site ≡ lease_of v.site
        → Trail u w

  pub Trail-trans : {u v w : Live W} → Trail u v → Trail v w → Trail u w
  Trail-trans p unchanged = p
  Trail-trans p (aside t q r) = aside (Trail-trans p t) q r
  Trail-trans p (by_itself n t q r) = by_itself n (Trail-trans p t) q r
  Trail-trans p (by_call l called reason epoch t q r f g) =
      by_call l called reason epoch (Trail-trans p t) q r f g
  Trail-trans p (by_command id c t q r f g e) = by_command id c (Trail-trans p t) q r f g e

  pub world_of-share_redactor :
      (r : Option Redactor) (v : Live W) → world_of (share_redactor x r v) ≡ world_of v
  world_of-share_redactor none v = refl
  world_of-share_redactor (some r) v = world_of-put_session _ v

  pub world_of-escalate :
      (b : SessionBroker W) (now : ℕ) (id : String) (e : Escalation)
      → (Broker.escalate x.dispatcher x.broker_texts b now id e).1.session.world ≡ b.session.world
  unfolding Broker.escalate
  world_of-escalate b now id e = at_lease (Lease.escalate b.lease e.reason)
    where
      at_lease :
          (r : Result LeaseError (Lease × ℕ))
          → (Broker.escalated x.dispatcher x.broker_texts b now id e r).1.session.world
            ≡ b.session.world
      at_lease (err m) = refl
      at_lease (ok (l, epoch)) = refl

  lease_of-share_redactor :
      (r : Option Redactor) (v : Live W) → lease_of (share_redactor x r v).site ≡ lease_of v.site
  lease_of-share_redactor none v = refl
  lease_of-share_redactor (some r) v = lease_of-with_session x _ v.site

  epochs-IsCurrent :
      (held : Option ℕ) (lease : Option Lease) (c : Command)
      → c.lease_epoch ≡ (epochs held lease).0
      → c.expected_epoch ≡ (epochs held lease).1
      → is_stale x.dispatcher c.expected_epoch c.lease_epoch ≡ false
      → IsCurrent c lease
  unfolding epochs
  epochs-IsCurrent held none c p q fresh l h = absurd (ground arith)
  epochs-IsCurrent held (some now) c p q fresh l h =
      let same : now.epoch ≡ l.epoch = ap epoch_of h in
      let expected : c.expected_epoch ≡ some now.epoch = q in
      let is_now : c.lease_epoch ≡ now.epoch = of_fresh now.epoch expected in is_now ∙ same
    where
      epoch_of : Option Lease → ℕ
      epoch_of none = 0
      epoch_of (some k) = k.epoch

      of_fresh : (e : ℕ) → c.expected_epoch ≡ some e → c.lease_epoch ≡ e
      of_fresh e k = let f = rw k at fresh in ground arith

  module _ (u : Live W) where
    put_aside :
        (s : Session W) (v : Live W) → s.world ≡ world_of v → Trail u v → Trail u (put_session s v)
    put_aside s v same t =
        aside t (world_of-put_session s v ∙ same) (lease_of-with_session x s v.site)

    after_call :
        (v : Live W) (b : SessionBroker W) (now : ℕ) (id : String) (e : Escalation)
        → v.site ≡ supervised b
        → Trail u v
        → Trail u (record v {
          site = supervised (Broker.escalate x.dispatcher x.broker_texts b now id e).1;
        })
    unfolding Broker.escalate
    after_call v b now id e q t = at_lease (Lease.escalate b.lease e.reason) refl
      where
        world_then : b.session.world ≡ world_of v
        world_then = ap (λ s. (session_of s).world) (sym q)

        lease_then : some b.lease ≡ lease_of v.site
        lease_then = ap lease_of (sym q)

        at_lease :
            (r : Result LeaseError (Lease × ℕ))
            → Lease.escalate b.lease e.reason ≡ r
            → Trail u (record v {
              site = supervised (Broker.escalated x.dispatcher x.broker_texts b now id e r).1;
            })
        at_lease (err m) h = aside t world_then lease_then
        at_lease (ok (l, epoch)) h =
            by_call b.lease l e.reason epoch t (sym lease_then) h world_then refl

    after_dispatch :
        (v : Live W) (id : String) (c : Command)
        → c.actor ≡ automation
        → c.session_id ≡ x.session_id
        → c.lease_epoch ≡ (epochs v.lease_epoch (lease_of v.site)).0
        → c.expected_epoch ≡ (epochs v.lease_epoch (lease_of v.site)).1
        → Trail u v
        → Trail u (put_session (Dispatcher.execute x.dispatcher id c (session_of v.site)).1 v)
    after_dispatch v id c p q r s t =
        let done = (Dispatcher.execute x.dispatcher id c (session_of v.site)).1 in
        elim (execute-Acted x.dispatcher id c (session_of v.site)) [
          | inl same ↦ put_aside done v same t
          | inr (fresh, acted) ↦
              by_command id c t p q (epochs-IsCurrent v.lease_epoch (lease_of v.site) c r s fresh)
                (subst (Acted x.dispatcher id c (world_of v)) (sym (world_of-put_session done v))
                  acted)
                (lease_of-with_session x done v.site)
        ]

    Move-Trail : {v w : Live W} → Move x v w → Trail u v → Trail u w
    unfolding Dispatcher.observe keep_secrets capture
    Move-Trail (reads v) t = aside t refl refl
    Move-Trail (settles v n) t =
        by_itself n t (world_of-put_session _ v) (lease_of-with_session x _ v.site)
    Move-Trail (looks v) t = put_aside _ v refl t
    Move-Trail (notes v event epoch payload h) t = put_aside _ v refl t
    Move-Trail (captures v host label noted c reason seen) t = put_aside _ v refl t
    Move-Trail (masks v keys) t = put_aside _ v refl t
    Move-Trail (resolves v next) t =
        aside t (world_of-share_redactor (redactor_of next) (record v { secrets = next }))
          (lease_of-share_redactor (redactor_of next) (record v { secrets = next }))
    Move-Trail (adopts v l p q) t = aside t refl refl
    Move-Trail (dispatches v id c p q r s) t = after_dispatch v id c p q r s t
    Move-Trail (calls v b now id e q) t = after_call v b now id e q t

    pub Moves-Trail : {v w : Live W} → Moves x v w → Trail u v → Trail u w
    Moves-Trail stay t = t
    Moves-Trail (then_move p m) t = Move-Trail m (Moves-Trail p t)

  -- However a run ends, the surface has changed by itself or by actions that policy minted, and by no
  -- others: each for a command of automation's in the executor's session, permitted by policy, whose
  -- epoch was that of the broker's lease at that time, if there is a broker; and the lease has changed
  -- only where an operator was called.
  pub run-Trail :
      (c : Capability) (supplied : Supplied) (v : Live W) → Trail v (run x c supplied v).1
  run-Trail c supplied v = Moves-Trail v ((run-Walks x c supplied).at v) unchanged
