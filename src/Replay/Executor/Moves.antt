-- ===== src/Replay/Executor/Moves.antt =====
-- src/cua/replay/executor.py: the moves that a run is made of, whatever happens around it.
use computer_use_automation.Base.{
  ℕ, suc, String, Bool, true, false, Option, none, some, List, ◌≡◌, if◌then◌else◌,
}
use computer_use_automation.Domain.Actor.{automation}
use computer_use_automation.Domain.Snapshot.{UiSnapshot}
use computer_use_automation.Domain.Capability.{Capability}
use computer_use_automation.Policy.Secrets.{SecretResolver}
use computer_use_automation.Evidence.Json.{Fields}
use computer_use_automation.Evidence.Bus.{EventType, is_dispatch, emit}
use computer_use_automation.Runtime.Command.{Command}
use computer_use_automation.Runtime.Dispatcher as Dispatcher
use computer_use_automation.Runtime.Capture.{CaptureHost, capture}
use computer_use_automation.Hitl.Lease.{Lease}
use computer_use_automation.Hitl.Handoff.{SessionBroker, Escalation}
use computer_use_automation.Hitl.Broker as Broker
use computer_use_automation.Replay.Limits.{epochs}
use computer_use_automation.Replay.Executor.State.{
  ReplayExecutor, supervised, Live, M, ◌>>=◌, continue_with, return, raise, out_of_rounds, Exit,
  value, raised, unfinished, session_of, put_session, lease_of, evidence_of, put_evidence, settled,
}
use computer_use_automation.Replay.Executor.Stepping.{keep_secrets}

module _ {W : Type 0} (x : ReplayExecutor W) where
  -- One move. A command is dispatched by automation, in the executor's session, at the epoch that the
  -- run holds, against the epoch that the lease has.
  pub data Move : Live W → Live W → Type 0 where
    reads : (v : Live W) → Move v (record v { readings = suc v.readings })
    settles : (v : Live W) (n : ℕ) → Move v (settled x n v)
    looks :
        (v : Live W)
        → Move v (put_session (Dispatcher.observe x.dispatcher (session_of v.site)).1 v)
    notes :
        (v : Live W) (event : EventType) (epoch : ℕ) (payload : Fields)
        → is_dispatch event ≡ false
        → Move v (
            put_evidence
              (emit x.dispatcher.redaction (evidence_of v) event automation epoch payload)
              v)
    captures :
        (v : Live W) (host : CaptureHost W) (label noted : String) (c : Capability)
        (reason : String) (seen : UiSnapshot)
        → Move v (
            put_session
              (capture host x.dispatcher.redaction label noted c reason seen (session_of v.site)).1
              v)
    masks :
        (v : Live W) (keys : List String)
        → Move v (put_evidence (record (evidence_of v) { sensitive_keys = keys }) v)
    resolves : (v : Live W) (next : Option SecretResolver) → Move v (keep_secrets x next v).1
    adopts :
        (v : Live W) (l : Lease)
        → v.lease_epoch ≡ none
        → lease_of v.site ≡ some l
        → Move v (record v { lease_epoch = some l.epoch })
    dispatches :
        (v : Live W) (id : String) (c : Command)
        → c.actor ≡ automation
        → c.session_id ≡ x.session_id
        → c.lease_epoch ≡ (epochs v.lease_epoch (lease_of v.site)).0
        → c.expected_epoch ≡ (epochs v.lease_epoch (lease_of v.site)).1
        → Move v (put_session (Dispatcher.execute x.dispatcher id c (session_of v.site)).1 v)
    calls :
        (v : Live W) (b : SessionBroker W) (now : ℕ) (id : String) (e : Escalation)
        → v.site ≡ supervised b
        → Move v (record v {
          site = supervised (Broker.escalate x.dispatcher x.broker_texts b now id e).1;
        })

  pub data Moves (u : Live W) : Live W → Type 0 where
    stay : Moves u u
    then_move : {v w : Live W} → Moves u v → Move v w → Moves u w

  pub Moves-trans : {u v w : Live W} → Moves u v → Moves v w → Moves u w
  Moves-trans p stay = p
  Moves-trans p (then_move q m) = then_move (Moves-trans p q) m

  pub Moves-single : {u v : Live W} → Move u v → Moves u v
  Moves-single m = then_move stay m

  -- A call that only makes moves, however it ends.
  pub record Walks {A : Type 0} (m : M W A) : Type 0 where
    pub at : (v : Live W) → Moves v (m v).1

  pub Walks-return : {A : Type 0} (a : A) → Walks (return a)
  Walks-return a = record { at = λ v. stay }

  pub Walks-raise : {A : Type 0} → Walks (raise {A = A})
  Walks-raise = record { at = λ v. stay }

  pub Walks-out_of_rounds : {A : Type 0} → Walks (out_of_rounds {A = A})
  Walks-out_of_rounds = record { at = λ v. stay }

  pub Moves-continue :
      {A B : Type 0} (f : A → M W B) (u : Live W) (r : Exit A × Live W)
      → ((a : A) → Walks (f a))
      → Moves u r.1
      → Moves u (continue_with f r).1
  Moves-continue f u (value a, v) walk p = Moves-trans p ((walk a).at v)
  Moves-continue f u (raised, v) walk p = p
  Moves-continue f u (unfinished, v) walk p = p

  pub Walks-bind :
      {A B : Type 0} (m : M W A) (f : A → M W B)
      → Walks m
      → ((a : A) → Walks (f a))
      → Walks (m >>= f)
  Walks-bind m f p walk = record { at = λ v. Moves-continue f v (m v) walk (p.at v) }

  pub Walks-if :
      {A : Type 0} (b : Bool) (m n : M W A) → Walks m → Walks n → Walks (if b then m else n)
  Walks-if true m n p q = p
  Walks-if false m n p q = q
