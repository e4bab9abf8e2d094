-- ===== src/Replay/Executor/State.antt =====
-- src/cua/replay/executor.py: what an executor is made of, and what a run changes. The dispatcher, the
-- evidence and the secrets' redactor of a supervised run are those of its broker, as
-- src/cua/runtime/wiring.py and cli/main.py connect them.
use computer_use_automation.Base.{ℕ, suc, String, Bool, Option, none, some, List, [], ◌∷◌}
use Prim.Native.Nat.{◌/◌, ◌-◌}
use computer_use_automation.Domain.Actor.{automation}
use computer_use_automation.Domain.Snapshot.{UiSnapshot}
use computer_use_automation.Domain.Text.{TextHost}
use computer_use_automation.Domain.Predicates.{Predicate, Inputs}
use computer_use_automation.Domain.Capability.{Capability}
use computer_use_automation.Domain.Approval.{CapabilityApproval}
use computer_use_automation.Domain.Binding.{AppliedBinding}
use computer_use_automation.Policy.Config.{ReplayGates}
use computer_use_automation.Policy.Irreversible.{IrreversibleGrant}
use computer_use_automation.Policy.Secrets.{SecretResolver, SecretHost}
use computer_use_automation.Evidence.Json.{Json, Fields}
use computer_use_automation.Evidence.Bus.{EvidenceBus, EventType, emit}
use computer_use_automation.Runtime.Command.{Setup, Session, Command, DispatchOutcome}
use computer_use_automation.Runtime.Dispatcher as Dispatcher
use computer_use_automation.Runtime.Capture.{CaptureHost}
use computer_use_automation.Hitl.Lease.{Lease}
use computer_use_automation.Hitl.Handoff.{SessionBroker, BrokerTexts}
use computer_use_automation.Replay.Inputs.{InputHost, Supplied}
use computer_use_automation.Replay.Transforms.{CharHost}
use computer_use_automation.Replay.Limits.{Ceilings, RunClock}
use computer_use_automation.Replay.Result.{Why}

-- What the executor formats for people and for the evidence.
pub record RunTexts : Type 0 where
  pub message : Why → String
  pub describe : Predicate → String
  pub drift : ℕ × ℕ → Json
  pub supplied : Supplied → Json
  pub sorted : List String → List String
  pub run_dir : String

-- What happens around a run: the readings of the two clocks, in microseconds, the ids drawn, what the
-- surface does by itself before a reading, and after how many polls a wait's deadline has passed. A
-- reading is known by its number.
pub record Surroundings (W : Type 0) : Type 0 where
  pub monotonic : ℕ → ℕ
  pub utc_now : ℕ → ℕ
  pub new_id : ℕ → String
  pub settle : ℕ → W → W
  pub polls_for : ℕ → ℕ → ℕ

-- The fields of `ReplayExecutor` that a run leaves alone, with what they need from outside. The hosts
-- stand for Python's library.
pub record ReplayExecutor (W : Type 0) : Type 0 where
  pub dispatcher : Setup W
  pub text_host : TextHost
  pub input_host : InputHost
  pub secret_host : SecretHost
  pub char_host : CharHost
  pub capture : Option (CaptureHost W)
  pub approval : Option CapabilityApproval
  pub allow_irreversible : Bool
  pub applied_binding : Option AppliedBinding
  pub capabilities : Option (String → Option Capability)
  pub session_id : String
  pub replay_gates : ReplayGates
  pub ceilings : Ceilings
  pub max_recovery_attempts_total : ℕ
  pub broker_texts : BrokerTexts
  pub texts : RunTexts
  pub around : Surroundings W

-- Whether a broker supervises the session.
pub data Site (W : Type 0) : Type 0 where
  alone : Session W → Site W
  supervised : SessionBroker W → Site W

-- What a run changes: the session, the secrets' resolver, `lease_epoch`, and the readings so far.
pub record Live (W : Type 0) : Type 0 where
  pub site : Site W
  pub secrets : Option SecretResolver
  pub lease_epoch : Option ℕ
  pub readings : ℕ

-- `_State`, with the runs that it serves as a remedy, the nearest first.
pub record RunStart : Type 0 where
  pub capability : Capability
  pub started : ℕ

pub record RunState : Type 0 where
  pub capability : Capability
  pub run_id : String
  pub started : ℕ
  pub inputs : Inputs
  pub outputs : Inputs
  pub steps_executed : ℕ
  pub step_index : Option ℕ
  pub resolutions : ℕ
  pub drifted : ℕ
  pub recovery_attempts : ℕ
  pub strategies : List (String × ℕ)
  pub parents : List RunStart

-- A call returns a value, lets an exception out, or has run out of the rounds it was given.
pub data Exit {ℓ} (A : Type ℓ) : Type ℓ where
  value : A → Exit A
  raised : Exit A
  unfinished : Exit A

module _ {W : Type 0} where
  abbrev pub session_of : Site W → Session W
  session_of (alone s) = s
  session_of (supervised b) = b.session

  abbrev pub with_session : Session W → Site W → Site W
  with_session s (alone old) = alone s
  with_session s (supervised b) = supervised (record b { session = s })

  abbrev pub lease_of : Site W → Option Lease
  lease_of (alone s) = none
  lease_of (supervised b) = some b.lease

  abbrev pub put_session : Session W → Live W → Live W
  put_session s v = record v { site = with_session s v.site }

  abbrev pub world_of : Live W → W
  world_of v = (session_of v.site).world

  abbrev pub evidence_of : Live W → EvidenceBus
  evidence_of v = (session_of v.site).evidence

  abbrev pub put_evidence : EvidenceBus → Live W → Live W
  put_evidence e v = put_session (record (session_of v.site) { evidence = e }) v

  abbrev pub outcome_or_raise :
      Option DispatchOutcome × Session W → Live W → Exit DispatchOutcome × Live W
  outcome_or_raise (none, s) v = (raised, put_session s v)
  outcome_or_raise (some o, s) v = (value o, put_session s v)

-- A method works on the live state.
abbrev pub M : Type 0 → Type 0 → Type 0
M W A = Live W → Exit A × Live W

module _ {W A : Type 0} where
  abbrev pub continue_with : {B : Type 0} → (A → M W B) → Exit A × Live W → Exit B × Live W
  continue_with f (value a, v) = f a v
  continue_with f (raised, v) = (raised, v)
  continue_with f (unfinished, v) = (unfinished, v)

  infixl 5 ◌>>=◌ ◌>>◌
  abbrev pub ◌>>=◌ : {B : Type 0} → M W A → (A → M W B) → M W B
  ◌>>=◌ m f v = continue_with f (m v)

  abbrev pub ◌>>◌ : {B : Type 0} → M W A → M W B → M W B
  m >> k = m >>= λ _. k

  abbrev pub return : A → M W A
  return a v = (value a, v)

  abbrev pub raise : M W A
  raise v = (raised, v)

  abbrev pub out_of_rounds : M W A
  out_of_rounds v = (unfinished, v)

module _ {W : Type 0} (x : ReplayExecutor W) where
  -- The number of this reading.
  abbrev pub next_reading : M W ℕ
  next_reading v = (value v.readings, record v { readings = suc v.readings })

  unfoldable pub read_clock : M W ℕ
  read_clock = do n ← next_reading; return (x.around.monotonic n)

  unfoldable pub draw_id : M W String
  draw_id = do n ← next_reading; return (x.around.new_id n)

  -- `self.evidence.emit`
  unfoldable pub note : EventType → ℕ → Fields → M W (Unit {0})
  note event epoch payload v = (
    value tt,
    put_evidence (emit x.dispatcher.redaction (evidence_of v) event automation epoch payload) v,
  )

  unfoldable pub set_sensitive_keys : List String → M W (Unit {0})
  set_sensitive_keys keys v =
      (value tt, put_evidence (record (evidence_of v) { sensitive_keys = keys }) v)

  abbrev pub settled : ℕ → Live W → Live W
  settled n v =
      put_session (record (session_of v.site) { world = x.around.settle n (world_of v) }) v

  abbrev pub look : Live W → Exit UiSnapshot × Live W
  look v =
      let (seen, s) = Dispatcher.observe x.dispatcher (session_of v.site) in
      (value seen, put_session s v)

  -- `self.dispatcher.observe()`: the surface may have changed by itself.
  unfoldable pub observe : M W UiSnapshot
  observe = do n ← next_reading; λ v. look (settled n v)

  -- `self.dispatcher.execute(...)`
  unfoldable pub dispatch : Command → M W DispatchOutcome
  dispatch c = do
    n ← next_reading
    λ v.
        outcome_or_raise (Dispatcher.execute x.dispatcher (x.around.new_id n) c (session_of v.site))
          v

  -- `_grant`
  abbrev pub grant_of : IrreversibleGrant
  grant_of = record {
    approval = x.approval;
    caller_opt_in = x.allow_irreversible;
    applied_binding = x.applied_binding;
  }

-- `elapsed_ms`
abbrev pub elapsed_ms : ℕ → ℕ → ℕ
elapsed_ms started now = (now - started) / 1000

unfoldable pub clocks_of : ℕ → List RunStart → List RunClock
clocks_of now [] = []
clocks_of now (p ∷ ps) =
    record { capability = p.capability; elapsed = elapsed_ms p.started now } ∷ clocks_of now ps
