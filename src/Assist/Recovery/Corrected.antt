-- ===== src/Assist/Recovery/Corrected.antt =====
-- src/cua/assist/recovery.py: what the surface sees of an assisted replay.
use computer_use_automation.Base.{ℕ, String, false, ◌≡◌, none, some}
use computer_use_automation.Domain.Actor.{automation}
use computer_use_automation.Domain.Snapshot.{UiSnapshot}
use computer_use_automation.Domain.Action.{Action}
use computer_use_automation.Domain.Capability.{Capability}
use computer_use_automation.Runtime.Command.{Command}
use computer_use_automation.Runtime.Dispatcher as Dispatcher
use computer_use_automation.Runtime.Dispatcher.Untouched.{Acted}
use computer_use_automation.Replay.Inputs.{Supplied}
use computer_use_automation.Replay.Result.{RunResult}
use computer_use_automation.Replay.Executor.State.{
  Live, Exit, value, raised, unfinished, M, ◌>>=◌, dispatch, world_of, observe, lease_of,
}
use computer_use_automation.Replay.Executor.Flow.{run}
use computer_use_automation.Replay.Executor.Surface.{Trail}
use computer_use_automation.Assist.Recovery.Answered.{IsCorrective}
use computer_use_automation.Assist.Recovery.{
  AssistOutcome, AssistedReplay, correction, after_correction,
}

module _ {W : Type 0} (a : AssistedReplay W) where
  -- A command of automation's, in the assist's session, with neither a confirmation nor a grant.
  abbrev pub plain_command : Capability → Action → UiSnapshot → Command
  plain_command c action seen = record {
    action = action;
    snapshot = seen;
    actor = automation;
    session_id = a.session_id;
    lease_epoch = a.lease_epoch;
    expected_epoch = none;
    capability = some c;
    declared_risk = none;
    confirmed = false;
    grant = none;
  }

  -- How the surface and the lease came from one state to another: by what replays do; or the replay ran
  -- to its result, and after it, between what replays do, the surface saw one action that policy
  -- permitted, the one that the model chose when asked about that result, on the page as it was then.
  -- Only an assist that has not been attempted has such an action.
  pub data Course (o : AssistOutcome) (c : Capability) (supplied : Supplied) (u : Live W)
      : Live W → Type 0 where
    replayed : {w : Live W} → Trail a.executor u w → Course o c supplied u w
    corrected :
        {v w next after : Live W} (r : RunResult) (id : String) (action : Action)
        → o.attempted ≡ false
        → run a.executor c supplied u ≡ (value r, v)
        → Trail a.executor u v
        → IsCorrective a c r v action
        → Trail a.executor v w
        → Acted a.executor.dispatcher id
            (plain_command c action (a.executor.dispatcher.driver.observe (world_of w)))
            (world_of w)
            (world_of next)
        → lease_of next.site ≡ lease_of w.site
        → Trail a.executor next after
        → Course o c supplied u after

  module _ (o : AssistOutcome) (c : Capability) (supplied : Supplied) (u : Live W) where
    -- A call that replays at most.
    record Keeps {A : Type 0} (m : M W A) : Type 0 where
      at : (v : Live W) → Course o c supplied u v → Course o c supplied u (m v).1

    -- What is looked at is the surface as it is then.
    IsSeen : Exit UiSnapshot × Live W → Type 0
    IsSeen (value seen, w) = seen ≡ a.executor.dispatcher.driver.observe (world_of w)
    IsSeen (raised, w) = Unit
    IsSeen (unfinished, w) = Unit

    -- After the replay ran to its result.
    module _ (r : RunResult) (v : Live W) (fresh : o.attempted ≡ false)
        (ran : run a.executor c supplied u ≡ (value r, v)) (first : Trail a.executor u v) where
      abbrev act_on : ℕ → Action → AssistOutcome → UiSnapshot → M W (RunResult × AssistOutcome)
      act_on failed action q seen = dispatch a.executor (correction a c action seen) >>= λ d.
          after_correction a q c supplied r failed d
