-- ===== src/Runtime/Entrypoint.antt =====
-- src/cua/runtime/dispatcher.py: putting a session on an entry URL, through `execute`. The messages of
-- its two exceptions are left out.
use computer_use_automation.Base.{
  String, ◌≡◌, ◌⊎◌, inl, inr, Bool, true, false, not, Option, none, some, [], if◌then◌else◌,
}
use computer_use_automation.Domain.Actor.{automation}
use computer_use_automation.Domain.Snapshot.{UiSnapshot}
use computer_use_automation.Domain.Action.{navigate, url_of}
use computer_use_automation.Domain.Result.{FailureCode, navigation_blocked_code, policy_denied}
use computer_use_automation.Policy.Allowlist.{allowed, check}
use computer_use_automation.Runtime.Dispatcher.{observe, execute, attempt}
use computer_use_automation.Runtime.Command.{
  Setup, Session, Command, DispatchOutcome, DispatchStatus, done,
}
use computer_use_automation.Runtime.Dispatcher.Untouched.{execute-Acted}

pub data EntryError : Type 0 where
  -- `NavigationBlockedError`, `EntrypointUnreachableError`, and the `ValueError` out of `execute`
  navigation_blocked entrypoint_unreachable entry_raised : EntryError

-- `outcome.failure_code in (NAVIGATION_BLOCKED, POLICY_DENIED)`
abbrev is_blocked : Option FailureCode → Bool
is_blocked (some navigation_blocked_code) = true
is_blocked (some policy_denied) = true
is_blocked _ = false

abbrev is_done : DispatchStatus → Bool
is_done done = true
is_done _ = false

entry_error : Option DispatchOutcome → Option EntryError
entry_error none = some entry_raised
entry_error (some o) =
    if is_blocked o.failure_code
    then some navigation_blocked
    else if not (is_done o.status)
    then some entrypoint_unreachable
    else none

unfoldable pub entry_command : String → String → UiSnapshot → Command
entry_command session_id url seen = record {
  action = record { risk = none; operation = navigate url };
  snapshot = seen;
  actor = automation;
  session_id = session_id;
  lease_epoch = 0;
  expected_epoch = none;
  capability = none;
  declared_risk = none;
  confirmed = false;
  grant = none;
}

module _ {W : Type 0} (d : Setup W) where
  -- None is a return without an exception.
  unfoldable pub open_entrypoint :
      String → String → String → Session W → Option EntryError × Session W
  unfolding entry_error entry_command
  open_entrypoint id session_id url s =
      let (seen, looked) = observe d s in
      let (outcome, after) = execute d id (entry_command session_id url seen) looked in
      (entry_error outcome, after)

  -- Opening an entry URL leaves the surface as it was, or the deployment's allowlist allows that URL.
  pub open_entrypoint_allowed :
      (id session_id url : String) (s : Session W)
      → ((open_entrypoint id session_id url s).1.world ≡ s.world)
        ⊎ (check d.host.url d.policy.allowlist [] url ≡ allowed)
  unfolding open_entrypoint entry_command attempt url_of observe
  open_entrypoint_allowed id session_id url s =
      elim (execute-Acted d id (entry_command session_id url (observe d s).0) (observe d s).1) [
        | inl same ↦ inl same
        | inr (fresh, acted) ↦ inr acted.permitted.destination
      ]
