-- ===== src/Tests/Runtime.antt =====
-- src/cua/runtime/dispatcher.py on the small deployment.
use computer_use_automation.Base.{ℕ, ◌≡◌, refl, ◌⊎◌, true, false, some, [], lookup}
use computer_use_automation.Domain.Action.{target_of, action_type, url_of, is_raw_input}
use computer_use_automation.Domain.Target.{is_replay_forbidden}
use computer_use_automation.Domain.Text.{occurs_in}
use computer_use_automation.Policy.Config.{disposition_for}
use computer_use_automation.Policy.Risk.{classify, highest, semantic_tier}
use computer_use_automation.Targeting.Resolver.{resolve_with_drift, resolve, ladder, generator_of}
use computer_use_automation.Policy.Engine.{authorize}
use computer_use_automation.Evidence.Bus.{unauthorized_dispatches}
use computer_use_automation.Evidence.Bus.Reconcile.{IsReconciled}
use computer_use_automation.Runtime.Dispatcher.{execute, is_stale, landing, destinations, attempt}
use computer_use_automation.Runtime.Dispatcher.Untouched.{Acted, execute-Acted}
use computer_use_automation.Runtime.Dispatcher.Reconciled.{execute-IsReconciled}
use computer_use_automation.Tests.Data.{
  setup, session, save_command, fresh, texts, click_save, submit_click,
}
use computer_use_automation.Domain.Actor.{human}
use computer_use_automation.Policy.Allowlist.{check, allowed}
use computer_use_automation.Hitl.Lease.{human_control, held_by}
use computer_use_automation.Hitl.Broker.{human_action, confirm_action}
use computer_use_automation.Hitl.Handoff.{SessionBroker}
use computer_use_automation.Hitl.Broker.Policed.{command, human_action-Acted, confirm_action-Acted}
use computer_use_automation.Runtime.Entrypoint.{open_entrypoint, open_entrypoint_allowed}

-- The click reaches the surface.
save_reaches : (execute setup "d1" save_command session).1.world ≡ 1
unfolding execute target_of resolve_with_drift resolve ladder generator_of authorize landing
    destinations is_replay_forbidden action_type attempt url_of disposition_for classify highest
    lookup semantic_tier occurs_in is_raw_input
save_reaches = refl

execute-Acted_example :
    ((execute setup "d1" save_command session).1.world ≡ session.world)
    ⊎ ((is_stale setup save_command.expected_epoch save_command.lease_epoch ≡ false)
        × Acted setup "d1" save_command session.world
            (execute setup "d1" save_command session).1.world)
execute-Acted_example = execute-Acted setup "d1" save_command session

execute-IsReconciled_example :
    IsReconciled (execute setup "d1" save_command session).1.evidence.trace
unfolding unauthorized_dispatches
execute-IsReconciled_example = execute-IsReconciled setup "d1" save_command session refl

open_entrypoint_allowed_example :
    ((open_entrypoint setup "d1" "s" "https://app.test/form" session).1.world ≡ session.world)
    ⊎ (check setup.host.url setup.policy.allowlist [] "https://app.test/form" ≡ allowed)
open_entrypoint_allowed_example =
    open_entrypoint_allowed setup "d1" "s" "https://app.test/form" session

-- A person who has claimed the session.
abbrev claimed_broker : SessionBroker ℕ
claimed_broker = record fresh {
  lease = record fresh.lease {
    holder = human;
    state = human_control;
    epoch = 3;
    operator = some "ann";
    expires_at = some 100;
  };
}

human_action-Acted_example :
    ((human_action setup texts claimed_broker 50 "d1" click_save).1.session.world
      ≡ claimed_broker.session.world)
    ⊎ ((claimed_broker.lease.state ≡ human_control)
        × (held_by claimed_broker.lease 50 human claimed_broker.lease.epoch ≡ true)
        × Acted setup "d1"
            (command setup texts claimed_broker "d1" click_save false)
            claimed_broker.session.world
            (human_action setup texts claimed_broker 50 "d1" click_save).1.session.world)
human_action-Acted_example = human_action-Acted setup texts claimed_broker "d1" click_save 50

confirm_action-Acted_example :
    ((confirm_action setup texts claimed_broker 50 "d1" submit_click).1.session.world
      ≡ claimed_broker.session.world)
    ⊎ ((held_by claimed_broker.lease 50 human claimed_broker.lease.epoch ≡ true)
        × Acted setup "d1"
            (command setup texts claimed_broker "d1" submit_click true)
            claimed_broker.session.world
            (confirm_action setup texts claimed_broker 50 "d1" submit_click).1.session.world)
confirm_action-Acted_example = confirm_action-Acted setup texts claimed_broker "d1" submit_click 50
