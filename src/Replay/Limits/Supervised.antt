-- ===== src/Replay/Limits/Supervised.antt =====
-- src/cua/replay/executor.py: the questions that a supervised run asks are the lease's own.
use computer_use_automation.Base.{ℕ, ◌≡◌, ◌↔◌, true, false, Option, none, some, arith}
use computer_use_automation.Domain.Actor.{automation}
use computer_use_automation.Hitl.Lease.{Lease, held_by}
use computer_use_automation.Replay.Limits.{epochs, lease_available}
use computer_use_automation.Runtime.Command.{Setup}
use computer_use_automation.Runtime.Dispatcher.{is_stale}

-- Under a broker, automation is available and the dispatcher does not find the run's epoch stale,
-- exactly when automation holds the lease at that epoch.
pub lease_available-iff-held_by :
    {W : Type 0} (d : Setup W) (l : Lease) (now : ℕ) (held : Option ℕ)
    → ((lease_available (some l) now ≡ none)
        × (is_stale d ((epochs held (some l)).1) ((epochs held (some l)).0) ≡ false))
      ↔ (held_by l now automation ((epochs held (some l)).0) ≡ true)
unfolding lease_available held_by epochs
lease_available-iff-held_by d l now held = ground arith
