-- ===== src/Replay/Wait.antt =====
-- src/cua/replay/wait.py: polling a condition up to a deadline. The surface and the clock are what the
-- loop meets: `seen n` is its observation number n, and `late n` says whether the clock's reading after
-- that poll is at the deadline. `waited_ms`, a difference of two readings, and the reason are left out.
pub mod Polling
use computer_use_automation.Base.{
  ℕ, zero, suc, String, Bool, true, false, ◌&&◌, ◌||◌, not, Option, none, some, List, [], ◌∷◌, ◌==◌,
  nat_eq, length, if◌then◌else◌,
}
use computer_use_automation.Domain.Snapshot.{UiNode, UiSnapshot, same_text}
use computer_use_automation.Domain.Text.{TextHost}
use computer_use_automation.Domain.Predicates.{Predicate, Inputs, evaluate}
use computer_use_automation.Domain.Capability.{
  WaitFor, snapshot_stable, navigation, predicate, WaitPolicy,
}

pub record WaitOutcome : Type 0 where
  pub satisfied : Bool
  pub snapshot : UiSnapshot

-- `all(... for a, b in zip(...))` of lists of one length.
same_nodes : List UiNode → List UiNode → Bool
same_nodes [] [] = true
same_nodes (a ∷ as') (b ∷ bs) =
    a.node_id == b.node_id
    && same_text a.name b.name
    && same_text a.value b.value
    && same_nodes as' bs
same_nodes _ _ = false

-- `_same`
unfoldable pub same_screen : UiSnapshot → UiSnapshot → Bool
unfolding same_nodes
same_screen left right =
    if not (left.url == right.url) || not (nat_eq (length left.nodes) (length right.nodes))
    then false
    else same_nodes left.nodes right.nodes

abbrev stable : Option UiSnapshot → UiSnapshot → Bool
stable none now = false
stable (some previous) now = same_screen previous now

abbrev moved_on : Option UiSnapshot → UiSnapshot → Bool
moved_on none now = false
moved_on (some before) now =
    not (now.url == before.url) || not (nat_eq (length now.nodes) (length before.nodes))

module _ (host : TextHost) (inputs : Inputs) where
  -- The test of one poll. A predicate wait without a predicate waits for a stable screen.
  pub condition :
      WaitFor → Option Predicate → Option UiSnapshot → Option UiSnapshot → UiSnapshot → Bool
  condition predicate (some p) before previous now = evaluate host p now inputs
  condition predicate none before previous now = stable previous now
  condition navigation until before previous now = moved_on before now
  condition snapshot_stable until before previous now = stable previous now

  -- The loop from poll `n`, for so many polls at most.
  poll_from :
      WaitPolicy
      → Option UiSnapshot
      → (ℕ → UiSnapshot)
      → (ℕ → Bool)
      → ℕ
      → ℕ
      → Option UiSnapshot
      → Option WaitOutcome
  unfolding condition
  poll_from policy before seen late zero n previous = none
  poll_from policy before seen late (suc fuel) n previous =
      let rest = poll_from policy before seen late fuel (suc n) (some (seen n)) in
      if condition policy.for_what policy.until before previous (seen n)
      then some (record { satisfied = true; snapshot = seen n })
      else if late n
      then some (record { satisfied = false; snapshot = seen n })
      else rest

  unfoldable pub wait_for :
      WaitPolicy → Option UiSnapshot → (ℕ → UiSnapshot) → (ℕ → Bool) → ℕ → Option WaitOutcome
  unfolding poll_from
  wait_for policy before seen late fuel = poll_from policy before seen late fuel 0 none
