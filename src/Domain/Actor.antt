-- ===== src/Domain/Actor.antt =====
-- src/cua/domain/actor.py: who originates an action.
use computer_use_automation.Base.{Bool, true, false}

pub data Actor : Type 0 where
  automation human system : Actor

-- `a is b` on two members of the enumeration.
abbrev pub is_actor : Actor → Actor → Bool
is_actor automation automation = true
is_actor human human = true
is_actor system system = true
is_actor _ _ = false
