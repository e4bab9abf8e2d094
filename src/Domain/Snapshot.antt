-- ===== src/Domain/Snapshot.antt =====
-- src/cua/domain/snapshot.py: one observation of a surface. A node's `bounds`, which no modelled
-- operation reads, and the snapshot's id and capture time are left out.
pub mod Tree
use computer_use_automation.Base.{ℕ, String, Bool, true, false, Option, none, some, List, ◌==◌}

pub record NodeScope : Type 0 where
  pub frame : Option String
  pub region : Option String

pub record UiNode : Type 0 where
  pub node_id : String
  pub role : String
  pub name : Option String
  pub value : Option String
  pub states : List String
  pub scope : NodeScope
  pub parent_id : Option String
  pub child_ids : List String
  pub hints : List (String × String)
  pub fingerprint : String

pub record UiSnapshot : Type 0 where
  pub url : String
  pub title : String
  pub nodes : List UiNode
  pub http_status : Option ℕ

-- `a == b` on two optional texts.
abbrev pub same_text : Option String → Option String → Bool
same_text none none = true
same_text (some a) (some b) = a == b
same_text _ _ = false
