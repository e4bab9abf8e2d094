-- ===== src/Domain/Capability.antt =====
-- src/cua/domain/capability.py: the artifact that a run executes, with `ValueType` of values.py. Left
-- out are the fields that no modelled operation reads: most texts for people, the surface, provenance.
pub mod Summary
use computer_use_automation.Base.{ℕ, String, Bool, ◌&&◌, not, Option, List, ◌==◌}
use computer_use_automation.Domain.Predicates.{Predicate, ValueExpr}
use computer_use_automation.Domain.Action.{Action, ActionRisk}
use computer_use_automation.Domain.Result.{FailureCode}

pub data ValueType : Type 0 where
  string integer number boolean money date enumeration : ValueType

-- The fields that the check of the arguments and the masking read.
pub record InputSpec : Type 0 where
  pub name : String
  pub value_type : ValueType
  pub required : Bool
  pub pattern' : Option String
  pub enum : Option (List String)
  pub default : Option ValueExpr
  pub sensitive : Bool

pub record OutputSpec : Type 0 where
  pub name : String
  pub value_type : ValueType
  pub sensitive : Bool

pub data WaitFor : Type 0 where
  snapshot_stable navigation predicate : WaitFor

pub record WaitPolicy : Type 0 where
  pub for_what : WaitFor
  pub timeout_ms : ℕ
  pub until : Option Predicate

pub record Step : Type 0 where
  pub id : String
  pub action : Action
  pub precondition : Option Predicate
  pub wait : WaitPolicy
  pub postcondition : Option Predicate
  pub risk : ActionRisk

pub record Outcome : Type 0 where
  pub code : String
  pub detect : Predicate
  pub terminal : Bool
  pub returns : List (String × ValueExpr)

pub data Backoff : Type 0 where
  no_backoff linear exponential : Backoff

pub data RecoveryScope : Type 0 where
  any_step named_steps : RecoveryScope

pub data Remedy : Type 0 where
  perform : Action → Remedy
  run_capability : String → List (String × ValueExpr) → Remedy

pub record RecoveryRule : Type 0 where
  pub id : String
  pub detect : Predicate
  pub remedy : List Remedy
  pub max_attempts : ℕ
  pub backoff : Backoff
  pub scope : RecoveryScope
  pub steps : List String

pub data EscalationDisposition : Type 0 where
  pause_and_request_human fail_closed : EscalationDisposition

pub record EscalationPolicy : Type 0 where
  pub triggers : List FailureCode
  pub disposition : EscalationDisposition

pub record CapabilityPolicy : Type 0 where
  pub allowed_domains : List String
  pub allowed_actions : List String
  pub max_steps : ℕ
  pub max_duration_ms : ℕ

pub record Capability : Type 0 where
  pub id : String
  pub version : String
  pub title : String
  pub description : String
  pub entrypoint : String
  pub inputs : List InputSpec
  pub outputs : List OutputSpec
  pub steps : List Step
  pub checkpoint : Predicate
  pub outcomes : List Outcome
  pub recovery : List RecoveryRule
  pub escalation : EscalationPolicy
  pub policy : CapabilityPolicy
  pub content_hash : String

-- `bool(text)`
abbrev pub is_set : String → Bool
is_set text = not (text == "")

-- `hash_is_valid`, over `compute_hash`: a SHA-256 of the canonical JSON form.
unfoldable pub hash_is_valid : (Capability → String) → Capability → Bool
hash_is_valid compute_hash c = is_set c.content_hash && c.content_hash == compute_hash c
