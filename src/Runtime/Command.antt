-- ===== src/Runtime/Command.antt =====
-- src/cua/runtime/dispatcher.py: what a `Dispatcher` is made of, what `execute` is given, and what it
-- returns. The texts of messages are left out of an outcome; they are in the decision, the resolution
-- error or the result that it carries.
use computer_use_automation.Base.{ℕ, String, Bool, Option}
use computer_use_automation.Domain.Actor.{Actor}
use computer_use_automation.Domain.Snapshot.{UiSnapshot}
use computer_use_automation.Domain.Action.{Action, ActionRisk}
use computer_use_automation.Domain.Capability.{Capability}
use computer_use_automation.Domain.Result.{FailureCode}
use computer_use_automation.Policy.Config.{PolicyConfig}
use computer_use_automation.Policy.Irreversible.{IrreversibleGrant}
use computer_use_automation.Policy.Engine.{PolicyHost, PolicyDecision}
use computer_use_automation.Targeting.Resolver.{
  Strategies, TargetResolver, Resolution, TargetResolutionError,
}
use computer_use_automation.Evidence.Redact.{RedactHost}
use computer_use_automation.Evidence.Bus.{EvidenceBus}
use computer_use_automation.Surfaces.{ActionResult, SurfaceDriver}
use computer_use_automation.Runtime.Payloads.{Printer}

pub data DispatchStatus : Type 0 where
  done unresolved denied needs_confirmation failed lease_lost : DispatchStatus

pub record DispatchOutcome : Type 0 where
  pub status : DispatchStatus
  pub decision : Option PolicyDecision
  pub resolution : Option Resolution
  pub result : Option ActionResult
  pub drifted : Bool
  pub failure_code : Option FailureCode
  pub resolution_debug : Option TargetResolutionError

-- The parts of a `Dispatcher`, and what they need from outside.
pub record Setup (W : Type 0) : Type 0 where
  pub driver : SurfaceDriver W
  pub policy : PolicyConfig
  pub host : PolicyHost
  pub strategies : Strategies
  pub resolver : TargetResolver
  pub redaction : RedactHost
  pub printer : Printer

-- What a dispatch changes: the surface and the evidence.
pub record Session (W : Type 0) : Type 0 where
  pub world : W
  pub evidence : EvidenceBus

-- The arguments of `execute`.
pub record Command : Type 0 where
  pub action : Action
  pub snapshot : UiSnapshot
  pub actor : Actor
  pub session_id : String
  pub lease_epoch : ℕ
  pub expected_epoch : Option ℕ
  pub capability : Option Capability
  pub declared_risk : Option ActionRisk
  pub confirmed : Bool
  pub grant : Option IrreversibleGrant
