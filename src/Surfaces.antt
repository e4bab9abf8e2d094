-- ===== src/Surfaces.antt =====
-- src/cua/surfaces/base.py: what the dispatcher sees of a surface. `W` is the state of the surface.
use computer_use_automation.Base.{ℕ, String, Bool, Option, List}
use computer_use_automation.Domain.Action.{Action}
use computer_use_automation.Domain.Snapshot.{UiNode, UiSnapshot}
use computer_use_automation.Policy.Engine.{AuthorizedAction}

pub record ActionResult : Type 0 where
  pub ok_done : Bool
  pub navigated : Bool
  pub landed_urls : List String
  pub refused_navigations : List String
  pub http_status : Option ℕ
  pub message : String
  pub duration_ms : ℕ

-- `gesture_target` is `Dispatcher._raw_input_target`, whose hit test reads the driver's geometry.
pub record SurfaceDriver (W : Type 0) : Type 0 where
  pub dispatch : AuthorizedAction → W → ActionResult × W
  pub observe : W → UiSnapshot
  pub session_url : W → String
  pub gesture_target : Action → UiSnapshot → W → Option UiNode
