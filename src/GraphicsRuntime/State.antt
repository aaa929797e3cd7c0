-- ===== src/GraphicsRuntime/State.antt =====
-- The state of `GraphicsRuntime`, `GraphicsRuntime::new`, and the steps its methods share.
use sher_graphics.Base.{ℕ, Bool, false, String, Option, none, []}
use sher_graphics.Base.Int.{ℤ, pos}
use sher_graphics.Map.{Map, get}
use sher_graphics.Result.{Result, Error, Action, ok_or}
use sher_graphics.Kernel.{ObjectId, Platform}
use sher_graphics.GraphicsApi.{GraphicsDevice, Resource, ShaderModule, Pipeline}
use sher_graphics.GpuAbstraction.{GpuDriver}

pub record CursorState : Type 0 where
  pub image : Option ObjectId
  pub position : ℤ × ℤ
  pub visible : Bool

-- `CursorState::default()`
abbrev pub default_cursor : CursorState
default_cursor = record { image = none; position = (pos 0, pos 0); visible = false }

pub record GraphicsRuntime (K : Platform) (D : GpuDriver) : Type 0 where
  pub driver : D.Driver
  pub devices : Map GraphicsDevice
  pub device_caps : Map K.CapabilitySet
  pub resources : Map Resource
  pub shaders : Map ShaderModule
  pub pipelines : Map Pipeline
  pub timelines : Map ℕ
  -- `PresentationBridge`, whose one field is the display driver.
  pub presentation : K.Display
  pub audit : K.AuditLog
  pub cursors : Map CursorState

module _ (K : Platform) (D : GpuDriver) where
  unfoldable pub new : D.Driver → ℕ → GraphicsRuntime K D
  new driver presentation_vram_bytes = record {
    driver = driver;
    devices = [];
    device_caps = [];
    resources = [];
    shaders = [];
    pipelines = [];
    timelines = [];
    presentation = K.new_display presentation_vram_bytes;
    audit = K.empty_log;
    cursors = [];
  }

module _ {K : Platform} {D : GpuDriver} where
  -- `self.device(id)`
  unfoldable pub device : ObjectId → GraphicsRuntime K D → Result GraphicsDevice
  device id rt = ok_or (get id rt.devices) (Error.device "unknown graphics device")

  -- `self.audit.log(actor, action, result)`
  unfoldable pub log : ObjectId → String → Bool → GraphicsRuntime K D → GraphicsRuntime K D
  log actor action result rt = record rt { audit = K.log rt.audit actor action result }

  unfoldable pub audit_log : GraphicsRuntime K D → K.AuditLog
  audit_log rt = rt.audit

  -- A call of a method of the driver.
  abbrev pub on_driver : {A : Type 0} → Action D.Driver A → Action (GraphicsRuntime K D) A
  on_driver m rt = let (r, d) = m rt.driver in (r, record rt { driver = d })

  -- A call of a method of the display driver.
  abbrev pub on_display : {A : Type 0} → Action K.Display A → Action (GraphicsRuntime K D) A
  on_display m rt = let (r, p) = m rt.presentation in (r, record rt { presentation = p })
