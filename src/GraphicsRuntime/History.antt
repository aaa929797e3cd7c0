-- ===== src/GraphicsRuntime/History.antt =====
-- Histories of calls on `GraphicsRuntime`, with what `driver_mut` lets an administrator do.
pub mod Timelines
pub mod Tables
pub mod Security
pub mod Audit
pub mod Failures
use sher_graphics.Base.{ℕ, ◌≡◌, Bool, String, Option, none, some, List, [], ◌∷◌}
use sher_graphics.Base.Int.{ℤ}
use sher_graphics.Map.{get}
use sher_graphics.Result.{Result, Action}
use sher_graphics.Kernel.{ObjectId, Platform}
use sher_graphics.GraphicsApi.{
  WorkloadClass, MemoryClass, ResourceKind, ShaderStage, QueueHandle, CommandStream,
}
use sher_graphics.GpuAbstraction.{GpuDriver}
use sher_graphics.GraphicsRuntime.State.{GraphicsRuntime}
use sher_graphics.GraphicsRuntime.Objects.{
  DeviceIds, create_device, create_timeline, create_resource, create_command_stream,
  create_shader_module, create_pipeline, free_resource,
}
use sher_graphics.GraphicsRuntime.Submit.{submit}
use sher_graphics.GraphicsRuntime.Recover.{driver_mut, recover_device}
use sher_graphics.GraphicsRuntime.Presentation.{
  register_connector, present_frame, set_cursor_image, set_cursor_position, show_cursor,
  hide_cursor,
}

-- The methods with `&mut self`; `administers` is `driver_mut` with any use of the driver.
pub data Call (K : Platform) (D : GpuDriver) : Type 0 where
  creates_device : DeviceIds → ObjectId → K.CapabilitySet → Call K D
  creates_timeline : (fresh owner : ObjectId) → Call K D
  creates_resource : (fresh owner : ObjectId) → ResourceKind → MemoryClass → Call K D
  creates_stream : (fresh owner : ObjectId) → WorkloadClass → Call K D
  creates_shader : (fresh owner : ObjectId) → ShaderStage → List ℕ → Call K D
  creates_pipeline : (fresh owner shader : ObjectId) → WorkloadClass → Call K D
  frees_resource : ObjectId → Call K D
  submits : QueueHandle → CommandStream → ObjectId → ℕ → Call K D
  recovers : ObjectId → K.CapabilitySet → Call K D
  administers : K.CapabilitySet → Action D.Driver (Unit {0}) → Call K D
  registers_connector : K.Connector → Call K D
  presents : ObjectId → ℕ → ℕ → Call K D
  sets_image : ObjectId → ObjectId → Call K D
  sets_position : ObjectId → ℤ → ℤ → Call K D
  shows hides : ObjectId → Call K D

module _ {K : Platform} {D : GpuDriver} where
  unfoldable pub step : Call K D → GraphicsRuntime K D → GraphicsRuntime K D
  step (creates_device ids gpu caps) rt = (create_device ids gpu caps rt).1
  step (creates_timeline fresh owner) rt = (create_timeline fresh owner rt).1
  step (creates_resource fresh owner kind class) rt = (create_resource fresh owner kind class rt).1
  step (creates_stream fresh owner class) rt = (create_command_stream fresh owner class rt).1
  step (creates_shader fresh owner stage ir) rt = (create_shader_module fresh owner stage ir rt).1
  step (creates_pipeline fresh owner shader class) rt =
      (create_pipeline fresh owner shader class rt).1
  step (frees_resource id) rt = (free_resource id rt).1
  step (submits queue stream timeline value) rt = (submit queue stream timeline value rt).1
  step (recovers id caps) rt = (recover_device id caps rt).1
  step (administers caps use_driver) rt = (driver_mut caps use_driver rt).1
  step (registers_connector connector) rt = (register_connector connector rt).1
  step (presents connector width height) rt = (present_frame connector width height rt).1
  step (sets_image connector id) rt = (set_cursor_image connector id rt).1
  step (sets_position connector x y) rt = (set_cursor_position connector x y rt).1
  step (shows connector) rt = (show_cursor connector rt).1
  step (hides connector) rt = (hide_cursor connector rt).1

  unfoldable pub run : List (Call K D) → GraphicsRuntime K D → GraphicsRuntime K D
  unfolding step
  run [] rt = rt
  run (c ∷ cs) rt = run cs (step c rt)

  -- An identifier that `ObjectId::new()` returns names nothing that the runtime keeps.
  abbrev pub IsFresh : Call K D → GraphicsRuntime K D → Type 0
  IsFresh (creates_device ids gpu caps) rt = get ids.device rt.devices ≡ none
  IsFresh (creates_timeline fresh owner) rt = get fresh rt.timelines ≡ none
  IsFresh (creates_shader fresh owner stage ir) rt = get fresh rt.shaders ≡ none
  IsFresh (creates_pipeline fresh owner shader class) rt = get fresh rt.pipelines ≡ none
  IsFresh _ rt = Unit

  abbrev pub AreFresh : List (Call K D) → GraphicsRuntime K D → Type 0
  AreFresh [] rt = Unit
  AreFresh (c ∷ cs) rt = IsFresh c rt × AreFresh cs (step c rt)
