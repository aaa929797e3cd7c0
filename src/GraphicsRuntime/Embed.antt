-- ===== src/GraphicsRuntime/Embed.antt =====
-- A driver inside another one, and the runtime over either.
pub mod Operations
pub mod Transparent
use sher_graphics.Base.{ℕ, ◌≡◌, String, Option, List, [], ◌∷◌}
use sher_graphics.Result.{Result, Action}
use sher_graphics.Kernel.{ObjectId, DeviceInfo, Platform}
use sher_graphics.GraphicsApi.{
  WorkloadClass, MemoryClass, GraphicsDevice, Timeline, Resource, CommandStream, ShaderModule,
  Pipeline,
}
use sher_graphics.GpuAbstraction.{GpuDriver, DriverOp, Outcome}
use sher_graphics.GraphicsRuntime.State.{GraphicsRuntime}
use sher_graphics.GraphicsRuntime.Objects.{
  create_device, create_timeline, create_resource, create_command_stream, create_shader_module,
  create_pipeline, free_resource,
}
use sher_graphics.GraphicsRuntime.Submit.{submit}
use sher_graphics.GraphicsRuntime.Recover.{driver_mut, recover_device}
use sher_graphics.GraphicsRuntime.Presentation.{
  register_connector, present_frame, set_cursor_image, set_cursor_position, show_cursor,
  hide_cursor,
}
use sher_graphics.GraphicsRuntime.History.{
  Call, creates_device, creates_timeline, creates_resource, creates_stream, creates_shader,
  creates_pipeline, frees_resource, submits, recovers, administers, registers_connector, presents,
  sets_image, sets_position, shows, hides,
}

-- The outer driver answers as the inner one does, and stays around it.
pub record IsEmbedding (D E : GpuDriver) (f : D.Driver → E.Driver) : Type 0 where
  pub probe : (d : D.Driver) → E.probe (f d) ≡ D.probe d
  pub initialize :
      (info : DeviceInfo) (d : D.Driver)
      → E.initialize info (f d) ≡ ((D.initialize info d).0, f (D.initialize info d).1)
  pub allocate_vram :
      (fresh g : ObjectId) (size : ℕ) (class : MemoryClass) (d : D.Driver)
      → E.allocate_vram fresh g size class (f d)
        ≡ ((D.allocate_vram fresh g size class d).0, f (D.allocate_vram fresh g size class d).1)
  pub free_vram :
      (k : ObjectId) (d : D.Driver)
      → E.free_vram k (f d) ≡ ((D.free_vram k d).0, f (D.free_vram k d).1)
  pub submit :
      (g : ObjectId) (class : WorkloadClass) (ops : List DriverOp) (d : D.Driver)
      → E.submit g class ops (f d) ≡ ((D.submit g class ops d).0, f (D.submit g class ops d).1)
  pub reset_device :
      (g : ObjectId) (d : D.Driver)
      → E.reset_device g (f d) ≡ ((D.reset_device g d).0, f (D.reset_device g d).1)
  pub mark_faulted :
      (g : ObjectId) (text : String) (d : D.Driver)
      → E.mark_faulted g text (f d) ≡ f (D.mark_faulted g text d)

-- What a call of the runtime answers.
pub data Reply : Type 0 where
  a_device : Result GraphicsDevice → Reply
  a_timeline : Result Timeline → Reply
  a_resource : Result Resource → Reply
  a_stream : Result CommandStream → Reply
  a_shader : Result ShaderModule → Reply
  a_pipeline : Result Pipeline → Reply
  a_framebuffer : Result ObjectId → Reply
  a_unit : Result (Unit {0}) → Reply

module _ {K : Platform} {D : GpuDriver} where
  abbrev pub tagged :
      {A : Type 0}
      → (Result A → Reply)
      → Result A × GraphicsRuntime K D
      → Reply × GraphicsRuntime K D
  tagged tag (r, rt) = (tag r, rt)

  unfoldable pub perform : Call K D → GraphicsRuntime K D → Reply × GraphicsRuntime K D
  perform (creates_device ids gpu caps) rt = tagged a_device (create_device ids gpu caps rt)
  perform (creates_timeline fresh owner) rt = tagged a_timeline (create_timeline fresh owner rt)
  perform (creates_resource fresh owner kind class) rt =
      tagged a_resource (create_resource fresh owner kind class rt)
  perform (creates_stream fresh owner class) rt =
      tagged a_stream (create_command_stream fresh owner class rt)
  perform (creates_shader fresh owner stage ir) rt =
      tagged a_shader (create_shader_module fresh owner stage ir rt)
  perform (creates_pipeline fresh owner shader class) rt =
      tagged a_pipeline (create_pipeline fresh owner shader class rt)
  perform (frees_resource id) rt = tagged a_unit (free_resource id rt)
  perform (submits queue stream timeline value) rt =
      tagged a_unit (submit queue stream timeline value rt)
  perform (recovers id caps) rt = tagged a_unit (recover_device id caps rt)
  perform (administers caps use_driver) rt = tagged a_unit (driver_mut caps use_driver rt)
  perform (registers_connector connector) rt = tagged a_unit (register_connector connector rt)
  perform (presents connector width height) rt =
      tagged a_framebuffer (present_frame connector width height rt)
  perform (sets_image connector id) rt = tagged a_unit (set_cursor_image connector id rt)
  perform (sets_position connector x y) rt = tagged a_unit (set_cursor_position connector x y rt)
  perform (shows connector) rt = tagged a_unit (show_cursor connector rt)
  perform (hides connector) rt = tagged a_unit (hide_cursor connector rt)

  unfoldable pub replies : List (Call K D) → GraphicsRuntime K D → List Reply × GraphicsRuntime K D
  unfolding perform
  replies [] rt = ([], rt)
  replies (c ∷ cs) rt =
      let (x, rt') = perform c rt in let (xs, rt'') = replies cs rt' in (x ∷ xs, rt'')

module _ {K : Platform} {D E : GpuDriver} where
  -- The same runtime with the outer driver.
  abbrev pub embed : (D.Driver → E.Driver) → GraphicsRuntime K D → GraphicsRuntime K E
  embed f rt = record {
    driver = f rt.driver;
    devices = rt.devices;
    device_caps = rt.device_caps;
    resources = rt.resources;
    shaders = rt.shaders;
    pipelines = rt.pipelines;
    timelines = rt.timelines;
    presentation = rt.presentation;
    audit = rt.audit;
    cursors = rt.cursors;
  }

  -- The same call; `reach` makes of a use of the inner driver one of the outer driver.
  unfoldable pub carry :
      (Action D.Driver (Unit {0}) → Action E.Driver (Unit {0})) → Call K D → Call K E
  carry reach (creates_device ids gpu caps) = creates_device ids gpu caps
  carry reach (creates_timeline fresh owner) = creates_timeline fresh owner
  carry reach (creates_resource fresh owner kind class) = creates_resource fresh owner kind class
  carry reach (creates_stream fresh owner class) = creates_stream fresh owner class
  carry reach (creates_shader fresh owner stage ir) = creates_shader fresh owner stage ir
  carry reach (creates_pipeline fresh owner shader class) =
      creates_pipeline fresh owner shader class
  carry reach (frees_resource id) = frees_resource id
  carry reach (submits queue stream timeline value) = submits queue stream timeline value
  carry reach (recovers id caps) = recovers id caps
  carry reach (administers caps use_driver) = administers caps (reach use_driver)
  carry reach (registers_connector connector) = registers_connector connector
  carry reach (presents connector width height) = presents connector width height
  carry reach (sets_image connector id) = sets_image connector id
  carry reach (sets_position connector x y) = sets_position connector x y
  carry reach (shows connector) = shows connector
  carry reach (hides connector) = hides connector
