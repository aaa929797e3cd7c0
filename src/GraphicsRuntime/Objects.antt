-- ===== src/GraphicsRuntime/Objects.antt =====
-- The methods that create the runtime's objects, and `free_resource`.
pub mod Devices
pub mod Size
use sher_graphics.Base.{ℕ, ◌==◌, if◌then◌else◌, Bool, not, Option, none, some, List, [], ◌∷◌, ◌*ʷ◌}
use sher_graphics.Map.{get, insert, remove, contains_key}
use sher_graphics.Result.{
  Result, ok, err, Error, Action, is_ok, ok_or, pure, lift, reads, writes, fail_if, ◌>>=◌, ◌>>◌,
}
use sher_graphics.Kernel.{ObjectId, Platform, DeviceInfo, gpu_memory_alloc}
use sher_graphics.GraphicsApi.{
  WorkloadClass, graphics, compute, transfer, MemoryClass, PixelFormat, rgba8_unorm, bgra8_unorm,
  rgba16_float, depth32_float, ResourceKind, buffer, image, Resource, ShaderStage, ShaderModule,
  Pipeline, CommandStream, GraphicsDevice, Timeline, require_capability,
}
use sher_graphics.GpuAbstraction.{GpuDriver, GpuAllocation}
use sher_graphics.GraphicsRuntime.State.{GraphicsRuntime, device, log, on_driver}

unfoldable pub bytes_per_pixel : PixelFormat → ℕ
bytes_per_pixel rgba8_unorm = 4
bytes_per_pixel bgra8_unorm = 4
bytes_per_pixel rgba16_float = 8
bytes_per_pixel depth32_float = 4

-- The product is a `usize`, and wraps.
unfoldable pub resource_size : ResourceKind → ℕ
unfolding bytes_per_pixel
resource_size (buffer size usage) = size
resource_size (image width height depth format usage) =
    width *ʷ height *ʷ depth *ʷ bytes_per_pixel format

-- `known.into_iter().find(|d| d.id == gpu)`
unfoldable pub find_device : ObjectId → List DeviceInfo → Option DeviceInfo
find_device gpu [] = none
find_device gpu (d ∷ ds) = if d.id == gpu then some d else find_device gpu ds

-- The identifiers that one `create_device` draws, in order.
pub record DeviceIds : Type 0 where
  pub device : ObjectId
  pub graphics : ObjectId
  pub compute : ObjectId
  pub transfer : ObjectId

unfoldable pub new_graphics_device : DeviceIds → ObjectId → GraphicsDevice
new_graphics_device ids gpu = record {
  id = ids.device;
  gpu = gpu;
  queues =
      record { id = ids.graphics; class = graphics }
      ∷ record { id = ids.compute; class = compute }
      ∷ record { id = ids.transfer; class = transfer }
      ∷ [];
}

-- The resource takes the identifier of its allocation.
abbrev pub resource_of : ObjectId → ResourceKind → MemoryClass → GpuAllocation → Resource
resource_of owner kind class allocation = record {
  id = allocation.id;
  device = owner;
  kind = kind;
  memory_class = class;
}

module _ {K : Platform} {D : GpuDriver} where
  unfoldable pub create_device :
      DeviceIds → ObjectId → K.CapabilitySet → Action (GraphicsRuntime K D) GraphicsDevice
  unfolding log find_device require_capability new_graphics_device
  create_device ids gpu caps = do
    let authorized = require_capability K caps gpu_memory_alloc
    writes (log gpu "create_device" (is_ok authorized))
    lift authorized
    known ← reads λ rt. D.probe rt.driver
    info ← lift (ok_or (find_device gpu known) (Error.device "GPU not found via driver probe"))
    on_driver (D.initialize info)
    writes λ rt. record rt {
      devices = insert ids.device (new_graphics_device ids gpu) rt.devices;
      device_caps = insert ids.device caps rt.device_caps;
    }
    pure (new_graphics_device ids gpu)

  unfoldable pub create_timeline : ObjectId → ObjectId → Action (GraphicsRuntime K D) Timeline
  unfolding device
  create_timeline fresh owner = do
    reads (device owner)
    writes λ rt. record rt { timelines = insert fresh 0 rt.timelines }
    pure (record { id = fresh; device = owner; current_value = 0 })

  unfoldable pub create_resource :
      ObjectId → ObjectId → ResourceKind → MemoryClass → Action (GraphicsRuntime K D) Resource
  unfolding device resource_size
  create_resource fresh owner kind class = do
    dev ← reads (device owner)
    allocation ← on_driver (D.allocate_vram fresh dev.gpu (resource_size kind) class)
    writes λ rt. record rt {
      resources = insert allocation.id (resource_of owner kind class allocation) rt.resources;
    }
    pure (resource_of owner kind class allocation)

  unfoldable pub create_command_stream :
      ObjectId → ObjectId → WorkloadClass → Action (GraphicsRuntime K D) CommandStream
  unfolding device
  create_command_stream fresh owner class = do
    reads (device owner)
    pure (record { id = fresh; device = owner; target_class = class; ops = [] })

  unfoldable pub create_shader_module :
      ObjectId → ObjectId → ShaderStage → List ℕ → Action (GraphicsRuntime K D) ShaderModule
  unfolding device
  create_shader_module fresh owner stage ir = do
    reads (device owner)
    let module' : ShaderModule = record { id = fresh; device = owner; stage = stage; ir = ir }
    writes λ rt. record rt { shaders = insert fresh module' rt.shaders }
    pure module'

  unfoldable pub create_pipeline :
      ObjectId → ObjectId → ObjectId → WorkloadClass → Action (GraphicsRuntime K D) Pipeline
  unfolding device
  create_pipeline fresh owner shader class = do
    reads (device owner)
    known ← reads λ rt. ok (contains_key shader rt.shaders)
    fail_if (not known) (Error.device "unknown shader module")
    let pipeline : Pipeline = record { id = fresh; device = owner; class = class; shader = shader }
    writes λ rt. record rt { pipelines = insert fresh pipeline rt.pipelines }
    pure pipeline

  unfoldable pub free_resource : ObjectId → Action (GraphicsRuntime K D) (Unit {0})
  free_resource id = do
    reads λ rt. ok_or (get id rt.resources) (Error.memory "unknown resource")
    writes λ rt. record rt { resources = remove id rt.resources }
    on_driver (D.free_vram id)
