-- ===== src/GraphicsCompat.antt =====
-- crates/graphics_compat/src/lib.rs: the DRM requests and the shim that answers them.
pub mod Gem
pub mod Session
use sher_graphics.Base.{ℕ, ◌≡◌, none, some, List, [], arith}
use sher_graphics.Map.{get, map_laws, remove-insert}
use sher_graphics.Result.{ok, Action, pure, ◌>>=◌, ◌>>◌}
use sher_graphics.Kernel.{ObjectId, Platform}
use sher_graphics.GraphicsApi.{GraphicsDevice, buffer, default_buffer_usage, device_local}
use sher_graphics.GpuAbstraction.{GpuDriver, GpuAllocation}
use sher_graphics.GraphicsRuntime.State.{GraphicsRuntime}
use sher_graphics.GraphicsRuntime.Objects.{create_resource, free_resource, resource_of}

pub data DrmRequest : Type 0 where
  gem_create : (device : ObjectId) (size : ℕ) → DrmRequest
  gem_close : (handle : ObjectId) → DrmRequest
  prime_handle_to_fd : (handle : ObjectId) → DrmRequest
  mode_get_resources : DrmRequest

pub data DrmResponse : Type 0 where
  gem_handle : ObjectId → DrmResponse
  closed : DrmResponse
  prime_fd : ObjectId → DrmResponse
  resources : List ObjectId → DrmResponse

module _ {K : Platform} {D : GpuDriver} where
  -- `fresh` is the identifier that a `GemCreate` draws.
  unfoldable pub handle : ObjectId → DrmRequest → Action (GraphicsRuntime K D) DrmResponse
  handle fresh (gem_create device size) = do
    resource ← create_resource fresh device (buffer size default_buffer_usage) device_local
    pure (gem_handle resource.id)
  handle fresh (gem_close id) = do free_resource id; pure closed
  handle fresh (prime_handle_to_fd id) = pure (prime_fd id)
  handle fresh mode_get_resources = pure (resources [])

  -- On a known device, and over a driver that allocates under a new identifier and frees what it has
  -- allocated, `GemCreate` returns the handle of the allocation, and `GemClose` of that handle
  -- leaves the runtime as before, but for what the driver keeps.
  pub gem_create-gem_close :
      (fresh other device : ObjectId) (size : ℕ) (dev : GraphicsDevice) (a : GpuAllocation)
      (d d' : D.Driver) (rt : GraphicsRuntime K D)
      → get device rt.devices ≡ some dev
      → D.allocate_vram fresh dev.gpu size device_local rt.driver ≡ (ok a, d)
      → get a.id rt.resources ≡ none
      → D.free_vram a.id d ≡ (ok tt, d')
      → let (created, between) = handle fresh (gem_create device size) rt in
        (created ≡ ok (gem_handle a.id))
        × (handle other (gem_close a.id) between ≡ (ok closed, record rt { driver = d' }))
  unfolding handle create_resource free_resource
  gem_create-gem_close fresh other device size dev a d d' rt known allocated new freed =
      let back =
        remove-insert a.id (resource_of device (buffer size default_buffer_usage) device_local a)
          rt.resources new in
      (ground arith, grind (map_laws, back))
