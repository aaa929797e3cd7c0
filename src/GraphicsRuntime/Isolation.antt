-- ===== src/GraphicsRuntime/Isolation.antt =====
-- What calls about other devices and other GPUs do to a device of the runtime.
pub mod Steps
pub mod Spared
use sher_graphics.Base.{
  ℕ, ◌≡◌, refl, ◌∙◌, Bool, true, false, none, some, List, [], ◌∷◌, ◌==◌, arith, Option-cases,
  Bool-cases, inl, inr,
}
use sher_graphics.Map.{get, map_laws}
use sher_graphics.Kernel.{ObjectId, Platform, DeviceInfo}
use sher_graphics.GraphicsApi.{GraphicsDevice, Resource, ShaderModule, Pipeline, MemoryClass}
use sher_graphics.GpuAbstraction.{GpuAllocation}
use sher_graphics.GpuAbstraction.Software.{
  SoftwareGpuDriver, software, state, set_state, initialize, allocate_vram, free_vram, reset_device,
  submit, debit, new_allocation, fault_status, vram_available,
}
use sher_graphics.GraphicsRuntime.State.{GraphicsRuntime, log}
use sher_graphics.GraphicsRuntime.Objects.{
  create_device, create_timeline, create_resource, create_command_stream, create_shader_module,
  create_pipeline, free_resource, new_graphics_device,
}
use sher_graphics.GraphicsRuntime.Submit.{contain}
use sher_graphics.GraphicsRuntime.Recover.{recover_device, tear_down}
use sher_graphics.GraphicsRuntime.Presentation.{
  register_connector, present_frame, set_cursor_image, set_cursor_position, show_cursor,
  hide_cursor, cursor_mut,
}
use sher_graphics.GraphicsRuntime.History.{
  Call, creates_device, creates_timeline, creates_resource, creates_stream, creates_shader,
  creates_pipeline, frees_resource, submits, recovers, administers, registers_connector, presents,
  sets_image, sets_position, shows, hides, step, run,
}

-- The answers about a GPU that its clients can ask for.
abbrev pub SameGpu : ObjectId → SoftwareGpuDriver → SoftwareGpuDriver → Type 0
SameGpu g d e = (fault_status g d ≡ fault_status g e) × (vram_available g d ≡ vram_available g e)

pub initialize-SameGpu :
    (g : ObjectId) (info : DeviceInfo) (d : SoftwareGpuDriver) → SameGpu g (initialize info d).1 d
unfolding initialize set_state fault_status vram_available
initialize-SameGpu g info d = (grind map_laws, grind map_laws)

pub reset_device-SameGpu :
    (g h : ObjectId) (d : SoftwareGpuDriver) → (h == g) ≡ false → SameGpu g (reset_device h d).1 d
unfolding reset_device set_state fault_status vram_available
reset_device-SameGpu g h d ne = (grind map_laws, grind map_laws)

pub allocate_vram-SameGpu :
    (g fresh h : ObjectId) (size : ℕ) (class : MemoryClass) (d : SoftwareGpuDriver)
    → (h == g) ≡ false
    → SameGpu g (allocate_vram fresh h size class d).1 d
unfolding allocate_vram debit new_allocation fault_status vram_available
allocate_vram-SameGpu g fresh h size class d ne = (grind map_laws, grind map_laws)

pub free_vram-SameGpu :
    (g k : ObjectId) (d : SoftwareGpuDriver)
    → ((a : GpuAllocation) → get k d.allocations ≡ some a → (a.device == g) ≡ false)
    → SameGpu g (free_vram k d).1 d
unfolding free_vram set_state fault_status vram_available
free_vram-SameGpu g k d ne = elim (Option-cases (get k d.allocations)) [
  | inl e ↦ (ground arith, ground arith)
  | inr (a, e) ↦ let apart = ne a e in (grind map_laws, grind map_laws)
]

module _ {K : Platform} (x g : ObjectId) where
  -- The call is about neither the device nor its GPU, and what it creates gets a new identifier. It
  -- may submit to any device, create devices on any GPU, and use any display.
  abbrev pub Spares : Call K software → GraphicsRuntime K software → Type 0
  Spares (creates_device ids gpu caps) rt = (ids.device == x) ≡ false
  Spares (creates_resource fresh owner kind class) rt =
      (get fresh rt.resources ≡ none)
      × ((dev : GraphicsDevice) → get owner rt.devices ≡ some dev → (dev.gpu == g) ≡ false)
  Spares (creates_shader fresh owner stage ir) rt = get fresh rt.shaders ≡ none
  Spares (creates_pipeline fresh owner shader class) rt = get fresh rt.pipelines ≡ none
  Spares (frees_resource k) rt =
      ((r : Resource) → get k rt.resources ≡ some r → (r.device == x) ≡ false)
      × ((a : GpuAllocation) → get k rt.driver.allocations ≡ some a → (a.device == g) ≡ false)
  Spares (recovers id caps) rt =
      ((id == x) ≡ false)
      × ((dev : GraphicsDevice) → get id rt.devices ≡ some dev → (dev.gpu == g) ≡ false)
  Spares (administers caps use_driver) rt = ⊥
  Spares _ rt = Unit

  abbrev pub AllSpare : List (Call K software) → GraphicsRuntime K software → Type 0
  AllSpare [] rt = Unit
  AllSpare (c ∷ cs) rt = Spares c rt × AllSpare cs (step c rt)

  -- The device is as it was, and everything that belongs to it is still there.
  pub record IsUntouched (before after : GraphicsRuntime K software) : Type 0 where
    pub device : get x after.devices ≡ get x before.devices
    pub caps : get x after.device_caps ≡ get x before.device_caps
    pub gpu : SameGpu g after.driver before.driver
    pub resources :
        (k : ObjectId) (r : Resource)
        → get k before.resources ≡ some r
        → (r.device == x) ≡ true
        → get k after.resources ≡ some r
    pub shaders :
        (k : ObjectId) (s : ShaderModule)
        → get k before.shaders ≡ some s
        → (s.device == x) ≡ true
        → get k after.shaders ≡ some s
    pub pipelines :
        (k : ObjectId) (p : Pipeline)
        → get k before.pipelines ≡ some p
        → (p.device == x) ≡ true
        → get k after.pipelines ≡ some p

  -- Only the driver and the log have changed, and the driver keeps the GPU.
  pub change-IsUntouched :
      (rt after : GraphicsRuntime K software) (d : SoftwareGpuDriver) (audit : K.AuditLog)
      → after ≡ record rt { driver = d; audit = audit }
      → SameGpu g d rt.driver
      → IsUntouched rt after
  change-IsUntouched rt after d audit same gpu = rw same (record {
    device = refl;
    caps = refl;
    gpu = gpu;
    resources = λ k r e o. e;
    shaders = λ k s e o. e;
    pipelines = λ k p e o. e;
  })

  pub IsUntouched-trans :
      (a b c : GraphicsRuntime K software) → IsUntouched a b → IsUntouched b c → IsUntouched a c
  IsUntouched-trans a b c u v = record {
    device = v.device ∙ u.device;
    caps = v.caps ∙ u.caps;
    gpu = (v.gpu.0 ∙ u.gpu.0, v.gpu.1 ∙ u.gpu.1);
    resources = λ k r e o. v.resources k r (u.resources k r e o) o;
    shaders = λ k s e o. v.shaders k s (u.shaders k s e o) o;
    pipelines = λ k p e o. v.pipelines k p (u.pipelines k p e o) o;
  }
