-- ===== src/GraphicsRuntime/Order.antt =====
-- Runtimes whose hash maps hold the same entries, in whatever order they are iterated.
pub mod Writes
pub mod Operations
pub mod Submissions
pub mod Presentation
pub mod Histories
pub mod Unseen
use sher_graphics.Base.{ℕ, ◌≡◌, String, List}
use sher_graphics.Map.Same.{Same}
use sher_graphics.Result.{Result, Error, Action, and_then, ok_or}
use sher_graphics.Result.Related.{Agree, Related}
use sher_graphics.Kernel.{ObjectId, DeviceInfo, Platform}
use sher_graphics.GraphicsApi.{WorkloadClass, MemoryClass}
use sher_graphics.GpuAbstraction.{GpuDriver, DriverOp}
use sher_graphics.GraphicsRuntime.State.{GraphicsRuntime}
use sher_graphics.GraphicsRuntime.Objects.{find_device}

-- The search of `create_device` in what `probe` lists.
unfoldable pub search : ObjectId → Result (List DeviceInfo) → Result DeviceInfo
unfolding find_device
search gpu r =
    and_then r
      λ known. ok_or (find_device gpu known) (Error.device "GPU not found via driver probe")

-- Drivers that are related answer the runtime alike and stay related. What `probe` lists is only
-- searched by identifier, so its order is free.
pub record IsCongruence (D : GpuDriver) (R : D.Driver → D.Driver → Type 0) : Type 0 where
  pub probe :
      (gpu : ObjectId) (d e : D.Driver) → R d e → search gpu (D.probe d) ≡ search gpu (D.probe e)
  pub initialize : (info : DeviceInfo) → Related R (D.initialize info) (D.initialize info)
  pub allocate_vram :
      (fresh g : ObjectId) (size : ℕ) (class : MemoryClass)
      → Related R (D.allocate_vram fresh g size class) (D.allocate_vram fresh g size class)
  pub free_vram : (k : ObjectId) → Related R (D.free_vram k) (D.free_vram k)
  pub submit :
      (g : ObjectId) (class : WorkloadClass) (ops : List DriverOp) (d e : D.Driver)
      → R d e
      → Agree R (D.submit g class ops d) (D.submit g class ops e)
  pub reset_device : (g : ObjectId) → Related R (D.reset_device g) (D.reset_device g)
  pub mark_faulted :
      (g : ObjectId) (text : String) (d e : D.Driver)
      → R d e
      → R (D.mark_faulted g text d) (D.mark_faulted g text e)
  pub fault_status :
      (g : ObjectId) (d e : D.Driver) → R d e → D.fault_status g d ≡ D.fault_status g e

-- The same entries in every table, and drivers that are related.
pub record IsSame {K : Platform} {D : GpuDriver} (R : D.Driver → D.Driver → Type 0)
    (rt sh : GraphicsRuntime K D) : Type 0 where
  pub driver : R rt.driver sh.driver
  pub devices : Same rt.devices sh.devices
  pub device_caps : Same rt.device_caps sh.device_caps
  pub resources : Same rt.resources sh.resources
  pub shaders : Same rt.shaders sh.shaders
  pub pipelines : Same rt.pipelines sh.pipelines
  pub timelines : Same rt.timelines sh.timelines
  pub presentation : rt.presentation ≡ sh.presentation
  pub audit : rt.audit ≡ sh.audit
  pub cursors : Same rt.cursors sh.cursors
