-- ===== src/GraphicsRuntime/Objects/Devices.antt =====
-- What `create_device` establishes.
use sher_graphics.Base.{
  ◌≡◌, refl, inl, inr, true, some, arith, ◌==◌, if◌then◌else◌, Bool-cases, Option-cases,
}
use sher_graphics.Map.{get, map_laws}
use sher_graphics.Result.{ok, Result-cases}
use sher_graphics.Kernel.{ObjectId, Platform, gpu_memory_alloc}
use sher_graphics.GraphicsApi.{
  GraphicsDevice, WorkloadClass, graphics, compute, transfer, QueueHandle, queue,
}
use sher_graphics.GpuAbstraction.{GpuDriver}
use sher_graphics.GraphicsRuntime.State.{GraphicsRuntime}
use sher_graphics.GraphicsRuntime.Objects.{
  DeviceIds, create_device, find_device, new_graphics_device,
}

queue_of_class :
    (ids : DeviceIds) (gpu : ObjectId) (class : WorkloadClass)
    → (q : QueueHandle) × (queue (new_graphics_device ids gpu) class ≡ some q) × (q.class ≡ class)
unfolding queue new_graphics_device
queue_of_class ids gpu graphics = (_, refl, refl)
queue_of_class ids gpu compute = (_, refl, refl)
queue_of_class ids gpu transfer = (_, refl, refl)

module _ {K : Platform} {D : GpuDriver} where
  -- If `create_device` succeeds, the device that it returns stands on the GPU asked for, has a queue
  -- of every workload class, and is listed with the caller's capability set, which allows memory
  -- allocation; every other entry of the two tables is as it was.
  pub create_device_registers :
      (ids : DeviceIds) (gpu : ObjectId) (caps : K.CapabilitySet) (dev : GraphicsDevice)
      (class : WorkloadClass) (k : ObjectId) (rt : GraphicsRuntime K D)
      → (create_device ids gpu caps rt).0 ≡ ok dev
      → let after = (create_device ids gpu caps rt).1 in
        (dev.gpu ≡ gpu)
        × (K.has_capability caps gpu_memory_alloc ≡ true)
        × ((q : QueueHandle) × (queue dev class ≡ some q) × (q.class ≡ class))
        × (get k after.devices ≡ (if k == dev.id then some dev else get k rt.devices))
        × (get k after.device_caps ≡ (if k == dev.id then some caps else get k rt.device_caps))
  unfolding create_device new_graphics_device queue
  create_device_registers ids gpu caps dev class k rt h =
      elim (Bool-cases (K.has_capability caps gpu_memory_alloc)) [
        | inr e ↦ absurd (ground arith)
        | inl granted ↦ elim (Result-cases (D.probe rt.driver)) [
          | inr (x, e) ↦ absurd (ground arith)
          | inl (known, probed) ↦ elim (Option-cases (find_device gpu known)) [
            | inl e ↦ absurd (ground arith)
            | inr (info, found) ↦ elim (Result-cases (D.initialize info rt.driver).0) [
              | inr (x, e) ↦ absurd (ground arith)
              | inl (u, e) ↦
                  let same : dev ≡ new_graphics_device ids gpu = ground arith in
                  (
                    ground arith,
                    granted,
                    rw same (queue_of_class ids gpu class),
                    rw same (grind map_laws),
                    rw same (grind map_laws),
                  )
            ]
          ]
        ]
      ]
