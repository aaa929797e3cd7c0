-- ===== src/GpuAbstraction/Vulkan/Loss.antt =====
-- Device loss and a lost render thread as faults of `VulkanDriver`.
use sher_graphics.Base.{
  ◌≡◌, refl, inl, inr, String, ◌<>◌, Option, none, some, List, arith, Option-cases,
}
use sher_graphics.Map.{get, map_laws}
use sher_graphics.Result.{ok, err, Error}
use sher_graphics.Kernel.{ObjectId, DeviceInfo}
use sher_graphics.GraphicsApi.{WorkloadClass}
use sher_graphics.GpuAbstraction.{GpuFault, DriverOp, returned, faulted_error}
use sher_graphics.GpuAbstraction.FaultChannel.{IsFaultChannel}
use sher_graphics.GpuAbstraction.Vulkan.State.{
  device_lost, done, failed, replied, VulkanBackend, alive, VulkanDriver, known_device, find_info,
}
use sher_graphics.GpuAbstraction.Vulkan.Operations.{
  submit, fault_status, reset_device, mark_faulted, vulkan,
}

module _ (B : VulkanBackend) where
  vulkan_marked :
      (g : ObjectId) (text : String) (d : VulkanDriver B) (o : Option GpuFault)
      → fault_status g d ≡ ok o
      → (f : GpuFault) × (fault_status g (mark_faulted g text d) ≡ ok (some f))
        × (f.description ≡ text)
  unfolding fault_status mark_faulted
  vulkan_marked g text d o h = elim (Option-cases (find_info g d.devices)) [
    | inl e ↦ absurd (ground arith)
    | inr (info, e) ↦ (record { device = g; address = 0; description = text }, grind map_laws, refl)
  ]

  vulkan_blocked :
      (g : ObjectId) (class : WorkloadClass) (ops : List DriverOp) (d : VulkanDriver B)
      (f : GpuFault)
      → fault_status g d ≡ ok (some f)
      → submit g class ops d ≡ (returned (err (faulted_error f)), d)
  unfolding fault_status submit
  vulkan_blocked g class ops d f h = elim (Option-cases (find_info g d.devices)) [
    | inl e ↦ absurd (ground arith)
    | inr (info, e) ↦ ground arith
  ]

  vulkan_cleared :
      (g : ObjectId) (d : VulkanDriver B)
      → (reset_device g d).0 ≡ ok tt
      → fault_status g (reset_device g d).1 ≡ ok none
  unfolding fault_status reset_device
  vulkan_cleared g d h = grind map_laws

  -- Over any backend, the Vulkan driver keeps the contract on faults that the runtime's crash
  -- containment asks for.
  pub vulkan-IsFaultChannel : IsFaultChannel (vulkan B)
  vulkan-IsFaultChannel = record {
    marked = vulkan_marked;
    blocked = vulkan_blocked;
    cleared = vulkan_cleared;
  }

  -- If a known device has no fault, the render thread is alive and its backend answers a submission
  -- with device loss, `submit` fails, the device reports the loss, and the next submission to it is
  -- refused without a command to the render thread; a reset that the backend carries out ends the
  -- fault.
  pub device_loss_recovers :
      (g : ObjectId) (class : WorkloadClass) (ops later : List DriverOp) (m : String)
      (info : DeviceInfo) (b b' b'' : B.Backend) (d : VulkanDriver B)
      → known_device g d ≡ ok info
      → get g d.faults ≡ none
      → d.worker ≡ alive b
      → B.execute ops b ≡ (replied (failed (device_lost m)), b')
      → B.reset b' ≡ (replied (done tt), b'')
      → let (r, lost) = submit g class ops d in
        let (s, back) = reset_device g lost in
        (r ≡ returned (err (Error.device ("Vulkan device lost: " <> m))))
        × ((f : GpuFault) × (fault_status g lost ≡ ok (some f))
            × (f.description ≡ "device lost: " <> m)
            × (submit g class later lost ≡ (returned (err (faulted_error f)), lost)))
        × (s ≡ ok tt)
        × (fault_status g back ≡ ok none)
        × (back.worker ≡ alive b'')
  unfolding submit reset_device fault_status
  device_loss_recovers g class ops later m info b b' b'' d known healthy up lost reset = (
    ground arith,
    (
      record { device = g; address = 0; description = "device lost: " <> m },
      grind map_laws,
      refl,
      grind map_laws,
    ),
    grind map_laws,
    grind map_laws,
    grind map_laws,
  )
