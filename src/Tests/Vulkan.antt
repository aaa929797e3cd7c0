-- ===== src/Tests/Vulkan.antt =====
-- The Vulkan driver over a backend that loses its device on the first submission.
use sher_graphics.Base.{
  ℕ, ◌+◌, ◌≡◌, refl, true, false, Bool, ◌<>◌, none, some, List, [], ◌∷◌, arith,
}
use sher_graphics.Map.{get, insert, remove, modify}
use sher_graphics.Result.{ok, err, Error}
use sher_graphics.Kernel.{DeviceInfo}
use sher_graphics.GraphicsApi.{graphics, device_local}
use sher_graphics.GpuAbstraction.{GpuAllocation, GpuFault, faulted_error, barrier, returned}
use sher_graphics.GpuAbstraction.Vulkan.State.{
  BackendAdapterInfo, device_lost, done, failed, replied, VulkanBackend, alive, VulkanDriver,
  find_info, known_device,
}
use sher_graphics.GpuAbstraction.Vulkan.Open.{
  running, with_backend, adapter_device, collect, new_driver,
}
use sher_graphics.GpuAbstraction.Vulkan.Operations.{
  submit, reset_device, fault_status, allocate_vram, free_vram, debit, new_allocation,
}
use sher_graphics.GpuAbstraction.Vulkan.Loss.{device_loss_recovers}
use sher_graphics.GpuAbstraction.Vulkan.Layout.{
  Call, allocates, frees, step, run, HaveRoom, Apart, run_allocations-Apart,
}

abbrev pub adapter : BackendAdapterInfo
adapter = record { name = "bench"; vendor_id = 1; device_id = 2; api_version = (1, 3, 0) }

-- The backend's state is whether its device is lost.
abbrev losing : VulkanBackend
losing = record {
  Backend = Bool;
  enumerate_adapters = λ b. (done (adapter ∷ []), b);
  execute = λ ops b. (replied (failed (device_lost "gone")), true);
  reset = λ b. (replied (done tt), false);
}

abbrev pub draw_id : ℕ → ℕ
draw_id i = i + 1

abbrev pub card : DeviceInfo
card = adapter_device 1 adapter

abbrev opened : VulkanDriver losing
opened = new_driver losing (card ∷ []) 1000 (alive false)

opens : with_backend losing draw_id running false 1000 ≡ ok opened
unfolding with_backend adapter_device
opens = refl

finds : find_info 1 opened.devices ≡ some card
unfolding new_driver find_info adapter_device
finds = refl

knows : known_device 1 opened ≡ ok card
unfolding new_driver known_device find_info adapter_device
knows = refl

healthy : get 1 opened.faults ≡ none
unfolding new_driver get
healthy = refl

up : opened.worker ≡ alive false
unfolding new_driver
up = refl

device_loss_recovers_example :
    let (r, lost) = submit 1 graphics (barrier ∷ []) opened in
    let (s, back) = reset_device 1 lost in
    (r ≡ returned (err (Error.device ("Vulkan device lost: " <> "gone"))))
    × ((f : GpuFault) × (fault_status 1 lost ≡ ok (some f))
        × (f.description ≡ "device lost: " <> "gone")
        × (submit 1 graphics [] lost ≡ (returned (err (faulted_error f)), lost)))
    × (s ≡ ok tt)
    × (fault_status 1 back ≡ ok none)
    × (back.worker ≡ alive false)
device_loss_recovers_example =
    device_loss_recovers losing 1 graphics (barrier ∷ []) [] "gone" card false true false opened
      knows healthy up refl refl

abbrev calls : List Call
calls =
    allocates 10 1 100 device_local
    ∷ allocates 11 1 100 device_local
    ∷ frees 10
    ∷ allocates 12 1 200 device_local
    ∷ []

abbrev second : GpuAllocation
second = record { id = 11; device = 1; class = device_local; size = 100; device_address = 100 }

abbrev third : GpuAllocation
third = record { id = 12; device = 1; class = device_local; size = 200; device_address = 200 }

calls-HaveRoom : HaveRoom calls opened
unfolding new_driver collect adapter_device find_info run step get insert remove modify
    allocate_vram free_vram debit new_allocation
calls-HaveRoom = ((refl, omega arith), ((refl, omega arith), (tt, ((refl, omega arith), tt))))

calls-second : get 11 (run calls opened).allocations ≡ some second
unfolding new_driver collect adapter_device find_info run step get insert remove modify
    allocate_vram free_vram debit new_allocation
calls-second = refl

calls-third : get 12 (run calls opened).allocations ≡ some third
unfolding new_driver collect adapter_device find_info run step get insert remove modify
    allocate_vram free_vram debit new_allocation
calls-third = refl

no_allocations : opened.allocations ≡ []
unfolding new_driver
no_allocations = refl

run_allocations-Apart_example : Apart second third
run_allocations-Apart_example =
    run_allocations-Apart calls opened 11 12 second third no_allocations calls-HaveRoom
      (omega arith) refl calls-second calls-third
