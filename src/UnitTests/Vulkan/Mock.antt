-- ===== src/UnitTests/Vulkan/Mock.antt =====
-- `MockBackend` of the tests of crates/gpu_abstraction/src/vulkan.rs.
use sher_graphics.Base.{ℕ, Bool, true, false, List, [], ◌∷◌, if◌then◌else◌}
use sher_graphics.Result.{Result, ok, err}
use sher_graphics.Base.{◌++◌, ◌+◌}
use sher_graphics.GpuAbstraction.{DriverOp}
use sher_graphics.GpuAbstraction.Vulkan.State.{
  BackendAdapterInfo, BackendResult, unavailable, device_lost, done, failed, Reply, replied,
  VulkanBackend, alive, ending, VulkanDriver,
}
use sher_graphics.UnitTests.{panic}

-- The mock and the driver share its counters, which only the render thread writes while a command
-- runs: they are the state of the backend on that thread.
pub record MockBackend : Type 0 where
  pub adapters : List BackendAdapterInfo
  pub executed : List DriverOp
  pub executions : ℕ
  pub resets : ℕ
  pub lost : Bool
  pub unavailable : Bool

abbrev pub new_mock : MockBackend
new_mock = record {
  adapters =
      record {
        name = "Mock Vulkan Device";
        vendor_id = 4660;
        device_id = 22136;
        api_version = (1, 3, 0);
      }
      ∷ [];
  executed = [];
  executions = 0;
  resets = 0;
  lost = false;
  unavailable = false;
}

abbrev pub unavailable_mock : MockBackend
unavailable_mock = record new_mock { unavailable = true }

abbrev pub enumerate_mock : MockBackend → BackendResult (List BackendAdapterInfo) × MockBackend
enumerate_mock m =
    if m.unavailable then (failed (unavailable "no mock loader"), m) else (done m.adapters, m)

abbrev pub execute_mock : List DriverOp → MockBackend → Reply × MockBackend
execute_mock ops m =
    let counted : MockBackend = record m { executions = m.executions + 1 } in
    if m.lost
    then (replied (failed (device_lost "VK_ERROR_DEVICE_LOST (mock)")), counted)
    else (replied (done tt), record counted { executed = m.executed ++ ops })

abbrev pub reset_mock : MockBackend → Reply × MockBackend
reset_mock m = (replied (done tt), record m { resets = m.resets + 1; lost = false })

abbrev pub mock : VulkanBackend
mock = record {
  Backend = MockBackend;
  enumerate_adapters = enumerate_mock;
  execute = execute_mock;
  reset = reset_mock;
}

-- The mock of a driver whose thread runs, read and written by the test.
abbrev pub read_mock : {A : Type 0} → (MockBackend → A) → VulkanDriver mock → Result A
read_mock f d = elim d.worker [ alive m ↦ ok (f m) | ending n ↦ err panic ]

abbrev pub lose_device : VulkanDriver mock → VulkanDriver mock
lose_device d = elim d.worker [
  | alive m ↦ record d { worker = alive (record m { lost = true }) }
  | ending n ↦ d
]
