-- ===== src/UnitTests/Vulkan.antt =====
-- The unit tests of crates/gpu_abstraction/src/vulkan.rs, with `MockBackend`.
pub mod Mock
use sher_graphics.Base.{
  ◌≡◌, ℕ, refl, ◌==◌, Bool, true, false, not, ◌&&◌, List, [], ◌∷◌, arith, ==_refl, if◌then◌else◌,
  String, length,
}
use sher_graphics.Map.{get, insert, remove, modify}
use sher_graphics.Result.{Result, ok, err, Error, Action, lift, reads, writes, ◌>>=◌, ◌>>◌}
use sher_graphics.Base.{◌++◌, ◌+◌, hex}
use sher_graphics.Kernel.{ObjectId, DeviceType}
use sher_graphics.GraphicsApi.{graphics, compute, device_local}
use sher_graphics.GpuAbstraction.{DriverOp, draw, dispatch, barrier, faulted_error}
use sher_graphics.GpuAbstraction.Software.{
  new as new_software, new_device, with_devices, probe as probe_software,
}
use sher_graphics.GpuAbstraction.Vulkan.State.{
  BackendAdapterInfo, BackendResult, unavailable, device_lost, done, failed, Reply, replied,
  VulkanBackend, backend_error_to_sher, alive, ending, VulkanDriver, known_device, record_fault,
  ask, find_info,
}
use sher_graphics.GpuAbstraction.Vulkan.Open.{
  Spawn, running, with_backend, adapter_device, adapter_devices, collect, start, new_driver,
  device_id, device_ids,
}
use sher_graphics.GpuAbstraction.Vulkan.Operations.{
  probe, submit, conclude, try_submit, fault_status, vram_available, reset_device, conclude_reset,
  mark_faulted, allocate_vram, free_vram, map_dma, debit, new_allocation,
}
use sher_graphics.GpuAbstraction.Fallback.{from_vulkan_result, is_vulkan, fallback_reason, fallback}
use sher_graphics.UnitTests.{
  assert, result, outcome, unwrap, head, text_eq, contains, is_none, is_err, panic, AllPass,
  AreDistinct, Prints,
}
use sher_graphics.UnitTests.Vulkan.Mock.{
  MockBackend, new_mock, unavailable_mock, mock, read_mock, lose_device,
}

abbrev first_id : Action (VulkanDriver mock) ObjectId
first_id d = unwrap (device_id d) d

abbrev contains_text : String → List String → Bool
contains_text text [] = false
contains_text text (s ∷ ss) = if text_eq s text then true else contains_text text ss

abbrev is_barrier : DriverOp → Bool
is_barrier barrier = true
is_barrier _ = false

abbrev is_draw : DriverOp → Bool
is_draw (draw vertex_count instance_count) = true
is_draw _ = false

abbrev is_dispatch : ℕ → ℕ → ℕ → DriverOp → Bool
is_dispatch a b c (dispatch x y z) = (x == a) && (y == b) && (z == c)
is_dispatch a b c _ = false

abbrev are_in_order : List DriverOp → Bool
are_in_order (a ∷ b ∷ c ∷ []) = is_barrier a && is_draw b && is_dispatch 8 4 1 c
are_in_order _ = false

-- `error.to_string().contains(text)` of a call that has to fail.
module _ (print : Error → String) (ids : ℕ → ObjectId) (spawn : Spawn) where
  abbrev fails_with : String → Result (Unit {0}) → Bool
  fails_with text (ok u) = false
  fails_with text (err e) = contains (print e) text

  -- A test on `driver_with_mock(&MockBackend::new())`; `spawn` is how the host starts the thread.
  abbrev driver_with_mock : Action (VulkanDriver mock) (Unit {0}) → Result (Unit {0})
  driver_with_mock test = elim (with_backend mock ids spawn new_mock 4096) [
    | err e ↦ err panic
    | ok d ↦ (test d).0
  ]

  abbrev probe_exposes_backend_adapters_as_gpu_devices : Result (Unit {0})
  probe_exposes_backend_adapters_as_gpu_devices = driver_with_mock (do
    devices ← reads probe
    assert (length devices == 1)
    first ← unwrap (head devices)
    assert (text_eq first.name "Mock Vulkan Device")
    assert (elim first.device_type [ DeviceType.gpu ↦ true | DeviceType.other n ↦ false ])
    assert (contains_text "vulkan" first.capabilities)
    found ← reads λ d. ok (device_ids d)
    assert (length found == 1)
    id ← unwrap (head found)
    assert (id == first.id))

  abbrev submit_commands_travel_through_the_render_thread_in_order : Result (Unit {0})
  submit_commands_travel_through_the_render_thread_in_order = driver_with_mock (do
    device ← first_id
    first ← outcome (submit device graphics (barrier ∷ draw 3 1 ∷ []))
    lift first
    other ← outcome (submit device compute (dispatch 8 4 1 ∷ []))
    lift other
    executions ← reads (read_mock λ m. m.executions)
    assert (executions == 2)
    executed ← reads (read_mock λ m. m.executed)
    assert (length executed == 3)
    assert (are_in_order executed))

  abbrev device_lost_maps_to_a_recoverable_fault_and_reset_recovers : Result (Unit {0})
  device_lost_maps_to_a_recoverable_fault_and_reset_recovers = driver_with_mock (do
    device ← first_id
    writes lose_device
    lost ← outcome (submit device graphics (barrier ∷ []))
    assert (fails_with "device lost" lost)
    status ← reads (fault_status device)
    fault ← unwrap status
    assert (contains fault.description "device lost")
    again ← outcome (submit device graphics (barrier ∷ []))
    assert (fails_with "faulted" again)
    executions ← reads (read_mock λ m. m.executions)
    assert (executions == 1)
    reset_device device
    after ← reads (fault_status device)
    assert (is_none after)
    resets ← reads (read_mock λ m. m.resets)
    assert (resets == 1)
    end ← outcome (submit device graphics (barrier ∷ []))
    lift end
    total ← reads (read_mock λ m. m.executions)
    assert (total == 2))

  abbrev mark_faulted_uses_the_same_fault_channel : Result (Unit {0})
  mark_faulted_uses_the_same_fault_channel = driver_with_mock (do
    device ← first_id
    writes (mark_faulted device "caught driver panic")
    status ← reads (fault_status device)
    fault ← unwrap status
    assert (text_eq fault.description "caught driver panic")
    r ← outcome (submit device graphics [])
    assert (is_err r)
    executions ← reads (read_mock λ m. m.executions)
    assert (executions == 0))

  abbrev unavailable_backend_falls_back_explicitly_to_software : Result (Unit {0})
  unavailable_backend_falls_back_explicitly_to_software =
      let opened = with_backend mock ids spawn unavailable_mock 4096 in
      ((do
        assert (is_err opened)
        fallen ← reads λ d. ok d
        assert (not (is_vulkan fallen))
        reason ← unwrap (fallback_reason fallen)
        assert (contains reason "Vulkan unavailable")
        devices ← reads (fallback mock).probe
        assert (length devices == 1))
        (from_vulkan_result print (ids 1) opened 4096)).0

  abbrev vram_accounting_is_per_device : Result (Unit {0})
  vram_accounting_is_per_device = driver_with_mock (do
    device ← first_id
    allocation ← allocate_vram (ids 1) device 1024 device_local
    left ← reads (vram_available device)
    assert (left == 3072)
    mapping ← map_dma allocation.id
    assert (mapping.size == 1024)
    free_vram allocation.id
    all ← reads (vram_available device)
    assert (all == 4096))

  abbrev unknown_devices_are_rejected : Result (Unit {0})
  unknown_devices_are_rejected = driver_with_mock (do
    r ← outcome (submit (ids 1) graphics [])
    assert (is_err r)
    available ← result (reads (vram_available (ids 1)))
    assert (is_err available)
    reset ← result (reset_device (ids 1))
    assert (is_err reset))

  abbrev pub vulkan_tests : List (Result (Unit {0}))
  vulkan_tests =
      probe_exposes_backend_adapters_as_gpu_devices
      ∷ submit_commands_travel_through_the_render_thread_in_order
      ∷ device_lost_maps_to_a_recoverable_fault_and_reset_recovers
      ∷ mark_faulted_uses_the_same_fault_channel
      ∷ unavailable_backend_falls_back_explicitly_to_software ∷ vram_accounting_is_per_device
      ∷ unknown_devices_are_rejected ∷ []

  module _ (printed : Prints print) (distinct : AreDistinct ids) (started : spawn ≡ running) where
    pub vulkan_tests-AllPass : AllPass vulkan_tests
    unfolding faulted_error new_software new_device with_devices probe_software known_device
        record_fault ask find_info backend_error_to_sher with_backend adapter_device adapter_devices
        collect start new_driver device_id device_ids probe submit conclude try_submit fault_status
        vram_available reset_device conclude_reset mark_faulted allocate_vram free_vram map_dma
        debit new_allocation from_vulkan_result is_vulkan fallback_reason get insert remove modify
        hex
    vulkan_tests-AllPass =
        let lost : String = "Vulkan device lost: VK_ERROR_DEVICE_LOST (mock)" in
        let said_lost = printed lost "device lost" refl in
        let fault : String = "device faulted at 0x0: device lost: VK_ERROR_DEVICE_LOST (mock)" in
        let said_fault = printed fault "faulted" refl in
        let absent : String = "Vulkan unavailable: no mock loader" in
        let said_absent = printed absent "Vulkan unavailable" refl in
        let apart = distinct 1 0 refl in
        let apart' = distinct 0 1 refl in
        let r0 = ==_refl (ids 0) in
        let r1 = ==_refl (ids 1) in
        (
          ground arith,
          (
            ground arith,
            (ground arith, (ground arith, (ground arith, (ground arith, (ground arith, tt))))),
          ),
        )
