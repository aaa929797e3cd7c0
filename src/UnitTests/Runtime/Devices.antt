-- ===== src/UnitTests/Runtime/Devices.antt =====
-- `mod tests` of crates/graphics_runtime/src/lib.rs: the tests with several devices.
use sher_graphics.Base.{ℕ, refl, ◌==◌, not, is_some, List, [], ◌∷◌, arith, ==_refl}
use sher_graphics.Map.{get, insert, remove, modify}
use sher_graphics.Result.{Result, reads, writes, is_ok, ◌>>=◌, ◌>>◌}
use sher_graphics.Kernel.{ObjectId, Platform}
use sher_graphics.GraphicsApi.{transfer, device_local, buffer, default_buffer_usage, queue}
use sher_graphics.GpuAbstraction.Software.{
  software, new_device, with_devices, add_devices, device_ids, probe, initialize, set_state,
  allocate_vram, new_allocation, debit, inject_fault, fault_status, submit as driver_submit,
}
use sher_graphics.GraphicsRuntime.State.{new, device}
use sher_graphics.GraphicsRuntime.Objects.{
  create_device, create_timeline, create_resource, create_command_stream, new_graphics_device,
}
use sher_graphics.GraphicsRuntime.Stream.{validate_stream, translate_ops}
use sher_graphics.GraphicsRuntime.Submit.{submit, submit_to_driver, contain, timeline_value}
use sher_graphics.GraphicsRuntime.Recover.{driver_mut, device_fault}
use sher_graphics.UnitTests.{
  assert, result, unwrap, head, second, is_none, is_err, AllPass, AreDistinct,
}
use sher_graphics.UnitTests.Runtime.{
  Kit, IsLawful, full_caps, admin_caps, four, full_caps_alloc, full_caps_submit, admin_caps_admin,
}

module _ {K : Platform} (T : Kit K) (ids : ℕ → ObjectId) where
  -- The two GPUs take the first two identifiers, the two devices those from the third on.
  abbrev runtime_supports_two_independent_devices : Result (Unit {0})
  runtime_supports_two_independent_devices =
      let driver = with_devices ids 2 4096 in
      let gpu_ids = device_ids driver in
      ((do
        first ← unwrap (head gpu_ids)
        other ← unwrap (second gpu_ids)
        device_a ← create_device (four ids 2) first (full_caps T)
        device_b ← create_device (four ids 6) other (full_caps T)
        assert (not (device_a.id == device_b.id))
        create_resource (ids 10) device_a.id (buffer 4096 default_buffer_usage) device_local
        more ←
            result
              (create_resource (ids 11) device_a.id (buffer 1 default_buffer_usage) device_local)
        assert (is_err more)
        spare ←
            result
              (create_resource (ids 12) device_b.id (buffer 4096 default_buffer_usage) device_local)
        assert (is_ok spare)
        driver_mut (admin_caps T) (writes (inject_fault device_a.gpu 2989 "device A hang"))
        fault_a ← reads (device_fault device_a.id)
        assert (is_some fault_a)
        fault_b ← reads (device_fault device_b.id)
        assert (is_none fault_b)
        timeline_b ← create_timeline (ids 13) device_b.id
        stream_b ← create_command_stream (ids 14) device_b.id transfer
        queue_b ← unwrap (queue device_b transfer)
        r ← result (submit queue_b stream_b timeline_b.id 1)
        assert (is_ok r))
        (new K software driver 1024)).0

  abbrev pub device_tests : List (Result (Unit {0}))
  device_tests = runtime_supports_two_independent_devices ∷ []

  module _ (lawful : IsLawful T) (distinct : AreDistinct ids) where
    pub device_tests-AllPass : AllPass device_tests
    unfolding new_device with_devices add_devices device_ids probe initialize set_state
        allocate_vram new_allocation debit inject_fault fault_status driver_submit new device
        create_device create_timeline create_resource create_command_stream new_graphics_device
        queue validate_stream translate_ops submit submit_to_driver contain timeline_value
        driver_mut device_fault get insert remove modify
    device_tests-AllPass =
        let full = full_caps_alloc lawful in
        let full_submit = full_caps_submit lawful in
        let admin = admin_caps_admin lawful in
        let g01 = distinct 0 1 refl in
        let g10 = distinct 1 0 refl in
        let d26 = distinct 2 6 refl in
        let d62 = distinct 6 2 refl in
        let r0 = ==_refl (ids 0) in
        let r1 = ==_refl (ids 1) in
        let r2 = ==_refl (ids 2) in
        let r6 = ==_refl (ids 6) in let r13 = ==_refl (ids 13) in (ground arith, tt)
