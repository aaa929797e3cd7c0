-- ===== src/UnitTests/Runtime/Objects.antt =====
-- `mod tests` of crates/graphics_runtime/src/lib.rs: the tests of the methods that
-- create objects.
use sher_graphics.Base.{ℕ, refl, ◌==◌, false, not, is_some, List, [], ◌∷◌, arith, ==_refl}
use sher_graphics.Map.{get, insert, remove, modify}
use sher_graphics.Result.{Result, ok, reads, is_ok, ◌>>=◌, ◌>>◌}
use sher_graphics.Kernel.{ObjectId, Platform, gpu_memory_alloc}
use sher_graphics.GraphicsApi.{
  graphics, compute, transfer, device_local, host_visible, vertex, buffer, image,
  default_buffer_usage, queue,
}
use sher_graphics.GpuAbstraction.Software.{
  software, new as new_driver, new_device, with_devices, device_id, probe, initialize,
  allocate_vram, new_allocation, debit, free_vram, set_state,
}
use sher_graphics.GraphicsRuntime.State.{new, audit_log}
use sher_graphics.GraphicsRuntime.Objects.{
  create_device, create_resource, create_shader_module, create_pipeline, free_resource,
  new_graphics_device,
}
use sher_graphics.UnitTests.{assert, result, unwrap, last, text_eq, is_err, AllPass, AreDistinct}
use sher_graphics.UnitTests.Runtime.{
  full_caps_alloc, caps_with_own, Kit, IsLawful, caps_with, four, on_new, with_device,
}

module _ {K : Platform} (T : Kit K) (ids : ℕ → ObjectId) where
  abbrev create_device_requires_capability : Result (Unit {0})
  create_device_requires_capability =
      on_new K software (λ d. d) (ids 0) 1024 1024
        λ gpu. do
          r ← result (create_device (four ids 1) gpu T.default_caps)
          assert (is_err r)
          audit ← reads λ rt. ok (audit_log rt)
          entry ← unwrap (last (T.events audit))
          assert (entry.actor == gpu)
          assert (text_eq entry.action "create_device")
          assert (not entry.result)

  abbrev create_device_rejects_unknown_gpu : Result (Unit {0})
  create_device_rejects_unknown_gpu =
      on_new K software (λ d. d) (ids 0) 1024 1024
        λ gpu. do
          r ← result (create_device (four ids 2) (ids 1) (caps_with T gpu_memory_alloc))
          assert (is_err r)

  abbrev create_device_populates_three_workload_queues : Result (Unit {0})
  create_device_populates_three_workload_queues = with_device T ids λ device. do
    assert (is_some (queue device graphics))
    assert (is_some (queue device compute))
    assert (is_some (queue device transfer))

  abbrev create_resource_allocates_from_driver : Result (Unit {0})
  create_resource_allocates_from_driver = with_device T ids λ device. do
    resource ← create_resource (ids 5) device.id (buffer 4096 default_buffer_usage) host_visible
    assert (elim resource.kind [ buffer size usage ↦ size == 4096 | image w h d f u ↦ false ])

  abbrev create_resource_fails_when_vram_exhausted : Result (Unit {0})
  create_resource_fails_when_vram_exhausted =
      on_new K software (λ d. d) (ids 0) 1024 1024
        λ gpu. do
          device ← create_device (four ids 1) gpu (caps_with T gpu_memory_alloc)
          r ←
              result
                (create_resource (ids 5) device.id (buffer 4096 default_buffer_usage) device_local)
          assert (is_err r)

  abbrev pipeline_creation_requires_known_shader : Result (Unit {0})
  pipeline_creation_requires_known_shader = with_device T ids λ device. do
    r ← result (create_pipeline (ids 6) device.id (ids 5) graphics)
    assert (is_err r)

  abbrev pipeline_creation_succeeds_for_registered_shader : Result (Unit {0})
  pipeline_creation_succeeds_for_registered_shader = with_device T ids λ device. do
    shader ← create_shader_module (ids 5) device.id vertex (0 ∷ 0 ∷ 0 ∷ 0 ∷ 0 ∷ 0 ∷ 0 ∷ 0 ∷ [])
    pipeline ← create_pipeline (ids 6) device.id shader.id graphics
    assert (pipeline.shader == shader.id)

  abbrev free_resource_returns_vram : Result (Unit {0})
  free_resource_returns_vram = with_device T ids λ device. do
    resource ← create_resource (ids 5) device.id (buffer 4096 default_buffer_usage) host_visible
    r ← result (free_resource resource.id)
    assert (is_ok r)
    again ← result (free_resource resource.id)
    assert (is_err again)

  abbrev pub object_tests : List (Result (Unit {0}))
  object_tests =
      create_device_requires_capability ∷ create_device_rejects_unknown_gpu
      ∷ create_device_populates_three_workload_queues ∷ create_resource_allocates_from_driver
      ∷ create_resource_fails_when_vram_exhausted ∷ pipeline_creation_requires_known_shader
      ∷ pipeline_creation_succeeds_for_registered_shader ∷ free_resource_returns_vram ∷ []

  module _ (lawful : IsLawful T) (distinct : AreDistinct ids) where
    pub object_tests-AllPass : AllPass object_tests
    unfolding new_driver new_device with_devices device_id probe initialize allocate_vram
        new_allocation debit free_vram set_state new audit_log create_device create_resource
        create_shader_module create_pipeline free_resource new_graphics_device queue get insert
        remove modify
    object_tests-AllPass =
        let none_granted = lawful.nothing gpu_memory_alloc in
        let alloc = caps_with_own lawful in
        let full = full_caps_alloc lawful in
        let events = lawful.logged K.empty_log (ids 0) "create_device" false in
        let no_events = lawful.no_events in
        let apart = distinct 0 1 refl in
        let r = ==_refl (ids 0) in
        let r1 = ==_refl (ids 1) in
        let r5 = ==_refl (ids 5) in
        (
          ground arith,
          (
            ground arith,
            (
              ground arith,
              (ground arith, (ground arith, (ground arith, (ground arith, (ground arith, tt))))),
            ),
          ),
        )
