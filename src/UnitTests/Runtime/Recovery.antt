-- ===== src/UnitTests/Runtime/Recovery.antt =====
-- `mod tests` of crates/graphics_runtime/src/lib.rs: the tests of faults, of
-- recoveries and of the audit log.
use sher_graphics.Base.{
  ℕ, refl, ◌==◌, Bool, true, false, not, ◌&&◌, is_some, List, [], ◌∷◌, arith, ==_refl,
  if◌then◌else◌, String, length,
}
use sher_graphics.Map.{get, insert, remove, modify, retain, contains_key}
use sher_graphics.Result.{Result, ok, Action, pure, reads, writes, is_ok, ◌>>=◌, ◌>>◌}
use sher_graphics.Kernel.{ObjectId, Platform}
use sher_graphics.GraphicsApi.{
  graphics, transfer, vertex, host_visible, buffer, default_buffer_usage, queue,
}
use sher_graphics.GpuAbstraction.Software.{
  software, new as new_driver, new_device, with_devices, device_id, probe, initialize, set_state,
  allocate_vram, new_allocation, debit, inject_fault, fault_status, reset_device,
  submit as driver_submit,
}
use sher_graphics.GraphicsRuntime.State.{GraphicsRuntime, new, device, audit_log}
use sher_graphics.GraphicsRuntime.Objects.{
  create_device, create_timeline, create_resource, create_command_stream, create_shader_module,
  create_pipeline, new_graphics_device,
}
use sher_graphics.GraphicsRuntime.Stream.{validate_stream, translate_ops}
use sher_graphics.GraphicsRuntime.Submit.{submit, submit_to_driver, contain, timeline_value}
use sher_graphics.GraphicsRuntime.Recover.{driver_mut, device_fault, recover_device, tear_down}
use sher_graphics.UnitTests.{
  assert, result, unwrap, head, second, text_eq, is_none, is_err, AllPass, AreDistinct,
}
use sher_graphics.UnitTests.Runtime.{
  Event, Kit, IsLawful, full_caps, admin_caps, with_device, full_caps_alloc, full_caps_submit,
  full_caps_admin, admin_caps_admin,
}

-- `events.iter().filter(|e| e.action == action).collect()`
abbrev filter_action : String → List Event → List Event
filter_action action [] = []
filter_action action (e ∷ es) =
    let rest = filter_action action es in if text_eq e.action action then e ∷ rest else rest

abbrev all_by : ObjectId → List Event → Bool
all_by actor [] = true
all_by actor (e ∷ es) = (e.actor == actor) && all_by actor es

module _ {K : Platform} (T : Kit K) (ids : ℕ → ObjectId) where
  -- `runtime.driver_mut(&admin_caps()).unwrap().inject_fault(..)`
  abbrev inject : ObjectId → ℕ → String → Action (GraphicsRuntime K software) (Unit {0})
  inject gpu address text = driver_mut (admin_caps T) (writes (inject_fault gpu address text))

  abbrev audit_log_records_authorized_and_denied_gpu_admin_operations : Result (Unit {0})
  audit_log_records_authorized_and_denied_gpu_admin_operations = with_device T ids λ dev. do
    r ← result (recover_device dev.id (full_caps T))
    assert (is_err r)
    recover_device dev.id (admin_caps T)
    audit ← reads λ rt. ok (audit_log rt)
    let recover_events = filter_action "recover_device" (T.events audit)
    assert (length recover_events == 2)
    first ← unwrap (head recover_events)
    assert (not first.result)
    other ← unwrap (second recover_events)
    assert other.result
    assert (all_by dev.id recover_events)

  abbrev device_fault_reports_none_when_healthy : Result (Unit {0})
  device_fault_reports_none_when_healthy =
      with_device T ids λ dev. do fault ← reads (device_fault dev.id); assert (is_none fault)

  abbrev faulted_device_rejects_submit_until_recovered : Result (Unit {0})
  faulted_device_rejects_submit_until_recovered = with_device T ids λ dev. do
    timeline ← create_timeline (ids 5) dev.id
    on ← unwrap (queue dev transfer)
    inject dev.gpu 57005 "simulated hang"
    fault ← reads (device_fault dev.id)
    assert (is_some fault)
    stream ← create_command_stream (ids 6) dev.id transfer
    r ← result (submit on stream timeline.id 1)
    assert (is_err r)
    recover_device dev.id (admin_caps T)
    again ← result (create_command_stream (ids 7) dev.id transfer)
    assert (is_err again)

  abbrev recover_device_drops_its_resources_and_pipelines : Result (Unit {0})
  recover_device_drops_its_resources_and_pipelines = with_device T ids λ dev. do
    shader ← create_shader_module (ids 5) dev.id vertex (0 ∷ 0 ∷ 0 ∷ 0 ∷ [])
    pipeline ← create_pipeline (ids 6) dev.id shader.id graphics
    resource ← create_resource (ids 7) dev.id (buffer 256 default_buffer_usage) host_visible
    inject dev.gpu 1 "fault"
    recover_device dev.id (admin_caps T)
    left ← reads λ rt. ok (contains_key pipeline.id rt.pipelines)
    assert (not left)
    kept ← reads λ rt. ok (contains_key shader.id rt.shaders)
    assert (not kept)
    held ← reads λ rt. ok (contains_key resource.id rt.resources)
    assert (not held)

  abbrev recovering_unknown_device_fails : Result (Unit {0})
  recovering_unknown_device_fails =
      with_device T ids
        λ dev. do r ← result (recover_device (ids 5) (admin_caps T)); assert (is_err r)

  abbrev driver_mut_requires_gpu_admin_capability : Result (Unit {0})
  driver_mut_requires_gpu_admin_capability = with_device T ids λ dev. do
    denied ← result (driver_mut (full_caps T) (pure tt))
    assert (is_err denied)
    given ← result (driver_mut (admin_caps T) (pure tt))
    assert (is_ok given)

  abbrev recover_device_requires_gpu_admin_capability : Result (Unit {0})
  recover_device_requires_gpu_admin_capability = with_device T ids λ dev. do
    inject dev.gpu 1 "fault"
    r ← result (recover_device dev.id (full_caps T))
    assert (is_err r)
    fault ← reads (device_fault dev.id)
    assert (is_some fault)
    recover_device dev.id (admin_caps T)
    gone ← result (reads (device dev.id))
    assert (is_err gone)

  abbrev pub recovery_tests : List (Result (Unit {0}))
  recovery_tests =
      audit_log_records_authorized_and_denied_gpu_admin_operations
      ∷ device_fault_reports_none_when_healthy ∷ faulted_device_rejects_submit_until_recovered
      ∷ recover_device_drops_its_resources_and_pipelines ∷ recovering_unknown_device_fails
      ∷ driver_mut_requires_gpu_admin_capability ∷ recover_device_requires_gpu_admin_capability ∷ []

  module _ (lawful : IsLawful T) (distinct : AreDistinct ids) where
    pub recovery_tests-AllPass : AllPass recovery_tests
    unfolding new_driver new_device with_devices device_id probe initialize set_state allocate_vram
        new_allocation debit inject_fault fault_status reset_device driver_submit new device
        audit_log create_device create_timeline create_resource create_command_stream
        create_shader_module create_pipeline new_graphics_device queue validate_stream translate_ops
        submit submit_to_driver contain timeline_value driver_mut device_fault recover_device
        tear_down get insert remove modify retain
    recovery_tests-AllPass =
        let full = full_caps_alloc lawful in
        let full_submit = full_caps_submit lawful in
        let full_admin = full_caps_admin lawful in
        let admin = admin_caps_admin lawful in
        let first = K.log K.empty_log (ids 0) "create_device" true in
        let denied = K.log first (ids 1) "recover_device" false in
        let e0 = lawful.no_events in
        let e1 = lawful.logged K.empty_log (ids 0) "create_device" true in
        let e2 = lawful.logged first (ids 1) "recover_device" false in
        let e3 = lawful.logged denied (ids 1) "recover_device" true in
        let apart = distinct 5 1 refl in
        let r0 = ==_refl (ids 0) in
        let r1 = ==_refl (ids 1) in
        let r5 = ==_refl (ids 5) in
        let r6 = ==_refl (ids 6) in
        let r7 = ==_refl (ids 7) in
        (
          ground arith,
          (
            ground arith,
            (ground arith, (ground arith, (ground arith, (ground arith, (ground arith, tt))))),
          ),
        )
