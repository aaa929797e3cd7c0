-- ===== src/UnitTests/Compat.antt =====
-- The unit tests of crates/graphics_compat/src/lib.rs.
use sher_graphics.Base.{
  ℕ, refl, ◌==◌, Bool, true, false, List, [], ◌∷◌, arith, ==_refl, none, some, Option,
}
use sher_graphics.Map.{get, insert, remove, modify}
use sher_graphics.Result.{Result, Action, ◌>>=◌}
use sher_graphics.Kernel.{ObjectId, Platform, gpu_memory_alloc}
use sher_graphics.GpuAbstraction.Software.{
  software, new as new_driver, new_device, with_devices, device_id, probe, initialize, set_state,
  allocate_vram, new_allocation, debit, free_vram,
}
use sher_graphics.GraphicsRuntime.State.{GraphicsRuntime, new}
use sher_graphics.GraphicsRuntime.Objects.{
  create_device, create_resource, free_resource, new_graphics_device,
}
use sher_graphics.GraphicsCompat.{
  handle, gem_create, gem_close, prime_handle_to_fd, mode_get_resources, DrmResponse, gem_handle,
  closed, prime_fd, resources,
}
use sher_graphics.UnitTests.{assert, result, unwrap, is_err, AllPass, AreDistinct}
use sher_graphics.UnitTests.Runtime.{Kit, IsLawful, caps_with, four, on_new, caps_with_own}

-- `match response { DrmResponse::GemHandle(id) => id, .. }`
abbrev handle_of : DrmResponse → Option ObjectId
handle_of (gem_handle id) = some id
handle_of _ = none

abbrev is_closed : DrmResponse → Bool
is_closed closed = true
is_closed _ = false

abbrev is_prime_fd : ObjectId → DrmResponse → Bool
is_prime_fd handle (prime_fd id) = id == handle
is_prime_fd handle _ = false

abbrev is_no_resources : DrmResponse → Bool
is_no_resources (resources []) = true
is_no_resources _ = false

module _ {K : Platform} (T : Kit K) (ids : ℕ → ObjectId) where
  -- A test that begins with `shim_ready`, and gets the device's identifier.
  abbrev shim_ready :
      (ObjectId → Action (GraphicsRuntime K software) (Unit {0})) → Result (Unit {0})
  shim_ready test =
      on_new K software (λ d. d) (ids 0) 16777216 1024
        λ gpu. do
          device ← create_device (four ids 1) gpu (caps_with T gpu_memory_alloc)
          test device.id

  abbrev gem_create_and_close_round_trip : Result (Unit {0})
  gem_create_and_close_round_trip = shim_ready λ device. do
    created ← handle (ids 5) (gem_create device 4096)
    buffer ← unwrap (handle_of created)
    response ← handle (ids 6) (gem_close buffer)
    assert (is_closed response)

  abbrev prime_export_returns_handle : Result (Unit {0})
  prime_export_returns_handle = shim_ready λ device. do
    created ← handle (ids 5) (gem_create device 1024)
    buffer ← unwrap (handle_of created)
    response ← handle (ids 6) (prime_handle_to_fd buffer)
    assert (is_prime_fd buffer response)

  abbrev mode_get_resources_returns_empty_by_default : Result (Unit {0})
  mode_get_resources_returns_empty_by_default =
      shim_ready
        λ device. do response ← handle (ids 5) mode_get_resources; assert (is_no_resources response)

  abbrev gem_create_fails_for_unknown_device : Result (Unit {0})
  gem_create_fails_for_unknown_device =
      shim_ready
        λ device. do r ← result (handle (ids 6) (gem_create (ids 5) 4096)); assert (is_err r)

  abbrev pub compat_tests : List (Result (Unit {0}))
  compat_tests =
      gem_create_and_close_round_trip ∷ prime_export_returns_handle
      ∷ mode_get_resources_returns_empty_by_default ∷ gem_create_fails_for_unknown_device ∷ []

  module _ (lawful : IsLawful T) (distinct : AreDistinct ids) where
    pub compat_tests-AllPass : AllPass compat_tests
    unfolding new_driver new_device with_devices device_id probe initialize set_state allocate_vram
        new_allocation debit free_vram new create_device create_resource free_resource
        new_graphics_device handle get insert remove modify
    compat_tests-AllPass =
        let alloc = caps_with_own lawful in
        let apart = distinct 5 1 refl in
        let r0 = ==_refl (ids 0) in
        let r1 = ==_refl (ids 1) in
        let r5 = ==_refl (ids 5) in
        (ground arith, (ground arith, (ground arith, (ground arith, tt))))
