-- ===== src/UnitTests/Software.antt =====
-- The unit tests of crates/gpu_abstraction/src/lib.rs.
use sher_graphics.Base.{false, arith, ==_refl, ℕ, ◌==◌, refl, true, List, [], ◌∷◌, length}
use sher_graphics.Map.{get, insert, remove, modify}
use sher_graphics.Result.{Result, ok, Action, pure, reads, writes, is_ok, ◌>>=◌, ◌>>◌}
use sher_graphics.Kernel.{ObjectId, DeviceType}
use sher_graphics.GraphicsApi.{graphics, compute, device_local, host_visible}
use sher_graphics.GpuAbstraction.{draw, barrier}
use sher_graphics.GpuAbstraction.Software.{
  SoftwareGpuDriver, new, new_device, with_devices, add_devices, device_id, device_ids, probe,
  initialize, shutdown, allocate_vram, new_allocation, debit, free_vram, map_dma, submit,
  inject_fault, clear_fault, fault_status, vram_available, reset_device, set_state,
}
use sher_graphics.UnitTests.{
  assert, result, outcome, unwrap, head, second, is_none, is_err, AllPass, AreDistinct,
}

abbrev first_id : Action SoftwareGpuDriver ObjectId
first_id d = unwrap (device_id d) d

-- `(ids[0], ids[1])` of `device_ids`.
abbrev two_ids : Action SoftwareGpuDriver (ObjectId × ObjectId)
two_ids d = (do a ← unwrap (head (device_ids d)); b ← unwrap (second (device_ids d)); pure (a, b)) d

module _ (ids : ℕ → ObjectId) where
  -- A test on `SoftwareGpuDriver::new(bytes)`, which draws the first identifier.
  abbrev on_new : ℕ → Action SoftwareGpuDriver (Unit {0}) → Result (Unit {0})
  on_new bytes test = (test (new (ids 0) bytes)).0

  -- A test on `SoftwareGpuDriver::with_devices(count, bytes)`.
  abbrev on_devices : ℕ → ℕ → Action SoftwareGpuDriver (Unit {0}) → Result (Unit {0})
  on_devices count bytes test = (test (with_devices ids count bytes)).0

  abbrev probe_returns_single_synthetic_device : Result (Unit {0})
  probe_returns_single_synthetic_device = on_new 268435456 (do
    devices ← reads probe
    assert (length devices == 1)
    first ← unwrap (head devices)
    assert (elim first.device_type [ DeviceType.gpu ↦ true | DeviceType.other n ↦ false ]))

  abbrev initialize_and_shutdown : Result (Unit {0})
  initialize_and_shutdown = on_new 1024 (do
    devices ← reads probe
    info ← unwrap (head devices)
    started ← result (initialize info)
    assert (is_ok started)
    stopped ← result (shutdown info.id)
    assert (is_ok stopped))

  abbrev allocate_and_free_vram : Result (Unit {0})
  allocate_and_free_vram = on_new 1024 (do
    id ← first_id
    alloc ← allocate_vram (ids 1) id 512 device_local
    left ← reads (vram_available id)
    assert (left == 512)
    free_vram alloc.id
    all ← reads (vram_available id)
    assert (all == 1024))

  abbrev allocation_beyond_vram_fails : Result (Unit {0})
  allocation_beyond_vram_fails =
      on_new 256 (do
        id ← first_id
        r ← result (allocate_vram (ids 1) id 512 device_local)
        assert (is_err r))

  abbrev map_dma_reflects_allocation : Result (Unit {0})
  map_dma_reflects_allocation = on_new 4096 (do
    id ← first_id
    alloc ← allocate_vram (ids 1) id 1024 host_visible
    mapping ← map_dma alloc.id
    assert (mapping.size == 1024)
    assert (mapping.allocation == alloc.id))

  abbrev submit_succeeds_without_fault : Result (Unit {0})
  submit_succeeds_without_fault =
      on_new 4096
        (do id ← first_id; r ← outcome (submit id graphics (draw 3 1 ∷ [])); assert (is_ok r))

  abbrev submit_rejected_while_faulted : Result (Unit {0})
  submit_rejected_while_faulted = on_new 4096 (do
    id ← first_id
    writes (inject_fault id 3735928559 "test hang")
    r ← outcome (submit id compute (barrier ∷ []))
    assert (is_err r)
    writes (clear_fault id)
    q ← outcome (submit id compute (barrier ∷ []))
    assert (is_ok q))

  abbrev fault_status_reports_injected_fault : Result (Unit {0})
  fault_status_reports_injected_fault = on_new 4096 (do
    id ← first_id
    before ← reads (fault_status id)
    assert (is_none before)
    writes (inject_fault id 4096 "page fault")
    after ← reads (fault_status id)
    fault ← unwrap after
    assert (fault.address == 4096))

  abbrev reset_device_clears_fault_and_allows_submit : Result (Unit {0})
  reset_device_clears_fault_and_allows_submit = on_new 4096 (do
    id ← first_id
    writes (inject_fault id 2989 "hang")
    r ← outcome (submit id graphics [])
    assert (is_err r)
    reset_device id
    fault ← reads (fault_status id)
    assert (is_none fault)
    q ← outcome (submit id graphics [])
    assert (is_ok q))

  abbrev reset_device_rejects_unknown_device : Result (Unit {0})
  reset_device_rejects_unknown_device =
      on_new 4096 (do r ← result (reset_device (ids 1)); assert (is_err r))

  abbrev unknown_device_rejected : Result (Unit {0})
  unknown_device_rejected =
      on_new 4096 (do r ← result (reads (vram_available (ids 1))); assert (is_err r))

  abbrev with_devices_creates_the_requested_count : Result (Unit {0})
  with_devices_creates_the_requested_count = on_devices 3 1024 (do
    found ← reads λ d. ok (device_ids d)
    assert (length found == 3)
    devices ← reads probe
    assert (length devices == 3))

  abbrev vram_is_isolated_per_device : Result (Unit {0})
  vram_is_isolated_per_device = on_devices 2 1024 (do
    (a, b) ← two_ids
    allocate_vram (ids 2) a 1024 device_local
    left ← reads (vram_available a)
    assert (left == 0)
    other ← reads (vram_available b)
    assert (other == 1024)
    r ← result (allocate_vram (ids 3) b 1024 device_local)
    assert (is_ok r))

  abbrev fault_is_isolated_per_device : Result (Unit {0})
  fault_is_isolated_per_device = on_devices 2 1024 (do
    (a, b) ← two_ids
    writes (inject_fault a 57005 "device A hang")
    r ← outcome (submit a graphics [])
    assert (is_err r)
    q ← outcome (submit b graphics [])
    assert (is_ok q)
    fault ← reads (fault_status b)
    assert (is_none fault))

  abbrev freeing_allocation_credits_the_correct_device : Result (Unit {0})
  freeing_allocation_credits_the_correct_device = on_devices 2 1024 (do
    (a, b) ← two_ids
    alloc ← allocate_vram (ids 2) a 512 host_visible
    free_vram alloc.id
    first ← reads (vram_available a)
    assert (first == 1024)
    other ← reads (vram_available b)
    assert (other == 1024))

  abbrev pub software_tests : List (Result (Unit {0}))
  software_tests =
      probe_returns_single_synthetic_device ∷ initialize_and_shutdown ∷ allocate_and_free_vram
      ∷ allocation_beyond_vram_fails ∷ map_dma_reflects_allocation ∷ submit_succeeds_without_fault
      ∷ submit_rejected_while_faulted ∷ fault_status_reports_injected_fault
      ∷ reset_device_clears_fault_and_allows_submit ∷ reset_device_rejects_unknown_device
      ∷ unknown_device_rejected ∷ with_devices_creates_the_requested_count
      ∷ vram_is_isolated_per_device ∷ fault_is_isolated_per_device
      ∷ freeing_allocation_credits_the_correct_device ∷ []

  module _ (distinct : AreDistinct ids) where
    pub software_tests-AllPass : AllPass software_tests
    unfolding new new_device with_devices add_devices device_id device_ids probe initialize shutdown
        allocate_vram new_allocation debit free_vram map_dma submit inject_fault clear_fault
        fault_status vram_available reset_device set_state get insert remove modify
    software_tests-AllPass =
        let d01 = distinct 0 1 refl in
        let d10 = distinct 1 0 refl in
        let d02 = distinct 0 2 refl in
        let d20 = distinct 2 0 refl in
        let d12 = distinct 1 2 refl in
        let d21 = distinct 2 1 refl in
        let r0 = ==_refl (ids 0) in
        let r1 = ==_refl (ids 1) in
        let r2 = ==_refl (ids 2) in
        (
          ground arith,
          (
            ground arith,
            (
              ground arith,
              (
                ground arith,
                (
                  ground arith,
                  (
                    ground arith,
                    (
                      ground arith,
                      (
                        ground arith,
                        (
                          ground arith,
                          (
                            ground arith,
                            (
                              ground arith,
                              (ground arith, (ground arith, (ground arith, (ground arith, tt)))),
                            ),
                          ),
                        ),
                      ),
                    ),
                  ),
                ),
              ),
            ),
          ),
        )
