-- ===== src/GraphicsRuntime/Backing.antt =====
-- The runtime's resources and the allocations of the software driver under them.
pub mod Leak
use sher_graphics.Base.{
  ℕ, ◌≡◌, refl, ◌⊎◌, inl, inr, Bool, true, false, some, List, [], ◌∷◌, arith, ◌==◌, Bool-cases,
  Option-cases,
}
use sher_graphics.Map.{get, insert, remove, map_laws, retain-some}
use sher_graphics.Result.{ok, err, Error}
use sher_graphics.Kernel.{ObjectId, Platform}
use sher_graphics.GraphicsApi.{Resource, ResourceKind, MemoryClass}
use sher_graphics.GpuAbstraction.{GpuAllocation, PanicPayload, Outcome, returned, panicked}
use sher_graphics.GpuAbstraction.Software.{
  SoftwareGpuDriver, software, initialize, set_state, allocate_vram, new_allocation, debit,
  free_vram, reset_device, mark_faulted, inject_fault, vram_available, state,
}
use sher_graphics.GpuAbstraction.Software.Vram.{allocate_vram_cases}
use sher_graphics.GraphicsRuntime.State.{GraphicsRuntime, new, log}
use sher_graphics.GraphicsRuntime.Objects.{
  resource_of, resource_size, create_device, create_timeline, create_resource,
  create_command_stream, create_shader_module, create_pipeline, free_resource,
}
use sher_graphics.GraphicsRuntime.Submit.{submit, contain}
use sher_graphics.GraphicsRuntime.Recover.{recover_device, tear_down}
use sher_graphics.GraphicsRuntime.Recover.Cases.{denied, unknown, stuck, done, recover_device_cases}
use sher_graphics.GraphicsRuntime.Presentation.{
  register_connector, present_frame, set_cursor_image, set_cursor_position, show_cursor,
  hide_cursor,
}
use sher_graphics.GraphicsRuntime.History.{
  Call, creates_resource, frees_resource, submits, recovers, administers, step, run,
}

module _ {K : Platform} where
  -- Every resource has an allocation of its size and class under its own identifier.
  abbrev pub IsBacked : GraphicsRuntime K software → Type 0
  IsBacked rt =
      (k : ObjectId) (r : Resource)
      → get k rt.resources ≡ some r
      → (a : GpuAllocation) × (get k rt.driver.allocations ≡ some a)
        × (a.size ≡ resource_size r.kind)
        × (a.class ≡ r.memory_class)

  -- The calls that touch neither the resources nor the driver's allocations.
  abbrev pub SameStore : GraphicsRuntime K software → GraphicsRuntime K software → Type 0
  SameStore a b = (a.resources ≡ b.resources) × (a.driver.allocations ≡ b.driver.allocations)

  SameStore-IsBacked : (a b : GraphicsRuntime K software) → SameStore a b → IsBacked b → IsBacked a
  SameStore-IsBacked a b (r, m) v = rw (r, m) v

  pub create_resource_effect :
      (fresh owner : ObjectId) (kind : ResourceKind) (class : MemoryClass)
      (rt : GraphicsRuntime K software)
      → let after = (create_resource fresh owner kind class rt).1 in
        SameStore after rt
        ⊎ ((a : GpuAllocation) × (a.id ≡ fresh)
            × (a.size ≡ resource_size kind)
            × (a.class ≡ class)
            × (after.resources ≡ insert a.id (resource_of owner kind class a) rt.resources)
            × (after.driver.allocations ≡ insert a.id a rt.driver.allocations))
  unfolding create_resource debit new_allocation
  create_resource_effect fresh owner kind class rt = elim (Option-cases (get owner rt.devices)) [
    | inl e ↦ inl (ground arith, ground arith)
    | inr (dev, e) ↦ elim (allocate_vram_cases fresh dev.gpu (resource_size kind) class rt.driver) [
      | inl (_, q) ↦ inl (ground arith, ground arith)
      | inr (inl (_, _, _, q)) ↦ inl (ground arith, ground arith)
      | inr (inr (s, known, fits, q)) ↦ inr (
        new_allocation fresh dev.gpu (resource_size kind) class s,
        refl,
        refl,
        refl,
        ground arith,
        ground arith,
      )
    ]
  ]

  create_resource-IsBacked :
      (fresh owner : ObjectId) (kind : ResourceKind) (class : MemoryClass)
      (rt : GraphicsRuntime K software)
      → IsBacked rt
      → IsBacked (create_resource fresh owner kind class rt).1
  create_resource-IsBacked fresh owner kind class rt v =
      elim (create_resource_effect fresh owner kind class rt) [
        | inl same ↦ rw (same.0, same.1) v
        | inr (a, _, size, held, resources, allocations) ↦ λ k r e. elim (Bool-cases (k == a.id)) [
          | inl here ↦ (a, grind map_laws, grind (map_laws, resources), grind (map_laws, resources))
          | inr there ↦
              let (b, q, l, m) = v k r (grind (map_laws, resources)) in
              (b, grind (map_laws, allocations), l, m)
        ]
      ]

  free_resource_effect :
      (id : ObjectId) (rt : GraphicsRuntime K software)
      → let after = (free_resource id rt).1 in
        SameStore after rt
        ⊎ ((after.resources ≡ remove id rt.resources)
            × (after.driver.allocations ≡ remove id rt.driver.allocations))
        ⊎ ((after.resources ≡ remove id rt.resources)
            × (after.driver.allocations ≡ rt.driver.allocations))
  unfolding free_resource free_vram
  free_resource_effect id rt = elim (Option-cases (get id rt.resources)) [
    | inl e ↦ inl (ground arith, ground arith)
    | inr (r, e) ↦ elim (Option-cases (get id rt.driver.allocations)) [
      | inl q ↦ inr (inr (ground arith, ground arith))
      | inr (a, q) ↦ inr (inl (ground arith, ground arith))
    ]
  ]

  free_resource-IsBacked :
      (id : ObjectId) (rt : GraphicsRuntime K software)
      → IsBacked rt
      → IsBacked (free_resource id rt).1
  free_resource-IsBacked id rt v = elim (free_resource_effect id rt) [
    | inl same ↦ rw (same.0, same.1) v
    | inr (inl (r, m)) ↦
        λ k x e. let (a, q, l, c) = v k x (grind (map_laws, r)) in (a, grind (map_laws, r, m), l, c)
    | inr (inr (r, m)) ↦
        λ k x e. let (a, q, l, c) = v k x (grind (map_laws, r)) in (a, grind (map_laws, r, m), l, c)
  ]

  recover_device-IsBacked :
      (id : ObjectId) (caps : K.CapabilitySet) (rt : GraphicsRuntime K software)
      → IsBacked rt
      → IsBacked (recover_device id caps rt).1
  unfolding log tear_down reset_device set_state
  recover_device-IsBacked id caps rt v = elim (recover_device_cases id caps rt) [
    | denied _ e ↦ rw e v
    | unknown _ _ e ↦ rw e v
    | stuck dev _ _ _ _ e ↦
        SameStore-IsBacked (recover_device id caps rt).1 rt (rw e (refl, ground arith)) v
    | done dev _ _ _ e ↦ rw e λ k r q.
        let (old, kept) = retain-some k r _ rt.resources q in
        let (a, held, l, c) = v k r old in (a, ground arith, l, c)
  ]

  abbrev pub administered : Call K software → Bool
  administered (administers caps use_driver) = true
  administered _ = false

  abbrev pub AreUnadministered : List (Call K software) → Type 0
  AreUnadministered [] = Unit
  AreUnadministered (c ∷ cs) = (administered c ≡ false) × AreUnadministered cs

  abbrev pub keeps_store : Call K software → Bool
  keeps_store (creates_resource fresh owner kind class) = false
  keeps_store (frees_resource id) = false
  keeps_store (recovers id caps) = false
  keeps_store (administers caps use_driver) = false
  keeps_store _ = true

  pub step-SameStore :
      (c : Call K software) (rt : GraphicsRuntime K software)
      → keeps_store c ≡ true
      → SameStore (step c rt) rt
  unfolding step create_device create_timeline create_command_stream create_shader_module
      create_pipeline register_connector present_frame set_cursor_image set_cursor_position
      show_cursor hide_cursor submit contain initialize set_state mark_faulted inject_fault
      sher_graphics.GpuAbstraction.Software.submit
  step-SameStore (creates_resource fresh owner kind class) rt h = cc
  step-SameStore (frees_resource id) rt h = cc
  step-SameStore (recovers id caps) rt h = cc
  step-SameStore (administers caps use_driver) rt h = cc
  step-SameStore (submits queue stream timeline value) rt h = (ground arith, ground arith)
  step-SameStore c rt h = (ground arith, ground arith)

  step-IsBacked :
      (c : Call K software) (rt : GraphicsRuntime K software)
      → administered c ≡ false
      → IsBacked rt
      → IsBacked (step c rt)
  unfolding step
  step-IsBacked (creates_resource fresh owner kind class) rt h v =
      create_resource-IsBacked fresh owner kind class rt v
  step-IsBacked (frees_resource id) rt h v = free_resource-IsBacked id rt v
  step-IsBacked (recovers id caps) rt h v = recover_device-IsBacked id caps rt v
  step-IsBacked (administers caps use_driver) rt h v = cc
  step-IsBacked c rt h v = SameStore-IsBacked (step c rt) rt (step-SameStore c rt refl) v

  run-IsBacked :
      (cs : List (Call K software)) (rt : GraphicsRuntime K software)
      → AreUnadministered cs
      → IsBacked rt
      → IsBacked (run cs rt)
  unfolding run
  run-IsBacked [] rt h v = v
  run-IsBacked (c ∷ cs) rt h v = run-IsBacked cs (step c rt) h.1 (step-IsBacked c rt h.0 v)

  -- Over the software driver, after any history of a new runtime that does not reach into the driver
  -- by `driver_mut`, every resource has an allocation of its size and memory class.
  pub run-new-IsBacked :
      (driver : SoftwareGpuDriver) (bytes : ℕ) (cs : List (Call K software))
      → AreUnadministered cs
      → IsBacked (run cs (new K software driver bytes))
  unfolding new get
  run-new-IsBacked driver bytes cs h = run-IsBacked cs _ h (λ k r e. cc)
