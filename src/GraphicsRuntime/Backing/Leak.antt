-- ===== src/GraphicsRuntime/Backing/Leak.antt =====
-- What a recovery over the software driver leaves allocated.
use sher_graphics.Base.{
  ◌≡◌, refl, inl, inr, Bool, false, none, some, List, [], ◌∷◌, arith, ◌==◌, Bool-cases,
}
use sher_graphics.Map.{get, map_laws}
use sher_graphics.Result.{ok, err, Error}
use sher_graphics.Kernel.{ObjectId, Platform}
use sher_graphics.GraphicsApi.{Resource, ResourceKind, MemoryClass}
use sher_graphics.GpuAbstraction.{GpuAllocation}
use sher_graphics.GpuAbstraction.Software.{
  software, set_state, free_vram, reset_device, vram_available,
}
use sher_graphics.GraphicsRuntime.State.{GraphicsRuntime, log}
use sher_graphics.GraphicsRuntime.Objects.{create_resource, free_resource}
use sher_graphics.GraphicsRuntime.Recover.{recover_device, tear_down}
use sher_graphics.GraphicsRuntime.Recover.Cases.{denied, unknown, stuck, done, recover_device_cases}
use sher_graphics.GraphicsRuntime.History.{
  Call, creates_resource, frees_resource, recovers, administers, step, run,
}
use sher_graphics.GraphicsRuntime.Backing.{
  administered, AreUnadministered, SameStore, step-SameStore, create_resource_effect,
}

module _ {K : Platform} where
  -- The driver holds an allocation under `k`, and the runtime no resource.
  abbrev Leaked : ObjectId → GpuAllocation → GraphicsRuntime K software → Type 0
  Leaked k a rt = (get k rt.resources ≡ none) × (get k rt.driver.allocations ≡ some a)

  -- No later allocation is given the identifier `k`.
  abbrev draws : ObjectId → Call K software → Bool
  draws k (creates_resource fresh owner kind class) = fresh == k
  draws k _ = false

  abbrev pub NeverDraws : ObjectId → List (Call K software) → Type 0
  NeverDraws k [] = Unit
  NeverDraws k (c ∷ cs) = (draws k c ≡ false) × NeverDraws k cs

  SameStore-Leaked :
      (k : ObjectId) (a : GpuAllocation) (x y : GraphicsRuntime K software)
      → SameStore x y
      → Leaked k a y
      → Leaked k a x
  SameStore-Leaked k a x y (r, m) v = rw (r, m) v

  create_resource-Leaked :
      (k : ObjectId) (a : GpuAllocation) (fresh owner : ObjectId) (kind : ResourceKind)
      (class : MemoryClass) (rt : GraphicsRuntime K software)
      → (fresh == k) ≡ false
      → Leaked k a rt
      → Leaked k a (create_resource fresh owner kind class rt).1
  create_resource-Leaked k a fresh owner kind class rt other (gone, held) =
      elim (create_resource_effect fresh owner kind class rt) [
        | inl (r, m) ↦ rw (r, m) (gone, held)
        | inr (b, here, _, _, r, m) ↦ rw (r, m, here) (grind map_laws, grind map_laws)
      ]

  free_resource-Leaked :
      (k : ObjectId) (a : GpuAllocation) (id : ObjectId) (rt : GraphicsRuntime K software)
      → Leaked k a rt
      → Leaked k a (free_resource id rt).1
  unfolding free_resource free_vram set_state
  free_resource-Leaked k a id rt (gone, held) = elim (Bool-cases (id == k)) [
    | inl same ↦ (grind map_laws, grind map_laws)
    | inr other ↦ (grind map_laws, grind map_laws)
  ]

  recover_device-Leaked :
      (k : ObjectId) (a : GpuAllocation) (id : ObjectId) (caps : K.CapabilitySet)
      (rt : GraphicsRuntime K software)
      → Leaked k a rt
      → Leaked k a (recover_device id caps rt).1
  unfolding log tear_down reset_device set_state
  recover_device-Leaked k a id caps rt (gone, held) = elim (recover_device_cases id caps rt) [
    | denied _ e ↦ rw e (gone, held)
    | unknown _ _ e ↦ rw e (gone, held)
    | stuck dev _ _ _ _ e ↦ rw e (gone, ground arith)
    | done dev _ _ _ e ↦ rw e (grind map_laws, ground arith)
  ]

  step-Leaked :
      (k : ObjectId) (a : GpuAllocation) (c : Call K software) (rt : GraphicsRuntime K software)
      → administered c ≡ false
      → draws k c ≡ false
      → Leaked k a rt
      → Leaked k a (step c rt)
  unfolding step
  step-Leaked k a (creates_resource fresh owner kind class) rt h n v =
      create_resource-Leaked k a fresh owner kind class rt n v
  step-Leaked k a (frees_resource id) rt h n v = free_resource-Leaked k a id rt v
  step-Leaked k a (recovers id caps) rt h n v = recover_device-Leaked k a id caps rt v
  step-Leaked k a (administers caps use_driver) rt h n v = cc
  step-Leaked k a c rt h n v = SameStore-Leaked k a (step c rt) rt (step-SameStore c rt refl) v

  run-Leaked :
      (k : ObjectId) (a : GpuAllocation) (cs : List (Call K software))
      (rt : GraphicsRuntime K software)
      → AreUnadministered cs
      → NeverDraws k cs
      → Leaked k a rt
      → Leaked k a (run cs rt)
  unfolding run
  run-Leaked k a [] rt h n v = v
  run-Leaked k a (c ∷ cs) rt h n v =
      run-Leaked k a cs (step c rt) h.1 n.1 (step-Leaked k a c rt h.0 n.0 v)

  recovered :
      (id : ObjectId) (caps : K.CapabilitySet) (g k : ObjectId) (r : Resource) (a : GpuAllocation)
      (rt : GraphicsRuntime K software)
      → (recover_device id caps rt).0 ≡ ok tt
      → get k rt.resources ≡ some r
      → r.device ≡ id
      → get k rt.driver.allocations ≡ some a
      → let after = (recover_device id caps rt).1 in
        Leaked k a after × (vram_available g after.driver ≡ vram_available g rt.driver)
  unfolding log tear_down reset_device set_state vram_available
  recovered id caps g k r a rt h there owned held = elim (recover_device_cases id caps rt) [
    | denied _ e ↦ absurd (ground arith)
    | unknown _ _ e ↦ absurd (ground arith)
    | stuck _ _ _ _ _ e ↦ absurd (ground arith)
    | done dev _ known reset e ↦ rw e ((grind map_laws, ground arith), grind map_laws)
  ]

  -- A recovery that succeeds over the software driver gives back no VRAM: every GPU has as much free as
  -- before, and a resource of the recovered device stays allocated in the driver, and refused by
  -- `free_resource`, whatever calls follow but uses of `driver_mut`, if no later allocation is given
  -- its identifier.
  pub recovery_leaks :
      (id : ObjectId) (caps : K.CapabilitySet) (g k : ObjectId) (r : Resource) (a : GpuAllocation)
      (cs : List (Call K software)) (rt : GraphicsRuntime K software)
      → (recover_device id caps rt).0 ≡ ok tt
      → get k rt.resources ≡ some r
      → r.device ≡ id
      → get k rt.driver.allocations ≡ some a
      → AreUnadministered cs
      → NeverDraws k cs
      → let recovery = (recover_device id caps rt).1 in
        let after = run cs recovery in
        (vram_available g recovery.driver ≡ vram_available g rt.driver)
        × (get k after.driver.allocations ≡ some a)
        × (free_resource k after ≡ (err (Error.memory "unknown resource"), after))
  unfolding free_resource
  recovery_leaks id caps g k r a cs rt h there owned held unadministered never =
      let (leaked, free) = recovered id caps g k r a rt h there owned held in
      let (gone, kept) =
        run-Leaked k a cs (recover_device id caps rt).1 unadministered never leaked in
      (free, kept, ground arith)
