-- ===== src/GpuAbstraction/Vulkan/Real/Opening.antt =====
-- Which driver `FallbackDriver::open` opens.
use sher_graphics.Base.{
  ℕ, suc, ap, subst, ◌<>◌, ◌≡◌, ◌≢◌, refl, ◌⊎◌, inl, inr, true, false, String, none, List, [], ◌∷◌,
  map, arith,
}
use sher_graphics.Result.{ok, err, Error}
use sher_graphics.Kernel.{ObjectId}
use sher_graphics.VulkanBackend.{Ash, VulkanError}
use sher_graphics.VulkanBackend.Render.{Rendered, Rendered.done as made, Rendered.failed as broken}
use sher_graphics.VulkanBackend.Context.{
  Host, VulkanContext, AdapterInfo, probe, enumerate_adapters,
}
use sher_graphics.GpuAbstraction.Software.{new as new_software}
use sher_graphics.GpuAbstraction.Vulkan.State.{backend_error_to_sher, Worker, alive, ending}
use sher_graphics.GpuAbstraction.Vulkan.Open.{
  Spawn, refused, running, over, with_backend, start, new_driver, adapter_devices,
}
use sher_graphics.GpuAbstraction.Fallback.{
  FallbackDriver, over_vulkan, over_software, from_vulkan_result, is_vulkan, fallback_reason,
}
use sher_graphics.GpuAbstraction.Vulkan.Real.{
  RealVulkanBackend, real, adapter_of, map_vulkan_error, enumerate, new, open_driver,
}

abbrev pub Starts : Spawn → Type 0
Starts (refused message) = ⊥
Starts _ = Unit

-- Every outcome of a chain of calls.
pub Rendered-cases :
    {A : Ash} {T : Type 0} (r : Rendered A T)
    → ((e : VulkanError A) × (r ≡ broken e)) ⊎ ((x : T) × (r ≡ made x))
Rendered-cases (broken e) = inl (e, refl)
Rendered-cases (made x) = inr (x, refl)

module _ {A : Ash} (H : Host A) where
  -- A context can be made, the adapters are found, and the render thread starts.
  abbrev pub Usable : Spawn → H.World → List (AdapterInfo H.PhysicalDeviceType) → Type 0
  Usable spawn w found =
      (c : VulkanContext H) × ((probe H w).0 ≡ made c)
      × ((enumerate_adapters H c (probe H w).1).0 ≡ made found)
      × (found ≢ [])
      × Starts spawn

  abbrev pub names : FallbackDriver (real H) → List String
  names (over_vulkan d) = map (λ i. i.name) d.devices
  names (over_software d reason) = []

  -- Vulkan, with a device for each adapter.
  abbrev pub OnVulkan : List (AdapterInfo H.PhysicalDeviceType) → FallbackDriver (real H) → Type 0
  OnVulkan found opened =
      (is_vulkan opened ≡ true)
      × (fallback_reason opened ≡ none)
      × (names opened ≡ map (λ a. a.name) found)

  module _ (ids : ℕ → ObjectId) (spawn : Spawn) (vram_bytes : ℕ) (w : H.World) where
    pub new_probe_fails :
        (e : VulkanError A)
        → (probe H w).0 ≡ broken e
        → new H ids spawn vram_bytes w ≡ err (backend_error_to_sher (map_vulkan_error e))
    unfolding new
    new_probe_fails e q = ground arith

    new_probed :
        (c : VulkanContext H)
        → (probe H w).0 ≡ made c
        → new H ids spawn vram_bytes w
          ≡ with_backend
              (real H)
              ids
              spawn
              (record { context = c; host = (probe H w).1 })
              vram_bytes
    unfolding new
    new_probed c q = ground arith

    pub new_enumeration_fails :
        (c : VulkanContext H) (e : VulkanError A)
        → (probe H w).0 ≡ made c
        → (enumerate_adapters H c (probe H w).1).0 ≡ broken e
        → new H ids spawn vram_bytes w ≡ err (backend_error_to_sher (map_vulkan_error e))
    unfolding enumerate with_backend
    new_enumeration_fails c e q r = rw (new_probed c q) (ground arith)

    pub new_empty :
        (c : VulkanContext H)
        → (probe H w).0 ≡ made c
        → (enumerate_adapters H c (probe H w).1).0 ≡ made []
        → new H ids spawn vram_bytes w
          ≡ err (Error.device "Vulkan backend reported no physical devices")
    unfolding enumerate with_backend
    new_empty c q r = rw (new_probed c q) (ground arith)

    new_without_thread :
        (c : VulkanContext H) (a : AdapterInfo H.PhysicalDeviceType)
        (rest : List (AdapterInfo H.PhysicalDeviceType)) (message : String)
        → (probe H w).0 ≡ made c
        → (enumerate_adapters H c (probe H w).1).0 ≡ made (a ∷ rest)
        → spawn ≡ refused message
        → new H ids spawn vram_bytes w
          ≡ err (Error.device ("failed to spawn Vulkan render thread: " <> message))
    unfolding enumerate with_backend
    new_without_thread c a rest message q r s = rw (new_probed c q) (ground arith)

    pub new_opens :
        (c : VulkanContext H) (a : AdapterInfo H.PhysicalDeviceType)
        (rest : List (AdapterInfo H.PhysicalDeviceType)) (worker : Worker (real H))
        → (probe H w).0 ≡ made c
        → (enumerate_adapters H c (probe H w).1).0 ≡ made (a ∷ rest)
        → start (real H) spawn (enumerate H (record { context = c; host = (probe H w).1 })).1
          ≡ ok worker
        → new H ids spawn vram_bytes w
          ≡ ok (
              new_driver
                (real H)
                (adapter_devices ids 0 (map adapter_of (a ∷ rest)))
                vram_bytes
                worker)
    unfolding enumerate with_backend
    new_opens c a rest worker q r s = rw (new_probed c q) (ground arith)

  starts :
      (spawn : Spawn) (b : RealVulkanBackend H)
      → ((message : String) × (spawn ≡ refused message))
        ⊎ (Starts spawn × ((worker : Worker (real H)) × (start (real H) spawn b ≡ ok worker)))
  unfolding start
  starts (refused message) b = inl (message, refl)
  starts running b = inr (tt, (alive b, refl))
  starts (over n) b = inr (tt, (ending n, refl))

  -- The names of the adapters are the names of the devices.
  names-adapter_devices :
      (ids : ℕ → ObjectId) (i : ℕ) (found : List (AdapterInfo H.PhysicalDeviceType))
      → map (λ d. d.name) (adapter_devices ids i (map adapter_of found)) ≡ map (λ a. a.name) found
  unfolding adapter_devices
  names-adapter_devices ids i [] = refl
  names-adapter_devices ids i (a ∷ found) =
      ap (λ z. a.name ∷ z) (names-adapter_devices ids (suc i) found)

  -- A new software driver, and what the error says as the reason.
  abbrev pub OnSoftware : (Error → String) → ObjectId → ℕ → Error → FallbackDriver (real H) → Type 0
  OnSoftware print id vram_bytes e opened =
      (is_vulkan opened ≡ false) × (opened ≡ over_software (new_software id vram_bytes) (print e))

  module _ (print : Error → String) (ids : ℕ → ObjectId) (id : ObjectId) (spawn : Spawn)
      (vram_bytes : ℕ) (w : H.World) where
    fallen :
        (e : Error)
        → new H ids spawn vram_bytes w ≡ err e
        → (e' : Error) × (new H ids spawn vram_bytes w ≡ err e')
          × OnSoftware print id vram_bytes e' (open_driver H print ids id spawn vram_bytes w)
    unfolding open_driver from_vulkan_result is_vulkan
    fallen e q = (e, q, (ground arith, ground arith))

    found_opens :
        (c : VulkanContext H) (a : AdapterInfo H.PhysicalDeviceType)
        (rest : List (AdapterInfo H.PhysicalDeviceType)) (worker : Worker (real H))
        → (probe H w).0 ≡ made c
        → (enumerate_adapters H c (probe H w).1).0 ≡ made (a ∷ rest)
        → start (real H) spawn (enumerate H (record { context = c; host = (probe H w).1 })).1
          ≡ ok worker
        → OnVulkan (a ∷ rest) (open_driver H print ids id spawn vram_bytes w)
    unfolding open_driver from_vulkan_result is_vulkan fallback_reason new_driver
    found_opens c a rest worker q r s =
        rw (new_opens ids spawn vram_bytes w c a rest worker q r s)
          (refl, refl, names-adapter_devices ids 0 (a ∷ rest))

    -- `FallbackDriver::open` opens Vulkan, with one device named after each adapter and no fallback
    -- reason, exactly when a context can be made, some adapter is found and the render thread
    -- starts; in every other case it opens a new software driver, and the reason is what the error of
    -- `VulkanDriver::new` prints.
    pub open_driver_chooses :
        ((found : List (AdapterInfo H.PhysicalDeviceType)) × Usable spawn w found
          × OnVulkan found (open_driver H print ids id spawn vram_bytes w))
        ⊎ ((¬ ((found : List (AdapterInfo H.PhysicalDeviceType)) × Usable spawn w found))
            × ((e : Error) × (new H ids spawn vram_bytes w ≡ err e)
                × OnSoftware print id vram_bytes e (open_driver H print ids id spawn vram_bytes w)))
    open_driver_chooses = elim (Rendered-cases (probe H w).0) [
      | inl (e, q) ↦ inr (
        λ (found, (c', q', r', ne, up)). cc,
        fallen _ (new_probe_fails ids spawn vram_bytes w e q),
      )
      | inr (c, q) ↦ elim (Rendered-cases (enumerate_adapters H c (probe H w).1).0) [
        | inl (e, r) ↦ inr (
          λ (found, (c', q', r', ne, up)). cc,
          fallen _ (new_enumeration_fails ids spawn vram_bytes w c e q r),
        )
        | inr ([], r) ↦ inr (
          λ (found, (c', q', r', ne, up)). ground arith,
          fallen _ (new_empty ids spawn vram_bytes w c q r),
        )
        | inr (a ∷ rest, r) ↦
            elim (starts spawn (enumerate H (record { context = c; host = (probe H w).1 })).1) [
              | inl (m, s) ↦ inr (
                λ (found, (c', q', r', ne, up)). subst Starts s up,
                fallen _ (new_without_thread ids spawn vram_bytes w c a rest m q r s),
              )
              | inr (up, (worker, s)) ↦
                  inl (a ∷ rest, (c, q, r, λ h. cc, up), found_opens c a rest worker q r s)
            ]
      ]
    ]
