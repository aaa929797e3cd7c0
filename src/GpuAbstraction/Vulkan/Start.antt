-- ===== src/GpuAbstraction/Vulkan/Start.antt =====
-- What `VulkanDriver::with_backend` opens.
use sher_graphics.Base.{
  ℕ, ◌≡◌, ◌≢◌, refl, ◌⊎◌, inl, inr, some, List, [], ◌∷◌, arith, ◌==◌, Bool-cases,
}
use sher_graphics.Map.{Map, get, insert, map_laws}
use sher_graphics.Result.{ok, Result-cases}
use sher_graphics.Kernel.{ObjectId, DeviceInfo}
use sher_graphics.GpuAbstraction.Vulkan.State.{
  VulkanBackend, VulkanDriver, find_info, BackendAdapterInfo, BackendError, BackendResult, done,
  failed,
}
use sher_graphics.GpuAbstraction.Vulkan.Open.{
  Spawn, with_backend, collect, start, new_driver, adapter_devices, adapter_device, device_id,
}

collect_keeps :
    (g v : ℕ) (ds : List DeviceInfo) (m : Map ℕ)
    → get g m ≡ some v
    → get g (collect v ds m) ≡ some v
unfolding collect
collect_keeps g v [] m h = h
collect_keeps g v (d ∷ ds) m h = collect_keeps g v ds (insert d.id v m) (grind map_laws)

collect_finds :
    (g v : ℕ) (info : DeviceInfo) (ds : List DeviceInfo) (m : Map ℕ)
    → find_info g ds ≡ some info
    → get g (collect v ds m) ≡ some v
unfolding collect find_info
collect_finds g v info [] m h = cc
collect_finds g v info (d ∷ ds) m h = elim (Bool-cases (d.id == g)) [
  | inl e ↦ collect_keeps g v ds (insert d.id v m) (grind map_laws)
  | inr e ↦ collect_finds g v info ds (insert d.id v m) (ground arith)
]

-- Every answer to the enumeration.
found_cases :
    (r : BackendResult (List BackendAdapterInfo))
    → ((e : BackendError) × (r ≡ failed e))
      ⊎ (r ≡ done [])
      ⊎ ((a : BackendAdapterInfo) × (rest : List BackendAdapterInfo) × (r ≡ done (a ∷ rest)))
found_cases (failed e) = inl (e, refl)
found_cases (done []) = inr (inl refl)
found_cases (done (a ∷ rest)) = inr (inr (a, rest, refl))

module _ (B : VulkanBackend) where
  -- A Vulkan driver that opens has at least one device and no allocation or fault, and each of its
  -- devices starts with the whole pool free and at address 0.
  pub with_backend_opens :
      (ids : ℕ → ObjectId) (spawn : Spawn) (b : B.Backend) (vram_bytes : ℕ) (d : VulkanDriver B)
      (g : ObjectId) (info : DeviceInfo)
      → with_backend B ids spawn b vram_bytes ≡ ok d
      → find_info g d.devices ≡ some info
      → (d.devices ≢ [])
        × (d.allocations ≡ [])
        × (d.faults ≡ [])
        × (get g d.vram_available ≡ some vram_bytes)
        × (get g d.next_address ≡ some 0)
  unfolding with_backend new_driver
  with_backend_opens ids spawn b vram_bytes d g info h known =
      elim (found_cases (B.enumerate_adapters b).0) [
        | inl (e, q) ↦ absurd (ground arith)
        | inr (inl q) ↦ absurd (ground arith)
        | inr (inr (a, rest, q)) ↦ elim (Result-cases (start B spawn (B.enumerate_adapters b).1)) [
          | inr (x, r) ↦ absurd (ground arith)
          | inl (w, r) ↦
              let same : d ≡ new_driver B (adapter_devices ids 0 (a ∷ rest)) vram_bytes w =
                ground arith in
              let free = collect_finds g vram_bytes info d.devices [] known in
              let at = collect_finds g 0 info d.devices [] known in
              (ground arith, ground arith, ground arith, ground arith, ground arith)
        ]
      ]

  -- A Vulkan driver that opens has a first device, which `device_id` returns.
  pub device_id_opened :
      (ids : ℕ → ObjectId) (spawn : Spawn) (b : B.Backend) (vram_bytes : ℕ) (d : VulkanDriver B)
      → with_backend B ids spawn b vram_bytes ≡ ok d
      → device_id d ≡ some (ids 0)
  unfolding with_backend new_driver device_id adapter_devices adapter_device
  device_id_opened ids spawn b vram_bytes d h = elim (found_cases (B.enumerate_adapters b).0) [
    | inl (e, q) ↦ absurd (ground arith)
    | inr (inl q) ↦ absurd (ground arith)
    | inr (inr (a, rest, q)) ↦ elim (Result-cases (start B spawn (B.enumerate_adapters b).1)) [
      | inr (x, r) ↦ absurd (ground arith)
      | inl (w, r) ↦ ground arith
    ]
  ]
