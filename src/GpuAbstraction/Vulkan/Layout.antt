-- ===== src/GpuAbstraction/Vulkan/Layout.antt =====
-- The addresses that `VulkanDriver` gives out.
use sher_graphics.Base.{
  Bool, ℕ, ◌+◌, ◌≤◌, ◌<◌, ◌≡◌, ◌≢◌, refl, ◌⊎◌, inl, inr, true, false, String, none, some, List, [],
  ◌∷◌, arith, word, Option-cases, Bool-cases, ltb,
}
use sher_graphics.Map.{get, map_laws}
use sher_graphics.Kernel.{ObjectId, DeviceInfo}
use sher_graphics.GraphicsApi.{MemoryClass, WorkloadClass}
use sher_graphics.GpuAbstraction.{GpuAllocation, DriverOp}
use sher_graphics.GpuAbstraction.Vulkan.State.{Exchange, VulkanBackend, VulkanDriver, find_info}
use sher_graphics.GpuAbstraction.Vulkan.Operations.{
  next_of, new_allocation, debit, allocate_vram, free_vram, map_dma, submit, reset_device, conclude,
  mark_faulted, initialize, shutdown,
}

-- Two address ranges without a common byte.
abbrev pub Apart : GpuAllocation → GpuAllocation → Type 0
Apart a b =
    (a.device_address + a.size ≤ b.device_address) ⊎ (b.device_address + b.size ≤ a.device_address)

pub data Call : Type 0 where
  initializes : DeviceInfo → Call
  shuts_down frees maps resets : ObjectId → Call
  allocates : (fresh device : ObjectId) (size : ℕ) (class : MemoryClass) → Call
  submits : ObjectId → WorkloadClass → List DriverOp → Call
  marks : ObjectId → String → Call

-- The calls that change the allocations or the addresses.
abbrev moves : Call → Bool
moves (allocates fresh g size class) = true
moves (frees k) = true
moves _ = false

module _ {B : VulkanBackend} where
  unfoldable pub step : Call → VulkanDriver B → VulkanDriver B
  step (initializes info) d = (initialize info d).1
  step (shuts_down g) d = (shutdown g d).1
  step (allocates fresh g size class) d = (allocate_vram fresh g size class d).1
  step (frees k) d = (free_vram k d).1
  step (maps k) d = (map_dma k d).1
  step (submits g class ops) d = (submit g class ops d).1
  step (resets g) d = (reset_device g d).1
  step (marks g text) d = mark_faulted g text d

  unfoldable pub run : List Call → VulkanDriver B → VulkanDriver B
  unfolding step
  run [] d = d
  run (c ∷ cs) d = run cs (step c d)

  -- An identifier drawn is new, and the addresses of the device do not run out of 64 bits.
  abbrev pub HasRoom : Call → VulkanDriver B → Type 0
  HasRoom (allocates fresh g size class) d =
      (get fresh d.allocations ≡ none) × (next_of g d + size < word)
  HasRoom _ d = Unit

  abbrev pub HaveRoom : List Call → VulkanDriver B → Type 0
  HaveRoom [] d = Unit
  HaveRoom (c ∷ cs) d = HasRoom c d × HaveRoom cs (step c d)

  -- Every live allocation lies below its device's next address, and two of one device are apart.
  pub record IsLaid (d : VulkanDriver B) : Type 0 where
    pub below :
        (k : ObjectId) (a : GpuAllocation)
        → get k d.allocations ≡ some a
        → a.device_address + a.size ≤ next_of a.device d
    pub apart :
        (j k : ObjectId) (a b : GpuAllocation)
        → j ≢ k
        → a.device ≡ b.device
        → get j d.allocations ≡ some a
        → get k d.allocations ≡ some b
        → Apart a b

  debit-IsLaid :
      (a : GpuAllocation) (d : VulkanDriver B)
      → get a.id d.allocations ≡ none
      → a.device_address ≡ next_of a.device d
      → next_of a.device d + a.size < word
      → IsLaid d
      → IsLaid (debit a d)
  unfolding debit
  debit-IsLaid a d new here room v = record {
    below = λ k b e. grind (map_laws, v.below k);
    apart = λ j k x y ne same ex ey. grind (map_laws, v.apart j k, v.below j, v.below k);
  }

  allocate_vram_effect :
      (fresh g : ObjectId) (size : ℕ) (class : MemoryClass) (d : VulkanDriver B)
      → let d' = (allocate_vram fresh g size class d).1 in
        (d' ≡ d) ⊎ (d' ≡ debit (new_allocation fresh g size class d) d)
  unfolding allocate_vram
  allocate_vram_effect fresh g size class d = elim (Option-cases (find_info g d.devices)) [
    | inl e ↦ inl (ground arith)
    | inr (info, e) ↦ elim (Option-cases (get g d.vram_available)) [
      | inl q ↦ inl (ground arith)
      | inr (available, q) ↦ elim (Bool-cases (ltb available size)) [
        | inl small ↦ inl (ground arith)
        | inr fits ↦ inr (ground arith)
      ]
    ]
  ]

  allocate_vram-IsLaid :
      (fresh g : ObjectId) (size : ℕ) (class : MemoryClass) (d : VulkanDriver B)
      → get fresh d.allocations ≡ none
      → next_of g d + size < word
      → IsLaid d
      → IsLaid (allocate_vram fresh g size class d).1
  unfolding new_allocation
  allocate_vram-IsLaid fresh g size class d new room v =
      elim (allocate_vram_effect fresh g size class d) [
        | inl e ↦ rw e v
        | inr e ↦ rw e (debit-IsLaid (new_allocation fresh g size class d) d new refl room v)
      ]

  free_vram-IsLaid : (k : ObjectId) (d : VulkanDriver B) → IsLaid d → IsLaid (free_vram k d).1
  unfolding free_vram
  free_vram-IsLaid k d v = record {
    below = λ j a e. grind (map_laws, v.below j);
    apart = λ i j a b ne same ea eb. grind (map_laws, v.apart i j);
  }

  abbrev SameLayout : VulkanDriver B → VulkanDriver B → Type 0
  SameLayout a b = (a.allocations ≡ b.allocations) × (a.next_address ≡ b.next_address)

  conclude-SameLayout :
      (g : ObjectId) (x : Exchange) (d : VulkanDriver B) → SameLayout (conclude g x d).1 d
  unfolding conclude
  conclude-SameLayout g x d = ground arith

  step-SameLayout : (c : Call) (d : VulkanDriver B) → moves c ≡ false → SameLayout (step c d) d
  unfolding step initialize shutdown map_dma submit reset_device mark_faulted
  step-SameLayout (initializes info) d h = ground arith
  step-SameLayout (shuts_down g) d h = ground arith
  step-SameLayout (frees k) d h = cc
  step-SameLayout (maps k) d h = ground arith
  step-SameLayout (resets g) d h = ground arith
  step-SameLayout (allocates fresh g size class) d h = cc
  step-SameLayout (submits g class ops) d h = ground arith
  step-SameLayout (marks g text) d h = ground arith

  SameLayout-IsLaid : (a b : VulkanDriver B) → SameLayout a b → IsLaid b → IsLaid a
  SameLayout-IsLaid a b (l, n) v = record { below = rw (l, n) v.below; apart = rw l v.apart }

  step-IsLaid : (c : Call) (d : VulkanDriver B) → HasRoom c d → IsLaid d → IsLaid (step c d)
  unfolding step
  step-IsLaid (allocates fresh g size class) d room v =
      allocate_vram-IsLaid fresh g size class d room.0 room.1 v
  step-IsLaid (frees k) d room v = free_vram-IsLaid k d v
  step-IsLaid c d room v = SameLayout-IsLaid (step c d) d (step-SameLayout c d refl) v

  run-IsLaid : (cs : List Call) (d : VulkanDriver B) → HaveRoom cs d → IsLaid d → IsLaid (run cs d)
  unfolding run
  run-IsLaid [] d room v = v
  run-IsLaid (c ∷ cs) d room v = run-IsLaid cs (step c d) room.1 (step-IsLaid c d room.0 v)

  -- From a driver without allocations on, after any history of calls in which identifiers are drawn
  -- new and no device hands out 2 ^ 64 bytes in all, two live allocations of one device never share
  -- an address.
  pub run_allocations-Apart :
      (cs : List Call) (d : VulkanDriver B) (j k : ObjectId) (a b : GpuAllocation)
      → d.allocations ≡ []
      → HaveRoom cs d
      → j ≢ k
      → a.device ≡ b.device
      → get j (run cs d).allocations ≡ some a
      → get k (run cs d).allocations ≡ some b
      → Apart a b
  unfolding get
  run_allocations-Apart cs d j k a b none_yet room ne same ea eb =
      let start : IsLaid d = record {
        below = rw none_yet (λ i x e. cc);
        apart = rw none_yet (λ h i x y n q ex ey. cc);
      } in
      (run-IsLaid cs d room start).apart j k a b ne same ea eb
