-- ===== src/GpuAbstraction/Software/Vram.antt =====
-- The VRAM accounts of `SoftwareGpuDriver`: the pool of a device, what is free of it and what live
-- allocations hold.
use sher_graphics.Base.{
  ℕ, ◌+◌, ◌≤◌, ◌<◌, ◌≡◌, true, none, some, [], ◌∷◌, arith, ◌==◌, if◌then◌else◌, word, ltb,
  Bool-cases, Option-cases, ◌⊎◌, inl, inr,
}
use sher_graphics.Map.{
  Map, get, insert, remove, modify, contains_key, NodupKeys, insert-NodupKeys, remove-NodupKeys,
  remove_missing, map_laws,
}
use sher_graphics.Result.{ok, err, Error}
use sher_graphics.Kernel.{ObjectId}
use sher_graphics.GraphicsApi.{MemoryClass}
use sher_graphics.GpuAbstraction.{GpuAllocation}
use sher_graphics.GpuAbstraction.Software.{
  SoftwareGpuDriver, DeviceState, new_allocation, debit, drop_allocation, credit, allocate_vram,
  free_vram,
}

-- What an allocation takes from the pool of `device`.
abbrev pub share : ObjectId → GpuAllocation → ℕ
share device a = if a.device == device then a.size else 0

unfoldable pub used : ObjectId → Map GpuAllocation → ℕ
used device [] = 0
used device ((k, a) ∷ m) = share device a + used device m

pub used-insert :
    (device k : ObjectId) (a : GpuAllocation) (m : Map GpuAllocation)
    → get k m ≡ none
    → used device (insert k a m) ≡ used device m + share device a
unfolding used get insert
used-insert device k a [] h = omega arith
used-insert device k a ((j, b) ∷ m) h = ground (arith, used-insert device k a m)

pub used-remove :
    (device k : ObjectId) (a : GpuAllocation) (m : Map GpuAllocation)
    → NodupKeys m
    → get k m ≡ some a
    → used device (remove k m) + share device a ≡ used device m
unfolding used get remove
used-remove device k a [] n h = ground arith
used-remove device k a ((j, b) ∷ m) n h =
    ground (arith, used-remove device k a m n.1, remove_missing k m)

pub record IsValid (d : SoftwareGpuDriver) : Type 0 where
  pub nodup : NodupKeys d.allocations
  pub balanced :
      (g : ObjectId) (s : DeviceState)
      → get g d.devices ≡ some s
      → (s.vram_available + used g d.allocations ≡ s.vram_total) × (s.vram_total < word)
  pub homed :
      (k : ObjectId) (a : GpuAllocation)
      → get k d.allocations ≡ some a
      → (a.id ≡ k) × (contains_key a.device d.devices ≡ true)

pub debit-IsValid :
    (a : GpuAllocation) (t : DeviceState) (d : SoftwareGpuDriver)
    → get a.id d.allocations ≡ none
    → get a.device d.devices ≡ some t
    → a.size ≤ t.vram_available
    → IsValid d
    → IsValid (debit a d)
unfolding debit
debit-IsValid a t d new known fits v = record {
  nodup = insert-NodupKeys a.id a d.allocations v.nodup;
  balanced = λ g s e. grind (map_laws, v.balanced g, used-insert g a.id a d.allocations new);
  homed = λ k b e. grind (map_laws, v.homed k b);
}

pub drop-credit-IsValid :
    (k : ObjectId) (a : GpuAllocation) (d : SoftwareGpuDriver)
    → get k d.allocations ≡ some a
    → IsValid d
    → IsValid (record (drop_allocation k d) { devices = modify a.device (credit a.size) d.devices })
drop-credit-IsValid k a d held v = record {
  nodup = remove-NodupKeys k d.allocations v.nodup;
  balanced = λ g s e. grind (map_laws, v.balanced g, used-remove g k a d.allocations v.nodup held);
  homed = λ j b e. grind (map_laws, v.homed j b);
}

-- Every end of `allocate_vram`: an unknown device, a pool too small, or the allocation.
pub allocate_vram_cases :
    (fresh device : ObjectId) (size : ℕ) (class : MemoryClass) (d : SoftwareGpuDriver)
    → let r = allocate_vram fresh device size class d in
      ((get device d.devices ≡ none) × (r ≡ (err (Error.device "unknown GPU device"), d)))
      ⊎ ((s : DeviceState) × (get device d.devices ≡ some s)
          × (s.vram_available < size)
          × (r ≡ (err (Error.memory "insufficient VRAM"), d)))
      ⊎ ((s : DeviceState) × (get device d.devices ≡ some s)
          × (size ≤ s.vram_available)
          × (let a = new_allocation fresh device size class s in r ≡ (ok a, debit a d)))
unfolding allocate_vram
allocate_vram_cases fresh device size class d = elim (Option-cases (get device d.devices)) [
  | inl e ↦ inl (e, ground arith)
  | inr (s, e) ↦ elim (Bool-cases (ltb s.vram_available size)) [
    | inl small ↦ inr (inl (s, e, ground arith, ground arith))
    | inr fits ↦ inr (inr (s, e, ground arith, ground arith))
  ]
]

pub free_vram_cases :
    (k : ObjectId) (d : SoftwareGpuDriver)
    → IsValid d
    → ((get k d.allocations ≡ none)
        × (free_vram k d ≡ (err (Error.memory "unknown allocation"), d)))
      ⊎ ((a : GpuAllocation) × (get k d.allocations ≡ some a)
          × (free_vram k d ≡ (
            ok tt,
            record (drop_allocation k d) { devices = modify a.device (credit a.size) d.devices },
          )))
unfolding free_vram
free_vram_cases k d v = elim (Option-cases (get k d.allocations)) [
  | inl e ↦ inl (e, ground arith)
  | inr (a, e) ↦ inr (a, e, ground (arith, v.homed k a e))
]

pub allocate_vram-IsValid :
    (fresh device : ObjectId) (size : ℕ) (class : MemoryClass) (d : SoftwareGpuDriver)
    → get fresh d.allocations ≡ none
    → IsValid d
    → IsValid (allocate_vram fresh device size class d).1
unfolding new_allocation
allocate_vram-IsValid fresh device size class d new v =
    elim (allocate_vram_cases fresh device size class d) [
      | inl (_, e) ↦ rw e v
      | inr (inl (_, _, _, e)) ↦ rw e v
      | inr (inr (s, known, fits, e)) ↦ rw e (debit-IsValid _ s d new known fits v)
    ]

pub free_vram-IsValid :
    (k : ObjectId) (d : SoftwareGpuDriver) → IsValid d → IsValid (free_vram k d).1
free_vram-IsValid k d v = elim (free_vram_cases k d v) [
  | inl (_, e) ↦ rw e v
  | inr (a, held, e) ↦ rw e (drop-credit-IsValid k a d held v)
]
