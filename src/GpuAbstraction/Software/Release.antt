-- ===== src/GpuAbstraction/Software/Release.antt =====
-- `allocate_vram` and `free_vram` of `SoftwareGpuDriver` together.
use sher_graphics.Base.{
  ℕ, ◌+◌, ◌≤◌, ◌<◌, ◌≡◌, ◌≢◌, refl, sym, ◌∙◌, ◌-◌, ◌↔◌, true, none, some, arith, word, ◌-ʷ◌, inl,
  inr,
}
use sher_graphics.Map.{
  get, map_laws, get-insert, get-remove, get-modify, modify-modify, remove-insert,
}
use sher_graphics.Result.{ok, err, Error, is_ok}
use sher_graphics.Kernel.{ObjectId}
use sher_graphics.GraphicsApi.{MemoryClass}
use sher_graphics.GpuAbstraction.{GpuAllocation}
use sher_graphics.GpuAbstraction.Software.{
  SoftwareGpuDriver, DeviceState, new_allocation, debit, credit, allocate_vram, free_vram,
}
use sher_graphics.GpuAbstraction.Software.Vram.{IsValid, allocate_vram_cases}

allocate_fits :
    (fresh g : ObjectId) (size : ℕ) (class : MemoryClass) (s : DeviceState) (d : SoftwareGpuDriver)
    → get g d.devices ≡ some s
    → size ≤ s.vram_available
    → let a = new_allocation fresh g size class s in
      allocate_vram fresh g size class d ≡ (ok a, debit a d)
unfolding allocate_vram
allocate_fits fresh g size class s d known fits = ground arith

free-debit :
    (a : GpuAllocation) (s : DeviceState) (d : SoftwareGpuDriver)
    → get a.id d.allocations ≡ none
    → get a.device d.devices ≡ some s
    → a.size ≤ s.vram_available
    → s.vram_available < word
    → free_vram a.id (debit a d) ≡ (ok tt, d)
unfolding free_vram debit
free-debit a s d new known fits small = ground (
  arith,
  get-insert a.id a.id a d.allocations,
  remove-insert a.id a d.allocations,
  get-modify a.device a.device
      (λ (t : DeviceState). record t { vram_available = t.vram_available -ʷ a.size }) d.devices,
  modify-modify a.device (credit a.size)
      (λ (t : DeviceState). record t { vram_available = t.vram_available -ʷ a.size }) s d.devices,
)

-- In a driver whose accounts are valid, freeing what was just allocated, under an identifier that
-- was free, gives back the very driver that was there before.
pub free-allocate :
    (fresh g : ObjectId) (size : ℕ) (class : MemoryClass) (a : GpuAllocation)
    (d : SoftwareGpuDriver)
    → IsValid d
    → get fresh d.allocations ≡ none
    → (allocate_vram fresh g size class d).0 ≡ ok a
    → free_vram a.id (allocate_vram fresh g size class d).1 ≡ (ok tt, d)
unfolding new_allocation
free-allocate fresh g size class a d v new e = elim (allocate_vram_cases fresh g size class d) [
  | inl (_, q) ↦ absurd (ground arith)
  | inr (inl (_, _, _, q)) ↦ absurd (ground arith)
  | inr (inr (s, known, fits, q)) ↦
      let b = v.balanced g s known in
      let done =
        free-debit (new_allocation fresh g size class s) s d new known fits (omega arith) in
      ground arith
]

free_missing :
    (k : ObjectId) (d : SoftwareGpuDriver)
    → get k d.allocations ≡ none
    → free_vram k d ≡ (err (Error.memory "unknown allocation"), d)
unfolding free_vram
free_missing k d h = ground arith

pub get-free_vram :
    (k : ObjectId) (d : SoftwareGpuDriver) → get k (free_vram k d).1.allocations ≡ none
unfolding free_vram
get-free_vram k d = ground (arith, get-remove k k d.allocations)

-- Whatever the driver's state, a second `free_vram` of one identifier is refused and changes nothing.
pub free_vram_twice :
    (k : ObjectId) (d : SoftwareGpuDriver)
    → let after = (free_vram k d).1 in
      free_vram k after ≡ (err (Error.memory "unknown allocation"), after)
free_vram_twice k d = free_missing k _ (get-free_vram k d)

-- An allocation succeeds exactly on a known device whose pool still holds its size.
pub allocate_vram_iff :
    (fresh g : ObjectId) (size : ℕ) (class : MemoryClass) (d : SoftwareGpuDriver)
    → (is_ok (allocate_vram fresh g size class d).0 ≡ true)
      ↔ ((s : DeviceState) × (get g d.devices ≡ some s) × (size ≤ s.vram_available))
allocate_vram_iff fresh g size class d = (
  λ succeeds. elim (allocate_vram_cases fresh g size class d) [
    | inl (_, q) ↦ absurd (ground arith)
    | inr (inl (_, _, _, q)) ↦ absurd (ground arith)
    | inr (inr (s, known, fits, q)) ↦ (s, known, fits)
  ],
  λ (s, known, fits). rw (allocate_fits fresh g size class s d known fits),
)

-- Two allocations of one device whose address ranges share a byte.
abbrev pub Overlaps : GpuAllocation → GpuAllocation → Type 0
Overlaps b c =
    (b.device ≡ c.device)
    × (b.device_address < c.device_address + c.size)
    × (c.device_address < b.device_address + b.size)

-- What an allocation that fits leaves behind.
allocate_effect :
    (fresh g : ObjectId) (size : ℕ) (class : MemoryClass) (s : DeviceState) (d : SoftwareGpuDriver)
    → get g d.devices ≡ some s
    → size ≤ s.vram_available
    → s.vram_available < word
    → let d' = (allocate_vram fresh g size class d).1 in
      (get g d'.devices ≡ some (record s { vram_available = s.vram_available - size }))
      × (get fresh d'.allocations ≡ some (new_allocation fresh g size class s))
      × ((k : ObjectId) → k ≢ fresh → get k d'.allocations ≡ get k d.allocations)
unfolding debit new_allocation
allocate_effect fresh g size class s d known fits small =
    rw (allocate_fits fresh g size class s d known fits)
      (grind map_laws, grind map_laws, λ k ne. grind map_laws)

free_effect :
    (k g : ObjectId) (a : GpuAllocation) (s : DeviceState) (d : SoftwareGpuDriver)
    → get k d.allocations ≡ some a
    → a.device ≡ g
    → get g d.devices ≡ some s
    → s.vram_available + a.size < word
    → let d' = (free_vram k d).1 in
      (get g d'.devices ≡ some (record s { vram_available = s.vram_available + a.size }))
      × ((j : ObjectId) → j ≢ k → get j d'.allocations ≡ get j d.allocations)
unfolding free_vram
free_effect k g a s d held home known small = (grind map_laws, λ j ne. grind map_laws)

abbrev pub churn :
    (g ka kb kc : ObjectId) (x y z : ℕ) (class : MemoryClass)
    → SoftwareGpuDriver
    → SoftwareGpuDriver
churn g ka kb kc x y z class d =
    let d1 = (allocate_vram ka g x class d).1 in
    let d2 = (allocate_vram kb g y class d1).1 in
    let d3 = (free_vram ka d2).1 in (allocate_vram kc g z class d3).1

-- In a driver whose accounts are valid, allocate `x` and then `y` bytes on a known device, free the
-- first allocation and allocate `z` bytes, each under an identifier of its own: whenever everything
-- fits, `x` is not 0 and `x` is below `y + z`, the two live allocations overlap.
pub reallocation-Overlaps :
    (g ka kb kc : ObjectId) (x y z : ℕ) (class : MemoryClass) (s : DeviceState)
    (d : SoftwareGpuDriver)
    → IsValid d
    → get g d.devices ≡ some s
    → ka ≢ kb
    → kb ≢ kc
    → 0 < x
    → x < y + z
    → x + y ≤ s.vram_available
    → y + z ≤ s.vram_available
    → let after = churn g ka kb kc x y z class d in
      (b : GpuAllocation) × (c : GpuAllocation) × (get kb after.allocations ≡ some b)
      × (get kc after.allocations ≡ some c)
      × Overlaps b c
unfolding new_allocation
reallocation-Overlaps g ka kb kc x y z class s d v known ab bc px short fx fz =
    let room = v.balanced g s known in
    let d1 = (allocate_vram ka g x class d).1 in
    let d2 = (allocate_vram kb g y class d1).1 in
    let d3 = (free_vram ka d2).1 in
    let e1 = allocate_effect ka g x class s d known (omega arith) (omega arith) in
    let s1 : DeviceState = record s { vram_available = s.vram_available - x } in
    let e2 = allocate_effect kb g y class s1 d1 e1.0 (omega arith) (omega arith) in
    let s2 : DeviceState = record s { vram_available = s1.vram_available - y } in
    let a = new_allocation ka g x class s in
    let b = new_allocation kb g y class s1 in
    let e3 = free_effect ka g a s2 d2 (e2.2 ka ab ∙ e1.1) refl e2.0 (omega arith) in
    let s3 : DeviceState = record s { vram_available = s2.vram_available + x } in
    let e4 = allocate_effect kc g z class s3 d3 e3.0 (omega arith) (omega arith) in
    let c = new_allocation kc g z class s3 in
    (b, c, e4.2 kb bc ∙ e3.1 kb (λ q. ab (sym q)) ∙ e2.1, e4.1, (refl, omega arith, omega arith))
