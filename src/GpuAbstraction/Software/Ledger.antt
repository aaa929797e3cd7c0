-- ===== src/GpuAbstraction/Software/Ledger.antt =====
-- What `SoftwareGpuDriver` promises its callers: a ledger of live allocations, with no counter of
-- free bytes beside it.
pub mod Refines
use sher_graphics.Base.{
  ℕ, ◌+◌, ◌-◌, ◌≡◌, String, Option, none, some, List, [], ◌∷◌, ◌==◌, if◌then◌else◌, ltb,
}
use sher_graphics.Map.{Map, get, insert, remove}
use sher_graphics.Result.{Result, ok, err, Error, ok_or, and_then}
use sher_graphics.Kernel.{ObjectId}
use sher_graphics.GraphicsApi.{MemoryClass, WorkloadClass}
use sher_graphics.GpuAbstraction.{
  GpuAllocation, DmaMapping, GpuFault, DriverOp, Outcome, returned, faulted_error,
}
use sher_graphics.GpuAbstraction.Software.{
  SoftwareGpuDriver, allocate_vram, free_vram, map_dma, submit, fault_status, vram_available,
  reset_device, mark_faulted,
}
use sher_graphics.GpuAbstraction.Software.Vram.{used}

-- A request of the runtime. The first identifier of an allocation is the one drawn for it.
pub data Request : Type 0 where
  allocates : (fresh device : ObjectId) (size : ℕ) (class : MemoryClass) → Request
  frees maps asks_fault asks_free resets : ObjectId → Request
  submits : ObjectId → WorkloadClass → List DriverOp → Request
  marks : ObjectId → String → Request

pub data Answer : Type 0 where
  allocation : Result GpuAllocation → Answer
  unit : Result (Unit {0}) → Answer
  mapping : Result DmaMapping → Answer
  outcome : Outcome (Unit {0}) → Answer
  status : Result (Option GpuFault) → Answer
  bytes : Result ℕ → Answer

-- The driver's answer, and the driver afterwards.
unfoldable pub answer : Request → SoftwareGpuDriver → Answer × SoftwareGpuDriver
answer (allocates fresh g size class) d =
    let (r, d') = allocate_vram fresh g size class d in (allocation r, d')
answer (frees k) d = let (r, d') = free_vram k d in (unit r, d')
answer (maps k) d = let (r, d') = map_dma k d in (mapping r, d')
answer (asks_fault g) d = (status (fault_status g d), d)
answer (asks_free g) d = (bytes (vram_available g d), d)
answer (resets g) d = let (r, d') = reset_device g d in (unit r, d')
answer (submits g class ops) d = let (r, d') = submit g class ops d in (outcome r, d')
answer (marks g text) d = (unit (ok tt), mark_faulted g text d)

unfoldable pub answers : List Request → SoftwareGpuDriver → List Answer × SoftwareGpuDriver
unfolding answer
answers [] d = ([], d)
answers (q ∷ qs) d = let (x, d') = answer q d in let (xs, d'') = answers qs d' in (x ∷ xs, d'')

-- A device, to its callers: the size of its pool, and its fault.
pub record Account : Type 0 where
  pub total : ℕ
  pub fault : Option GpuFault

pub record Ledger : Type 0 where
  pub accounts : ObjectId → Option Account
  pub live : Map GpuAllocation

abbrev pub account : ObjectId → Ledger → Result Account
account g l = ok_or (l.accounts g) (Error.device "unknown GPU device")

abbrev pub held : ObjectId → Ledger → Result GpuAllocation
held k l = ok_or (get k l.live) (Error.memory "unknown allocation")

-- What the live allocations of a device leave of its pool.
abbrev pub free_bytes : ObjectId → Account → Ledger → ℕ
free_bytes g a l = a.total - used g l.live

-- The bytes in use are the address of the next allocation.
unfoldable pub grant : ObjectId → ObjectId → ℕ → MemoryClass → Ledger → GpuAllocation
grant fresh g size class l = record {
  id = fresh;
  device = g;
  class = class;
  size = size;
  device_address = used g l.live;
}

abbrev pub book : ObjectId → Option GpuFault → Ledger → Ledger
book g f l = record l {
  accounts = λ h.
      if h == g
      then elim (l.accounts h) [ none ↦ none | some a ↦ some (record a { fault = f }) ]
      else l.accounts h;
}

-- The promised answer to a request.
unfoldable pub promise : Request → Ledger → Answer × Ledger
unfolding grant
promise (allocates fresh g size class) l = elim (account g l) [
  | err e ↦ (allocation (err e), l)
  | ok a ↦
      if ltb (free_bytes g a l) size
      then (allocation (err (Error.memory "insufficient VRAM")), l)
      else (
        allocation (ok (grant fresh g size class l)),
        record l { live = insert fresh (grant fresh g size class l) l.live },
      )
]
promise (frees k) l = elim (held k l) [
  | err e ↦ (unit (err e), l)
  | ok a ↦ (unit (ok tt), record l { live = remove k l.live })
]
promise (maps k) l = (
  mapping (
      and_then (held k l)
        λ a. ok (record { allocation = a.id; iova = a.device_address; size = a.size })),
  l,
)
promise (asks_fault g) l = (status (and_then (account g l) λ a. ok a.fault), l)
promise (asks_free g) l = (bytes (and_then (account g l) λ a. ok (free_bytes g a l)), l)
promise (resets g) l = (unit (and_then (account g l) λ a. ok tt), book g none l)
promise (submits g class ops) l = (
  outcome (
      returned (
        and_then (account g l)
          λ a. elim a.fault [ none ↦ ok tt | some f ↦ err (faulted_error f) ])),
  l,
)
promise (marks g text) l =
    (unit (ok tt), book g (some (record { device = g; address = 0; description = text })) l)

unfoldable pub promises : List Request → Ledger → List Answer × Ledger
unfolding promise
promises [] l = ([], l)
promises (q ∷ qs) l = let (x, l') = promise q l in let (xs, l'') = promises qs l' in (x ∷ xs, l'')

-- An identifier drawn names no live allocation.
abbrev pub IsFresh : Request → Ledger → Type 0
IsFresh (allocates fresh g size class) l = get fresh l.live ≡ none
IsFresh _ l = Unit

abbrev pub AreFresh : List Request → Ledger → Type 0
AreFresh [] l = Unit
AreFresh (q ∷ qs) l = IsFresh q l × AreFresh qs (promise q l).1
