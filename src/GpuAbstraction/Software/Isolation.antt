-- ===== src/GpuAbstraction/Software/Isolation.antt =====
-- What calls about other devices do to a device of `SoftwareGpuDriver`.
use sher_graphics.Base.{ℕ, ◌≡◌, ◌≢◌, refl, ◌∙◌, Option, none, some, List, [], ◌∷◌, arith}
use sher_graphics.Map.{get, map_laws}
use sher_graphics.Kernel.{ObjectId}
use sher_graphics.GraphicsApi.{MemoryClass, WorkloadClass}
use sher_graphics.GpuAbstraction.{DriverOp}
use sher_graphics.GpuAbstraction.Software.{
  SoftwareGpuDriver, DeviceState, set_state, debit, new_allocation, initialize, shutdown,
  allocate_vram, free_vram, map_dma, submit, reset_device, mark_faulted, inject_fault, clear_fault,
  fault_status, vram_available,
}
use sher_graphics.GpuAbstraction.Software.History.{
  Call, initializes, shuts_down, frees, maps, resets, clears, allocates, submits, marks, injects,
  step, run,
}

-- The device that a call is about, where it writes one.
abbrev pub touches : Call → SoftwareGpuDriver → Option ObjectId
touches (initializes info) d = some info.id
touches (shuts_down g) d = some g
touches (allocates fresh g size class) d = some g
touches (frees k) d = elim (get k d.allocations) [ none ↦ none | some a ↦ some a.device ]
touches (maps k) d = none
touches (submits g class ops) d = none
touches (resets g) d = some g
touches (marks g text) d = some g
touches (injects g address text) d = some g
touches (clears g) d = some g

abbrev pub Avoids : ObjectId → List Call → SoftwareGpuDriver → Type 0
Avoids g [] d = Unit
Avoids g (c ∷ cs) d = (touches c d ≢ some g) × Avoids g cs (step c d)

set_state_elsewhere :
    (g h : ObjectId) (f : DeviceState → DeviceState) (d : SoftwareGpuDriver)
    → ◌≢◌ {A = Option ObjectId} (some h) (some g)
    → get g (set_state h f d).1.devices ≡ get g d.devices
unfolding set_state
set_state_elsewhere g h f d ne = grind map_laws

allocate_vram_elsewhere :
    (g h fresh : ObjectId) (size : ℕ) (class : MemoryClass) (d : SoftwareGpuDriver)
    → ◌≢◌ {A = Option ObjectId} (some h) (some g)
    → get g (allocate_vram fresh h size class d).1.devices ≡ get g d.devices
unfolding allocate_vram debit new_allocation
allocate_vram_elsewhere g h fresh size class d ne = grind map_laws

free_vram_elsewhere :
    (g k : ObjectId) (d : SoftwareGpuDriver)
    → touches (frees k) d ≢ some g
    → get g (free_vram k d).1.devices ≡ get g d.devices
unfolding free_vram
free_vram_elsewhere g k d ne = grind map_laws

step_elsewhere :
    (g : ObjectId) (c : Call) (d : SoftwareGpuDriver)
    → touches c d ≢ some g
    → get g (step c d).devices ≡ get g d.devices
unfolding step initialize shutdown submit reset_device mark_faulted inject_fault clear_fault
step_elsewhere g (initializes info) d ne = set_state_elsewhere g info.id _ d ne
step_elsewhere g (shuts_down h) d ne = set_state_elsewhere g h _ d ne
step_elsewhere g (frees k) d ne = free_vram_elsewhere g k d ne
step_elsewhere g (maps k) d ne = unfold map_dma in ground arith
step_elsewhere g (resets h) d ne = set_state_elsewhere g h _ d ne
step_elsewhere g (clears h) d ne = grind map_laws
step_elsewhere g (allocates fresh h size class) d ne =
    allocate_vram_elsewhere g h fresh size class d ne
step_elsewhere g (submits h class ops) d ne = refl
step_elsewhere g (marks h text) d ne = grind map_laws
step_elsewhere g (injects h address text) d ne = grind map_laws

run_elsewhere :
    (g : ObjectId) (cs : List Call) (d : SoftwareGpuDriver)
    → Avoids g cs d
    → get g (run cs d).devices ≡ get g d.devices
unfolding run
run_elsewhere g [] d h = refl
run_elsewhere g (c ∷ cs) d h = run_elsewhere g cs (step c d) h.1 ∙ step_elsewhere g c d h.0

-- No history of calls about other devices shows on a device: its free VRAM, its fault and the
-- answer to a submission stay what they were.
pub run_isolated :
    (g : ObjectId) (cs : List Call) (class : WorkloadClass) (ops : List DriverOp)
    (d : SoftwareGpuDriver)
    → Avoids g cs d
    → (vram_available g (run cs d) ≡ vram_available g d)
      × (fault_status g (run cs d) ≡ fault_status g d)
      × ((submit g class ops (run cs d)).0 ≡ (submit g class ops d).0)
unfolding vram_available fault_status submit
run_isolated g cs class ops d h =
    let e = run_elsewhere g cs d h in (ground arith, ground arith, ground arith)
