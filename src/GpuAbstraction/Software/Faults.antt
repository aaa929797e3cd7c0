-- ===== src/GpuAbstraction/Software/Faults.antt =====
-- The life of a fault in `SoftwareGpuDriver`.
use sher_graphics.Base.{
  ◌≡◌, refl, true, false, Bool, String, none, some, is_some, List, [], ◌∷◌, arith, ◌==◌, inl, inr,
  Option-cases, ◌⊎◌,
}
use sher_graphics.Map.{get, modify, map_laws}
use sher_graphics.Result.{ok, err, Error}
use sher_graphics.Kernel.{ObjectId}
use sher_graphics.GraphicsApi.{WorkloadClass}
use sher_graphics.GpuAbstraction.{faulted_error, GpuFault, DriverOp, returned}
use sher_graphics.GpuAbstraction.Software.{
  SoftwareGpuDriver, DeviceState, set_state, debit, new_allocation, drop_allocation, credit,
  initialize, shutdown, allocate_vram, free_vram, map_dma, submit, reset_device, mark_faulted,
  inject_fault, clear_fault, fault_status, vram_available,
}
use sher_graphics.GpuAbstraction.Software.History.{
  Call, initializes, shuts_down, frees, maps, resets, clears, allocates, submits, marks, injects,
  step, run, set_state_cases,
}

-- The calls that end a fault of `g`.
abbrev ends_fault : ObjectId → Call → Bool
ends_fault g (resets h) = g == h
ends_fault g (clears h) = g == h
ends_fault g _ = false

abbrev pub NeverEnded : ObjectId → List Call → Type 0
NeverEnded g [] = Unit
NeverEnded g (c ∷ cs) = (ends_fault g c ≡ false) × NeverEnded g cs

-- `g` is a device of the driver, and faulted.
abbrev faulted : ObjectId → SoftwareGpuDriver → Bool
faulted g d = elim (get g d.devices) [ none ↦ false | some s ↦ is_some s.fault ]

-- A write that takes no fault away.
abbrev KeepsFault : (DeviceState → DeviceState) → Type 0
KeepsFault f = (s : DeviceState) → is_some s.fault ≡ true → is_some (f s).fault ≡ true

modify-faulted :
    (g h : ObjectId) (f : DeviceState → DeviceState) (d : SoftwareGpuDriver)
    → KeepsFault f
    → faulted g d ≡ true
    → faulted g (record d { devices = modify h f d.devices }) ≡ true
modify-faulted g h f d keep e = elim (Option-cases (get g d.devices)) [
  | inl q ↦ absurd (ground arith)
  | inr (s, q) ↦ grind (map_laws, keep s)
]

set_state-faulted :
    (g h : ObjectId) (f : DeviceState → DeviceState) (d : SoftwareGpuDriver)
    → KeepsFault f
    → faulted g d ≡ true
    → faulted g (set_state h f d).1 ≡ true
set_state-faulted g h f d keep e = elim (set_state_cases h f d) [
  | inl (_, q) ↦ rw q e
  | inr (_, _, q) ↦ rw q (modify-faulted g h f d keep e)
]

reset-faulted :
    (g h : ObjectId) (d : SoftwareGpuDriver)
    → (g == h) ≡ false
    → faulted g d ≡ true
    → faulted g (reset_device h d).1 ≡ true
unfolding reset_device set_state
reset-faulted g h d ne e = grind map_laws

clear-faulted :
    (g h : ObjectId) (d : SoftwareGpuDriver)
    → (g == h) ≡ false
    → faulted g d ≡ true
    → faulted g (clear_fault h d) ≡ true
unfolding clear_fault
clear-faulted g h d ne e = grind map_laws

free_vram-faulted :
    (g k : ObjectId) (d : SoftwareGpuDriver)
    → faulted g d ≡ true
    → faulted g (free_vram k d).1 ≡ true
unfolding free_vram
free_vram-faulted g k d e = elim (Option-cases (get k d.allocations)) [
  | inl q ↦ ground arith
  | inr (a, q) ↦
      let kept = set_state-faulted g a.device (credit a.size) (drop_allocation k d) (λ s r. r) e in
      ground arith
]

step-faulted :
    (g : ObjectId) (c : Call) (d : SoftwareGpuDriver)
    → ends_fault g c ≡ false
    → faulted g d ≡ true
    → faulted g (step c d) ≡ true
unfolding step initialize shutdown submit mark_faulted inject_fault allocate_vram free_vram debit
    map_dma new_allocation
step-faulted g (initializes info) d ne e = set_state-faulted g info.id _ d (λ s q. q) e
step-faulted g (shuts_down h) d ne e = set_state-faulted g h _ d (λ s q. q) e
step-faulted g (frees k) d ne e = free_vram-faulted g k d e
step-faulted g (maps k) d ne e = ground arith
step-faulted g (resets h) d ne e = reset-faulted g h d ne e
step-faulted g (clears h) d ne e = clear-faulted g h d ne e
step-faulted g (allocates fresh h size class) d ne e = grind map_laws
step-faulted g (submits h class ops) d ne e = e
step-faulted g (marks h text) d ne e = modify-faulted g h _ d (λ s q. refl) e
step-faulted g (injects h address text) d ne e = modify-faulted g h _ d (λ s q. refl) e

run-faulted :
    (g : ObjectId) (cs : List Call) (d : SoftwareGpuDriver)
    → NeverEnded g cs
    → faulted g d ≡ true
    → faulted g (run cs d) ≡ true
unfolding run
run-faulted g [] d h e = e
run-faulted g (c ∷ cs) d h e = run-faulted g cs (step c d) h.1 (step-faulted g c d h.0 e)

faulted-mark :
    (g : ObjectId) (s : DeviceState) (text : String) (d : SoftwareGpuDriver)
    → get g d.devices ≡ some s
    → faulted g (mark_faulted g text d) ≡ true
unfolding mark_faulted inject_fault
faulted-mark g s text d known = grind map_laws

-- What a faulted device answers.
faulted_answers :
    (g : ObjectId) (class : WorkloadClass) (ops : List DriverOp) (d : SoftwareGpuDriver)
    → faulted g d ≡ true
    → (f : GpuFault) × (fault_status g d ≡ ok (some f))
      × (submit g class ops d ≡ (returned (err (faulted_error f)), d))
unfolding fault_status submit
faulted_answers g class ops d e = elim (Option-cases (get g d.devices)) [
  | inl q ↦ absurd (ground arith)
  | inr (s, q) ↦ elim (Option-cases s.fault) [
    | inl r ↦ absurd (ground arith)
    | inr (f, r) ↦ (f, ground arith, ground arith)
  ]
]

-- Once `mark_faulted` has named a known device, it reports a fault and every submission to it is
-- refused with that fault's message, after any calls that neither reset it nor clear its fault.
pub fault_persists :
    (g : ObjectId) (s : DeviceState) (text : String) (cs : List Call) (class : WorkloadClass)
    (ops : List DriverOp) (d : SoftwareGpuDriver)
    → get g d.devices ≡ some s
    → NeverEnded g cs
    → let after = run cs (mark_faulted g text d) in
      (f : GpuFault) × (fault_status g after ≡ ok (some f))
      × (submit g class ops after ≡ (returned (err (faulted_error f)), after))
fault_persists g s text cs class ops d known never =
    faulted_answers g class ops _ (run-faulted g cs _ never (faulted-mark g s text d known))

-- `reset_device` makes any known device submittable again and keeps its pool; of an unknown device
-- it is refused and changes nothing.
pub reset_device_restores :
    (g : ObjectId) (class : WorkloadClass) (ops : List DriverOp) (d : SoftwareGpuDriver)
    → let (r, after) = reset_device g d in
      ((get g d.devices ≡ none) × (r ≡ err (Error.device "unknown GPU device")) × (after ≡ d))
      ⊎ ((r ≡ ok tt)
          × (fault_status g after ≡ ok none)
          × (submit g class ops after ≡ (returned (ok tt), after))
          × (vram_available g after ≡ vram_available g d)
          × (after.allocations ≡ d.allocations))
unfolding reset_device fault_status submit vram_available set_state
reset_device_restores g class ops d = elim (Option-cases (get g d.devices)) [
  | inl e ↦ inl (e, ground arith, ground arith)
  | inr (s, e) ↦
      inr (grind map_laws, grind map_laws, grind map_laws, grind map_laws, grind map_laws)
]
