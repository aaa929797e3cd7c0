-- ===== src/GpuAbstraction/Software/History.antt =====
-- Histories of calls on `SoftwareGpuDriver`, and the accounts after any of them.
use sher_graphics.Base.{
  ℕ, zero, suc, ◌+◌, ◌≤◌, ◌<◌, ◌≡◌, refl, none, some, List, [], ◌∷◌, arith, word, String,
  Option-cases, inl, inr, ◌⊎◌,
}
use sher_graphics.Map.{Map, get, modify, map_laws}
use sher_graphics.Result.{ok, err, Error}
use sher_graphics.Kernel.{ObjectId, DeviceInfo}
use sher_graphics.GraphicsApi.{MemoryClass, WorkloadClass}
use sher_graphics.GpuAbstraction.{DriverOp}
use sher_graphics.GpuAbstraction.Software.{
  SoftwareGpuDriver, DeviceState, add_devices, with_devices, set_state, initialize, shutdown,
  allocate_vram, free_vram, map_dma, submit, reset_device, mark_faulted, inject_fault, clear_fault,
}
use sher_graphics.GpuAbstraction.Software.Vram.{
  IsValid, used, allocate_vram-IsValid, free_vram-IsValid,
}

-- The calls that take the driver by `&mut self`.
pub data Call : Type 0 where
  initializes : DeviceInfo → Call
  shuts_down frees maps resets clears : ObjectId → Call
  allocates : (fresh device : ObjectId) (size : ℕ) (class : MemoryClass) → Call
  submits : ObjectId → WorkloadClass → List DriverOp → Call
  marks : ObjectId → String → Call
  injects : ObjectId → ℕ → String → Call

unfoldable pub step : Call → SoftwareGpuDriver → SoftwareGpuDriver
step (initializes info) d = (initialize info d).1
step (shuts_down g) d = (shutdown g d).1
step (allocates fresh g size class) d = (allocate_vram fresh g size class d).1
step (frees k) d = (free_vram k d).1
step (maps k) d = (map_dma k d).1
step (submits g class ops) d = (submit g class ops d).1
step (resets g) d = (reset_device g d).1
step (marks g text) d = mark_faulted g text d
step (injects g address text) d = inject_fault g address text d
step (clears g) d = clear_fault g d

unfoldable pub run : List Call → SoftwareGpuDriver → SoftwareGpuDriver
unfolding step
run [] d = d
run (c ∷ cs) d = run cs (step c d)

-- An identifier that `ObjectId::new()` returns names no live allocation.
abbrev pub IsFresh : Call → SoftwareGpuDriver → Type 0
IsFresh (allocates fresh g size class) d = get fresh d.allocations ≡ none
IsFresh _ d = Unit

abbrev pub AreFresh : List Call → SoftwareGpuDriver → Type 0
AreFresh [] d = Unit
AreFresh (c ∷ cs) d = IsFresh c d × AreFresh cs (step c d)

-- A write to a device's record that leaves its pool alone.
abbrev IsQuiet : (DeviceState → DeviceState) → Type 0
IsQuiet f =
    (s : DeviceState)
    → ((f s).vram_total ≡ s.vram_total) × ((f s).vram_available ≡ s.vram_available)

modify-IsValid :
    (g : ObjectId) (f : DeviceState → DeviceState) (d : SoftwareGpuDriver)
    → IsQuiet f
    → IsValid d
    → IsValid (record d { devices = modify g f d.devices })
modify-IsValid g f d q v = record {
  nodup = v.nodup;
  balanced = λ h s e. grind (map_laws, v.balanced h, q);
  homed = λ k a e. grind (map_laws, v.homed k a);
}

pub set_state_cases :
    (g : ObjectId) (f : DeviceState → DeviceState) (d : SoftwareGpuDriver)
    → ((get g d.devices ≡ none) × (set_state g f d ≡ (err (Error.device "unknown GPU device"), d)))
      ⊎ ((s : DeviceState) × (get g d.devices ≡ some s)
          × (set_state g f d ≡ (ok tt, record d { devices = modify g f d.devices })))
unfolding set_state
set_state_cases g f d = elim (Option-cases (get g d.devices)) [
  | inl e ↦ inl (e, ground arith)
  | inr (s, e) ↦ inr (s, e, ground arith)
]

set_state-IsValid :
    (g : ObjectId) (f : DeviceState → DeviceState) (d : SoftwareGpuDriver)
    → IsQuiet f
    → IsValid d
    → IsValid (set_state g f d).1
set_state-IsValid g f d q v = elim (set_state_cases g f d) [
  | inl (_, e) ↦ rw e v
  | inr (_, _, e) ↦ rw e (modify-IsValid g f d q v)
]

map_dma_same : (k : ObjectId) (d : SoftwareGpuDriver) → (map_dma k d).1 ≡ d
unfolding map_dma
map_dma_same k d = ground arith

pub step-IsValid : (c : Call) (d : SoftwareGpuDriver) → IsFresh c d → IsValid d → IsValid (step c d)
unfolding step initialize shutdown submit reset_device mark_faulted inject_fault clear_fault
step-IsValid (initializes info) d new v = set_state-IsValid info.id _ d (λ s. (refl, refl)) v
step-IsValid (shuts_down g) d new v = set_state-IsValid g _ d (λ s. (refl, refl)) v
step-IsValid (frees k) d new v = free_vram-IsValid k d v
step-IsValid (maps k) d new v = rw (map_dma_same k d) v
step-IsValid (resets g) d new v = set_state-IsValid g _ d (λ s. (refl, refl)) v
step-IsValid (clears g) d new v = modify-IsValid g _ d (λ s. (refl, refl)) v
step-IsValid (allocates fresh g size class) d new v =
    allocate_vram-IsValid fresh g size class d new v
step-IsValid (submits g class ops) d new v = v
step-IsValid (marks g text) d new v = modify-IsValid g _ d (λ s. (refl, refl)) v
step-IsValid (injects g address text) d new v = modify-IsValid g _ d (λ s. (refl, refl)) v

pub run-IsValid :
    (cs : List Call) (d : SoftwareGpuDriver) → AreFresh cs d → IsValid d → IsValid (run cs d)
unfolding run
run-IsValid [] d new v = v
run-IsValid (c ∷ cs) d new v = run-IsValid cs (step c d) new.1 (step-IsValid c d new.0 v)

-- A device as the constructor leaves it.
abbrev IsNew : ℕ → DeviceState → Type 0
IsNew bytes s = (s.vram_available ≡ bytes) × (s.vram_total ≡ bytes) × (s.fault ≡ none)

pub add_devices-IsNew :
    (ids : ℕ → ObjectId) (bytes rounds i : ℕ) (m : Map DeviceState)
    → ((g : ObjectId) (s : DeviceState) → get g m ≡ some s → IsNew bytes s)
    → (g : ObjectId) (s : DeviceState) → get g (add_devices ids bytes rounds i m) ≡ some s
    → IsNew bytes s
unfolding add_devices
add_devices-IsNew ids bytes zero i m h g s e = h g s e
add_devices-IsNew ids bytes (suc rounds) i m h g s e =
    add_devices-IsNew ids bytes rounds (suc i) _ (λ k t q. grind (map_laws, h k)) g s e

pub with_devices-IsValid :
    (ids : ℕ → ObjectId) (count bytes : ℕ) → bytes < word → IsValid (with_devices ids count bytes)
unfolding with_devices used get
with_devices-IsValid ids count bytes small = record {
  nodup = tt;
  balanced = λ g s e. omega (arith, add_devices-IsNew ids bytes count 0 [] (λ _ _ q. cc) g s e);
  homed = λ k a e. cc;
}

-- From a driver with pools below 2 ^ 64 bytes on, after any history of calls in which allocations
-- get fresh identifiers, the pool of every device adds up: what is free and what its live
-- allocations hold make its total, and so the free amount never passes the total.
pub run_conserves_vram :
    (ids : ℕ → ObjectId) (count bytes : ℕ) (cs : List Call) (g : ObjectId) (s : DeviceState)
    → bytes < word
    → let start = with_devices ids count bytes in
      AreFresh cs start
      → get g (run cs start).devices ≡ some s
      → (s.vram_available + used g (run cs start).allocations ≡ s.vram_total)
        × (s.vram_available ≤ s.vram_total)
run_conserves_vram ids count bytes cs g s small new e =
    let v = run-IsValid cs _ new (with_devices-IsValid ids count bytes small) in
    let b = v.balanced g s e in (b.0, omega arith)
