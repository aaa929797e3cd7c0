-- ===== src/GpuAbstraction/Software/Order.antt =====
-- Software drivers whose hash maps hold the same entries, in whatever order they are iterated.
use sher_graphics.Base.{
  ℕ, ◌≡◌, refl, ap, ltb, String, none, some, List, [], ◌∷◌, ◌==◌, ◌∙◌, Bool, true, false,
  if◌then◌else◌,
}
use sher_graphics.Map.{Map, modify}
use sher_graphics.Map.Same.{Same, insert-Same, remove-Same, modify-Same}
use sher_graphics.Result.{ok, err, Error, ok_or, and_then}
use sher_graphics.Result.Related.{
  Agree, Related, reads-Related, writes-Related, fail_if-Related, pure-Related, bind-Related,
}
use sher_graphics.Kernel.{ObjectId}
use sher_graphics.GraphicsApi.{MemoryClass, WorkloadClass}
use sher_graphics.GpuAbstraction.{DriverOp, GpuAllocation, returned, faulted_error}
use sher_graphics.GpuAbstraction.Software.{
  SoftwareGpuDriver, DeviceState, state, set_state, allocate_vram, new_allocation, debit,
  drop_allocation, credit, free_vram, submit, fault_status, mark_faulted, inject_fault,
}

-- Each device is listed under its own identifier.
abbrev pub IsKeyed : Map DeviceState → Type 0
IsKeyed [] = Unit
IsKeyed ((k, s) ∷ m) = (s.info.id ≡ k) × IsKeyed m

pub record IsSameDriver (d e : SoftwareGpuDriver) : Type 0 where
  pub devices : Same d.devices e.devices
  pub allocations : Same d.allocations e.allocations
  pub registers : Same d.registers e.registers
  pub keyed_left : IsKeyed d.devices
  pub keyed_right : IsKeyed e.devices

if-IsKeyed :
    (b : Bool) (m n : Map DeviceState) → IsKeyed m → IsKeyed n → IsKeyed (if b then m else n)
if-IsKeyed true m n hm hn = hm
if-IsKeyed false m n hm hn = hn

modify-IsKeyed :
    (k : ℕ) (f : DeviceState → DeviceState) (m : Map DeviceState)
    → ((s : DeviceState) → (f s).info ≡ s.info)
    → IsKeyed m
    → IsKeyed (modify k f m)
unfolding modify
modify-IsKeyed k f [] keeps h = tt
modify-IsKeyed k f ((j, s) ∷ m) keeps (at, h) =
    if-IsKeyed (k == j) _ _ (ap (λ i. i.id) (keeps s) ∙ at, h) (at, modify-IsKeyed k f m keeps h)

state_same : (g : ObjectId) (d e : SoftwareGpuDriver) → IsSameDriver d e → state g d ≡ state g e
unfolding state
state_same g d e s = ap (λ x. ok_or x (Error.device "unknown GPU device")) (s.devices g)

modified :
    (g : ObjectId) (f : DeviceState → DeviceState)
    → ((s : DeviceState) → (f s).info ≡ s.info)
    → (d e : SoftwareGpuDriver) → IsSameDriver d e
    → IsSameDriver
        (record d { devices = modify g f d.devices })
        (record e { devices = modify g f e.devices })
modified g f keeps d e s = record {
  devices = modify-Same d.devices e.devices s.devices g f;
  allocations = s.allocations;
  registers = s.registers;
  keyed_left = modify-IsKeyed g f d.devices keeps s.keyed_left;
  keyed_right = modify-IsKeyed g f e.devices keeps s.keyed_right;
}

pub set_state-Related :
    (g : ObjectId) (f : DeviceState → DeviceState)
    → ((s : DeviceState) → (f s).info ≡ s.info)
    → Related IsSameDriver (set_state g f) (set_state g f)
unfolding set_state
set_state-Related g f keeps =
    bind-Related IsSameDriver _ _ _ _ (reads-Related IsSameDriver _ _ (state_same g))
      λ s. writes-Related IsSameDriver _ _ (modified g f keeps)

debited :
    (a : GpuAllocation) (d e : SoftwareGpuDriver)
    → IsSameDriver d e
    → IsSameDriver (debit a d) (debit a e)
unfolding debit
debited a d e s =
    let m = modified a.device _ (λ _. refl) d e s in
    record {
      devices = m.devices;
      allocations = insert-Same d.allocations e.allocations s.allocations a.id a;
      registers = s.registers;
      keyed_left = m.keyed_left;
      keyed_right = m.keyed_right;
    }

dropped :
    (k : ObjectId) (d e : SoftwareGpuDriver)
    → IsSameDriver d e
    → IsSameDriver (drop_allocation k d) (drop_allocation k e)
dropped k d e s = record {
  devices = s.devices;
  allocations = remove-Same d.allocations e.allocations s.allocations k;
  registers = s.registers;
  keyed_left = s.keyed_left;
  keyed_right = s.keyed_right;
}

pub allocate_vram-Related :
    (fresh g : ObjectId) (size : ℕ) (class : MemoryClass)
    → Related IsSameDriver (allocate_vram fresh g size class) (allocate_vram fresh g size class)
unfolding allocate_vram
allocate_vram-Related fresh g size class =
    bind-Related IsSameDriver _ _ _ _ (reads-Related IsSameDriver _ _ (state_same g)) λ s.
      let a = new_allocation fresh g size class s in
      bind-Related IsSameDriver _ _ _ _
        (fail_if-Related IsSameDriver (ltb s.vram_available size)
          (Error.memory "insufficient VRAM"))
        λ u.
          bind-Related IsSameDriver _ _ _ _ (writes-Related IsSameDriver _ _ (debited a))
            λ u. pure-Related IsSameDriver a

pub free_vram-Related : (k : ObjectId) → Related IsSameDriver (free_vram k) (free_vram k)
unfolding free_vram
free_vram-Related k =
    bind-Related IsSameDriver _ _ _ _
      (reads-Related IsSameDriver _ _
        λ d e s. ap (λ x. ok_or x (Error.memory "unknown allocation")) (s.allocations k))
      λ a.
        bind-Related IsSameDriver _ _ _ _ (writes-Related IsSameDriver _ _ (dropped k))
          λ u. set_state-Related a.device (credit a.size) λ s. refl

pub submit-Agree :
    (g : ObjectId) (class : WorkloadClass) (ops : List DriverOp) (d e : SoftwareGpuDriver)
    → IsSameDriver d e
    → Agree IsSameDriver (submit g class ops d) (submit g class ops e)
unfolding submit
submit-Agree g class ops d e s = (
  ap
      (λ r.
        returned (
          and_then r λ st. elim st.fault [ none ↦ ok tt | some fault ↦ err (faulted_error fault) ]))
      (state_same g d e s),
  s,
)

pub fault_status_same :
    (g : ObjectId) (d e : SoftwareGpuDriver)
    → IsSameDriver d e
    → fault_status g d ≡ fault_status g e
unfolding fault_status
fault_status_same g d e s = ap (λ r. and_then r λ st. ok st.fault) (state_same g d e s)

pub mark_faulted_same :
    (g : ObjectId) (text : String) (d e : SoftwareGpuDriver)
    → IsSameDriver d e
    → IsSameDriver (mark_faulted g text d) (mark_faulted g text e)
unfolding mark_faulted inject_fault
mark_faulted_same g text d e s = modified g _ (λ _. refl) d e s
