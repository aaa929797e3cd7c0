-- ===== src/GpuAbstraction/FaultChannel.antt =====
-- The contract on faults of the trait `GpuDriver`: `mark_faulted`, `fault_status`, `submit` and
-- `reset_device` share one record of the fault.
use sher_graphics.Base.{◌≡◌, refl, String, Option, none, some, List, arith}
use sher_graphics.Map.{map_laws}
use sher_graphics.Result.{ok, err}
use sher_graphics.Kernel.{ObjectId}
use sher_graphics.GraphicsApi.{WorkloadClass}
use sher_graphics.GpuAbstraction.{GpuFault, DriverOp, returned, GpuDriver, faulted_error}
use sher_graphics.GpuAbstraction.Software.{
  SoftwareGpuDriver, software, set_state, submit, fault_status, reset_device, mark_faulted,
  inject_fault,
}

pub record IsFaultChannel (D : GpuDriver) : Type 0 where
  -- A marked device that the driver knows reports the mark.
  pub marked :
      (g : ObjectId) (text : String) (d : D.Driver) (o : Option GpuFault)
      → D.fault_status g d ≡ ok o
      → (f : GpuFault) × (D.fault_status g (D.mark_faulted g text d) ≡ ok (some f))
        × (f.description ≡ text)
  -- A device that reports a fault takes no work.
  pub blocked :
      (g : ObjectId) (class : WorkloadClass) (ops : List DriverOp) (d : D.Driver) (f : GpuFault)
      → D.fault_status g d ≡ ok (some f)
      → D.submit g class ops d ≡ (returned (err (faulted_error f)), d)
  -- A reset that succeeds ends the fault.
  pub cleared :
      (g : ObjectId) (d : D.Driver)
      → (D.reset_device g d).0 ≡ ok tt
      → D.fault_status g (D.reset_device g d).1 ≡ ok none

software_marked :
    (g : ObjectId) (text : String) (d : SoftwareGpuDriver) (o : Option GpuFault)
    → fault_status g d ≡ ok o
    → (f : GpuFault) × (fault_status g (mark_faulted g text d) ≡ ok (some f))
      × (f.description ≡ text)
unfolding fault_status mark_faulted inject_fault
software_marked g text d o h =
    (record { device = g; address = 0; description = text }, grind map_laws, refl)

software_blocked :
    (g : ObjectId) (class : WorkloadClass) (ops : List DriverOp) (d : SoftwareGpuDriver)
    (f : GpuFault)
    → fault_status g d ≡ ok (some f)
    → submit g class ops d ≡ (returned (err (faulted_error f)), d)
unfolding fault_status submit
software_blocked g class ops d f h = ground arith

software_cleared :
    (g : ObjectId) (d : SoftwareGpuDriver)
    → (reset_device g d).0 ≡ ok tt
    → fault_status g (reset_device g d).1 ≡ ok none
unfolding fault_status reset_device set_state
software_cleared g d h = grind map_laws

-- The software driver keeps one fault record a device, for all four methods.
pub software-IsFaultChannel : IsFaultChannel software
software-IsFaultChannel = record {
  marked = software_marked;
  blocked = software_blocked;
  cleared = software_cleared;
}
