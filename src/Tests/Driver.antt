-- ===== src/Tests/Driver.antt =====
-- The software driver with one device and with two.
use sher_graphics.Base.{ℕ, ◌+◌, ◌≤◌, ◌≡◌, refl, some, List, [], ◌∷◌, arith}
use sher_graphics.Map.{get, insert, remove, modify}
use sher_graphics.Result.{ok, err}
use sher_graphics.GraphicsApi.{graphics, device_local}
use sher_graphics.GpuAbstraction.{GpuAllocation, GpuFault, faulted_error, returned}
use sher_graphics.GpuAbstraction.Software.{
  SoftwareGpuDriver, DeviceState, with_devices, new_device, new_allocation, debit, allocate_vram,
  free_vram, fault_status, vram_available, submit, mark_faulted,
}
use sher_graphics.GpuAbstraction.Software.Vram.{used, IsValid}
use sher_graphics.GpuAbstraction.Software.History.{
  Call, step, allocates, frees, marks, run, run_conserves_vram, with_devices-IsValid, AreFresh,
}
use sher_graphics.GpuAbstraction.Software.Release.{reallocation-Overlaps, churn, Overlaps}
use sher_graphics.GpuAbstraction.Software.Isolation.{run_isolated, Avoids}
use sher_graphics.GpuAbstraction.Software.Faults.{fault_persists}

abbrev two : ℕ → ℕ
two i = i + 1

-- Two devices, 1 and 2, with 1000 bytes each.
abbrev pub pair : SoftwareGpuDriver
pair = with_devices two 2 1000

abbrev calls : List Call
calls =
    allocates 10 1 300 device_local
    ∷ allocates 11 2 500 device_local
    ∷ frees 10
    ∷ allocates 12 1 400 device_local
    ∷ []

abbrev first_device : DeviceState
first_device = new_device 1 0 1000

pair_first : get 1 pair.devices ≡ some first_device
unfolding with_devices get insert new_device
pair_first = refl

pub pair-IsValid : IsValid pair
pair-IsValid = with_devices-IsValid two 2 1000 (omega arith)

calls-AreFresh : AreFresh calls pair
unfolding with_devices get insert remove modify run step allocate_vram free_vram debit
    new_allocation new_device
calls-AreFresh = (refl, (refl, (tt, (refl, tt))))

abbrev last_of : DeviceState
last_of = record first_device { vram_available = 600 }

calls_last : get 1 (run calls pair).devices ≡ some last_of
unfolding with_devices get insert remove modify run step allocate_vram free_vram debit
    new_allocation new_device
calls_last = refl

run_conserves_vram_example : (600 + used 1 (run calls pair).allocations ≡ 1000) × (600 ≤ 1000)
unfolding new_device
run_conserves_vram_example =
    run_conserves_vram two 2 1000 calls 1 last_of (omega arith) calls-AreFresh calls_last

abbrev block : GpuAllocation
block = new_allocation 10 1 300 device_local first_device

fits_two : 100 + 100 ≤ first_device.vram_available
unfolding new_device
fits_two = omega arith

fits_three : 100 + 200 ≤ first_device.vram_available
unfolding new_device
fits_three = omega arith

reallocation-Overlaps_example :
    let after = churn 1 10 11 12 100 100 200 device_local pair in
    (b : GpuAllocation) × (c : GpuAllocation) × (get 11 after.allocations ≡ some b)
    × (get 12 after.allocations ≡ some c)
    × Overlaps b c
reallocation-Overlaps_example =
    reallocation-Overlaps 1 10 11 12 100 100 200 device_local first_device pair pair-IsValid
      pair_first (omega arith) (omega arith) (omega arith) (omega arith) fits_two fits_three

-- Calls about device 2 alone.
abbrev elsewhere : List Call
elsewhere = allocates 11 2 500 device_local ∷ marks 2 "hang" ∷ frees 11 ∷ []

elsewhere-Avoids : Avoids 1 elsewhere pair
unfolding with_devices get insert remove modify run step allocate_vram free_vram debit
    new_allocation new_device mark_faulted
elsewhere-Avoids = (ground arith, (ground arith, (ground arith, tt)))

run_isolated_example :
    let after = run elsewhere pair in
    (vram_available 1 after ≡ vram_available 1 pair)
    × (fault_status 1 after ≡ fault_status 1 pair)
    × ((submit 1 graphics [] after).0 ≡ (submit 1 graphics [] pair).0)
run_isolated_example = run_isolated 1 elsewhere graphics [] pair elsewhere-Avoids

fault_persists_example :
    let after = run calls (mark_faulted 1 "hang" pair) in
    (f : GpuFault) × (fault_status 1 after ≡ ok (some f))
    × (submit 1 graphics [] after ≡ (returned (err (faulted_error f)), after))
fault_persists_example =
    fault_persists 1 first_device "hang" calls graphics [] pair pair_first
      (refl, (refl, (refl, (refl, tt))))
