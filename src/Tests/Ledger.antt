-- ===== src/Tests/Ledger.antt =====
-- Requests to the software driver with two devices.
use sher_graphics.Base.{◌≡◌, refl, List, [], ◌∷◌}
use sher_graphics.Map.{get, insert, remove}
use sher_graphics.GraphicsApi.{graphics, device_local}
use sher_graphics.GpuAbstraction.Software.{with_devices}
use sher_graphics.GpuAbstraction.Software.Vram.{used}
use sher_graphics.GpuAbstraction.Software.Ledger.{
  Request, allocates, frees, asks_free, submits, marks, resets, answers, promise, promises,
  AreFresh,
}
use sher_graphics.GpuAbstraction.Software.Ledger.Refines.{Tells, ledger_of, software_refines}
use sher_graphics.Tests.Driver.{pair, pair-IsValid}

abbrev requests : List Request
requests =
    allocates 10 1 300 device_local
    ∷ allocates 11 1 800 device_local
    ∷ frees 10
    ∷ allocates 12 1 800 device_local
    ∷ asks_free 1
    ∷ marks 1 "hang"
    ∷ submits 1 graphics []
    ∷ resets 1
    ∷ []

requests-AreFresh : AreFresh requests (ledger_of pair)
unfolding with_devices promise get insert remove used
requests-AreFresh = (refl, (refl, (tt, (refl, (tt, (tt, (tt, (tt, tt))))))))

software_refines_example :
    ((answers requests pair).0 ≡ (promises requests (ledger_of pair)).0)
    × Tells (promises requests (ledger_of pair)).1 (answers requests pair).1
software_refines_example = software_refines requests pair pair-IsValid requests-AreFresh
