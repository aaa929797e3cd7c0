-- ===== src/GraphicsRuntime/Order/Unseen.antt =====
-- The order in which hash maps are iterated, over the software driver.
use sher_graphics.Base.{◌≡◌, Option, none, some}
use sher_graphics.Map.{Map}
use sher_graphics.Kernel.{ObjectId, DeviceInfo, Platform}
use sher_graphics.GpuAbstraction.Software.{DeviceState, software}
use sher_graphics.GraphicsRuntime.State.{GraphicsRuntime}
use sher_graphics.GraphicsRuntime.Submit.{timeline_value}
use sher_graphics.GraphicsRuntime.Presentation.{cursor_state}
use sher_graphics.GraphicsRuntime.Recover.{device_fault}

abbrev info_of : Option DeviceState → Option DeviceInfo
info_of none = none
info_of (some s) = some s.info

module _ {K : Platform} where
  -- What the methods with `&self` answer.
  abbrev pub LooksLike : GraphicsRuntime K software → GraphicsRuntime K software → Type 0
  LooksLike rt sh =
      (id : ObjectId)
      → (device_fault id rt ≡ device_fault id sh)
        × (timeline_value id rt ≡ timeline_value id sh)
        × (cursor_state id rt ≡ cursor_state id sh)
