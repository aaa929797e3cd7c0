-- ===== src/GraphicsRuntime/Recover/Cases.antt =====
-- Every way in which `recover_device` ends.
use sher_graphics.Base.{
  ◌≡◌, Bool, inl, inr, true, false, none, some, arith, Bool-cases, Option-cases, ◌<>◌,
}
use sher_graphics.Map.{get}
use sher_graphics.Result.{Result, ok, err, Error, Result-cases}
use sher_graphics.Kernel.{ObjectId, Platform, gpu_admin}
use sher_graphics.GraphicsApi.{GraphicsDevice}
use sher_graphics.GpuAbstraction.{GpuDriver}
use sher_graphics.GraphicsRuntime.State.{GraphicsRuntime, log}
use sher_graphics.GraphicsRuntime.Recover.{recover_device, tear_down}

module _ {K : Platform} {D : GpuDriver} (id : ObjectId) (caps : K.CapabilitySet) where
  -- The runtime with the call's audit entry.
  abbrev pub audited : Bool → GraphicsRuntime K D → GraphicsRuntime K D
  audited granted rt = log id "recover_device" granted rt

  -- Refused for want of `GpuAdmin`, an unknown device, a driver that cannot reset, or done.
  pub data Ends (rt : GraphicsRuntime K D) (r : Result (Unit {0}) × GraphicsRuntime K D)
      : Type 0 where
    denied :
        K.has_capability caps gpu_admin ≡ false
        → r ≡ (
          err (Error.security ("missing required capability: " <> K.debug gpu_admin)),
          audited false rt,
        )
        → Ends rt r
    unknown :
        K.has_capability caps gpu_admin ≡ true
        → get id rt.devices ≡ none
        → r ≡ (err (Error.device "unknown graphics device"), audited true rt)
        → Ends rt r
    stuck :
        (dev : GraphicsDevice) (e : Error)
        → K.has_capability caps gpu_admin ≡ true
        → get id rt.devices ≡ some dev
        → (D.reset_device dev.gpu rt.driver).0 ≡ err e
        → r ≡ (err e, record (audited true rt) { driver = (D.reset_device dev.gpu rt.driver).1 })
        → Ends rt r
    done :
        (dev : GraphicsDevice)
        → K.has_capability caps gpu_admin ≡ true
        → get id rt.devices ≡ some dev
        → (D.reset_device dev.gpu rt.driver).0 ≡ ok tt
        → r ≡ (
          ok tt,
          tear_down id (record (audited true rt) { driver = (D.reset_device dev.gpu rt.driver).1 }),
        )
        → Ends rt r

  pub recover_device_cases : (rt : GraphicsRuntime K D) → Ends rt (recover_device id caps rt)
  unfolding recover_device log
  recover_device_cases rt = elim (Bool-cases (K.has_capability caps gpu_admin)) [
    | inr e ↦ denied e (ground arith)
    | inl granted ↦ elim (Option-cases (get id rt.devices)) [
      | inl e ↦ unknown granted e (ground arith)
      | inr (dev, known) ↦ elim (Result-cases (D.reset_device dev.gpu rt.driver).0) [
        | inr (x, e) ↦ stuck dev x granted known e (ground arith)
        | inl (u, e) ↦ done dev granted known e (ground arith)
      ]
    ]
  ]
