-- ===== src/GraphicsRuntime/Recover/Containment.antt =====
-- From a driver panic to a recovered device.
use sher_graphics.Base.{ℕ, ◌≡◌, refl, String, List, true, ◌<>◌, none, some, arith}
use sher_graphics.Map.{get, map_laws}
use sher_graphics.Result.{ok, err, Error}
use sher_graphics.Kernel.{ObjectId, Platform, DeviceInfo, gpu_admin, gpu_memory_alloc}
use sher_graphics.GraphicsApi.{WorkloadClass, QueueHandle, CommandStream, GraphicsDevice}
use sher_graphics.GpuAbstraction.{GpuDriver, GpuFault, DriverOp, Outcome, PanicPayload, panicked}
use sher_graphics.GpuAbstraction.Software.{
  SoftwareGpuDriver, DeviceState, software, mark_faulted, inject_fault, fault_status, reset_device,
  set_state, probe,
}
use sher_graphics.GpuAbstraction.FaultChannel.{IsFaultChannel}
use sher_graphics.GraphicsRuntime.State.{GraphicsRuntime, log, device}
use sher_graphics.GraphicsRuntime.Objects.{
  DeviceIds, find_device, new_graphics_device, create_device,
}
use sher_graphics.GraphicsRuntime.Recover.Service.{
  listed, listed-modify, find_device_id, Works, reset-Works, initialize-Works,
}
use sher_graphics.GraphicsRuntime.Stream.{translate_ops}
use sher_graphics.GraphicsRuntime.Submit.{submit, contain, panic_error, panic_message}
use sher_graphics.GraphicsRuntime.Submit.Ends.{Says, of_str, of_string, of_opaque}
use sher_graphics.GraphicsRuntime.Submit.Ready.{IsReady, submit_ready}
use sher_graphics.GraphicsRuntime.Recover.{recover_device, tear_down, device_fault}
use sher_graphics.GraphicsRuntime.Recover.Cases.{denied, unknown, stuck, done, recover_device_cases}

module _ {K : Platform} {D : GpuDriver} where
  -- A recovery that succeeds ends the fault of the device's GPU, for a driver that keeps its
  -- faults, and the runtime no longer knows the device.
  pub recovery_clears_fault :
      (channel : IsFaultChannel D) (id : ObjectId) (caps : K.CapabilitySet) (dev : GraphicsDevice)
      (rt : GraphicsRuntime K D)
      → get id rt.devices ≡ some dev
      → (recover_device id caps rt).0 ≡ ok tt
      → let after = (recover_device id caps rt).1 in
        (D.fault_status dev.gpu after.driver ≡ ok none)
        × (device id after ≡ err (Error.device "unknown graphics device"))
  unfolding tear_down device log
  recovery_clears_fault channel id caps dev rt known h = elim (recover_device_cases id caps rt) [
    | denied _ e ↦ absurd (ground arith)
    | unknown _ _ e ↦ absurd (ground arith)
    | stuck _ _ _ _ _ e ↦ absurd (ground arith)
    | done dev' _ known' reset e ↦
        let same : dev ≡ dev' = ground arith in
        rw (e, same) (channel.cleared dev'.gpu rt.driver reset, grind map_laws)
  ]

-- The software driver with any code in the place of its `submit`: `PanickingDriver` of the runtime's
-- tests is one.
abbrev pub with_submit :
    (ObjectId
      → WorkloadClass
      → List DriverOp
      → SoftwareGpuDriver
      → Outcome (Unit {0}) × SoftwareGpuDriver)
    → GpuDriver
with_submit act = record software { submit = act }

says : (p : PanicPayload) (text : String) → Says p text → panic_message p ≡ text
unfolding panic_message
says p text (of_str s) = refl
says p text (of_string s) = refl
says p text of_opaque = refl

-- A mark is reported, a reset ends it, and neither changes what the driver lists.
marked :
    (g : ObjectId) (text : String) (s : DeviceState) (d : SoftwareGpuDriver)
    → get g d.devices ≡ some s
    → let m = mark_faulted g text d in
      (f : GpuFault) × (f.description ≡ text)
      × (fault_status g m ≡ ok (some f))
      × ((reset_device g m).0 ≡ ok tt)
      × (listed m ≡ listed d)
unfolding mark_faulted inject_fault fault_status reset_device set_state
marked g text s d known = (
  record { device = g; address = 0; description = text },
  refl,
  grind map_laws,
  grind map_laws,
  listed-modify g _ d.devices (λ t. refl),
)

module _ {K : Platform}
    {act : ObjectId
      → WorkloadClass
      → List DriverOp
      → SoftwareGpuDriver
      → Outcome (Unit {0}) × SoftwareGpuDriver} where
  created :
      (ids : DeviceIds) (caps : K.CapabilitySet) (g : ObjectId) (info : DeviceInfo)
      (rt : GraphicsRuntime K (with_submit act))
      → K.has_capability caps gpu_memory_alloc ≡ true
      → find_device g (listed rt.driver) ≡ some info
      → Works g rt.driver
      → let (r, after) = create_device ids g caps rt in
        (r ≡ ok (new_graphics_device ids g)) × (fault_status g after.driver ≡ ok none)
  unfolding create_device log probe fault_status
  created ids caps g info rt granted found works =
      let (started, (s, known, healthy)) =
        initialize-Works g info rt.driver (find_device_id g (listed rt.driver) info found) works in
      (ground arith, ground arith)

  -- The runtime after a contained panic that says `text`, with the driver `d` as the panic left it.
  abbrev crashed :
      ObjectId
      → ObjectId
      → String
      → SoftwareGpuDriver
      → GraphicsRuntime K (with_submit act)
      → GraphicsRuntime K (with_submit act)
  crashed owner gpu text d rt = record rt {
    driver = mark_faulted gpu text d;
    audit = K.log rt.audit owner "submit" true;
  }

  submit_crashes :
      (gpu : ObjectId) (p : PanicPayload) (text : String) (d : SoftwareGpuDriver)
      (queue : QueueHandle) (stream : CommandStream) (timeline : ObjectId) (value : ℕ)
      (rt : GraphicsRuntime K (with_submit act))
      → IsReady queue stream timeline value gpu rt
      → act gpu queue.class (translate_ops stream.ops) rt.driver ≡ (panicked p, d)
      → Says p text
      → submit queue stream timeline value rt ≡ (
        err (Error.device ("driver panicked during submit: " <> text)),
        crashed stream.device gpu text d rt,
      )
  unfolding contain log panic_error
  submit_crashes gpu p text d queue stream timeline value rt ready panics said =
      let same = says p text said in
      ground (arith, submit_ready queue stream timeline value gpu rt ready)

  recovers_from :
      (id gpu : ObjectId) (admin : K.CapabilitySet) (dev : GraphicsDevice)
      (rt : GraphicsRuntime K (with_submit act))
      → K.has_capability admin gpu_admin ≡ true
      → get id rt.devices ≡ some dev
      → dev.gpu ≡ gpu
      → (reset_device gpu rt.driver).0 ≡ ok tt
      → let (q, recovered) = recover_device id admin rt in
        (q ≡ ok tt)
        × (device id recovered ≡ err (Error.device "unknown graphics device"))
        × (recovered.driver ≡ (reset_device gpu rt.driver).1)
  unfolding tear_down device log
  recovers_from id gpu admin dev rt granted known here reset =
      elim (recover_device_cases id admin rt) [
        | denied h e ↦ absurd (ground arith)
        | unknown _ h e ↦ absurd (ground arith)
        | stuck dev' x _ h q e ↦ absurd (ground arith)
        | done dev' _ known' reset' e ↦
            let same : dev'.gpu ≡ gpu = ground arith in rw (e, same) (refl, grind map_laws, refl)
      ]

  -- Over the software driver with any code as its `submit`: if a submission passes every check and
  -- that code panics, and the GPU is still among the driver's devices, then `submit` returns an error
  -- with the panic's text and moves no timeline; `device_fault` reports that text; and a recovery by a
  -- holder of `GpuAdmin` succeeds, ends the fault and retires the device, after which a client with
  -- `GpuMemoryAlloc` gets a new device on the same GPU.
  pub panic_recovers :
      (gpu : ObjectId) (p : PanicPayload) (text : String) (s : DeviceState) (info : DeviceInfo)
      (d : SoftwareGpuDriver) (queue : QueueHandle) (stream : CommandStream) (timeline : ObjectId)
      (value : ℕ) (admin caps : K.CapabilitySet) (ids : DeviceIds)
      (rt : GraphicsRuntime K (with_submit act))
      → IsReady queue stream timeline value gpu rt
      → act gpu queue.class (translate_ops stream.ops) rt.driver ≡ (panicked p, d)
      → Says p text
      → get gpu d.devices ≡ some s
      → find_device gpu (listed d) ≡ some info
      → K.has_capability admin gpu_admin ≡ true
      → K.has_capability caps gpu_memory_alloc ≡ true
      → let (r, after) = submit queue stream timeline value rt in
        let (q, recovered) = recover_device stream.device admin after in
        let (c, renewed) = create_device ids gpu caps recovered in
        (f : GpuFault) × (r ≡ err (Error.device ("driver panicked during submit: " <> text)))
        × (after.timelines ≡ rt.timelines)
        × (device_fault stream.device after ≡ ok (some f))
        × (f.description ≡ text)
        × (q ≡ ok tt)
        × (device stream.device recovered ≡ err (Error.device "unknown graphics device"))
        × (c ≡ ok (new_graphics_device ids gpu))
        × (fault_status gpu renewed.driver ≡ ok none)
  unfolding device_fault
  panic_recovers gpu p text s info d queue stream timeline value admin caps ids rt ready panics said
        known found granted held =
      let (f, described, reported, reset, lists) = marked gpu text s d known in
      let after = crashed stream.device gpu text d rt in
      let (q, gone, driver) =
        recovers_from stream.device gpu admin ready.dev after granted ready.known ready.placed
          reset in
      let (works, lists') = reset-Works gpu after.driver reset in
      let (c, healthy) =
        created ids caps gpu info (recover_device stream.device admin after).1 held
          (rw (driver, lists', lists) found) (rw driver works) in
      rw (submit_crashes gpu p text d queue stream timeline value rt ready panics said)
        (f, refl, refl, ground (arith, ready.known, ready.placed), described, q, gone, c, healthy)
