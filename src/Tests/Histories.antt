-- ===== src/Tests/Histories.antt =====
-- Histories of calls on the runtimes of the bench.
use sher_graphics.Base.{ℕ, ◌≡◌, refl, false, some, List, [], ◌∷◌, subst, sym, ◌++◌, ◌==◌, arith}
use sher_graphics.Map.{get, insert, remove, modify}
use sher_graphics.Map.Same.{Same}
use sher_graphics.GraphicsApi.{GraphicsDevice}
use sher_graphics.GpuAbstraction.Software.{
  SoftwareGpuDriver, software, with_devices, new_device, probe, initialize, set_state,
  allocate_vram, debit, new_allocation, reset_device,
}
use sher_graphics.GpuAbstraction.Software.Vram.{IsValid}
use sher_graphics.GpuAbstraction.Software.History.{initializes, step-IsValid, step as driver_step}
use sher_graphics.GpuAbstraction.Vulkan.Thread.{Thread, up, down, driver, worker}
use sher_graphics.GpuAbstraction.Vulkan.Thread.Dropping.{
  to_send, joined, close, four_turns, drop_finishes,
}
use sher_graphics.GraphicsRuntime.State.{GraphicsRuntime, new}
use sher_graphics.GraphicsRuntime.Objects.{
  DeviceIds, new_graphics_device, create_device, create_timeline, create_resource,
  create_shader_module, create_pipeline,
}
use sher_graphics.GraphicsRuntime.Presentation.{register_connector}
use sher_graphics.GraphicsRuntime.Recover.{device_fault}
use sher_graphics.GraphicsRuntime.History.{
  Call, creates_device, creates_timeline, recovers, administers, submits, step, run,
}
use sher_graphics.GraphicsRuntime.History.Audit.{trail, write_all, run_audits}
use sher_graphics.GraphicsRuntime.History.Failures.{answers_ok, outside, failure_keeps_tables}
use sher_graphics.GraphicsRuntime.Embed.{perform}
use sher_graphics.GraphicsRuntime.Isolation.{IsUntouched}
use sher_graphics.GraphicsRuntime.Isolation.Spared.{run_spares}
use sher_graphics.GraphicsCompat.{gem_create, gem_close, prime_handle_to_fd}
use sher_graphics.GraphicsCompat.Gem.{Drawn, promises, AreFresh, promise, reserved}
use sher_graphics.GraphicsCompat.Session.{
  Stands, gpu_of, pool_of, handles_of, drive, session_refines,
}
use sher_graphics.Tests.Platform.{bench, all_caps, no_caps}
use sher_graphics.Tests.Driver.{pair, pair-IsValid}
use sher_graphics.Tests.Runtime.{ids, sw, stream, graphics_queue, device_ten}
use sher_graphics.Tests.Calls.{sw_device}

-- A refused creation, a submission, a use of the driver and a recovery.
abbrev watched : List (Call bench software)
watched =
    creates_device ids 1 no_caps
    ∷ submits graphics_queue stream 20 5
    ∷ administers all_caps (reset_device 1)
    ∷ recovers 10 all_caps
    ∷ []

run_audits_example : (run watched sw).audit ≡ write_all bench (trail watched sw) sw.audit
run_audits_example = run_audits watched sw

ownerless : answers_ok (perform (creates_timeline 21 99) sw).0 ≡ false
unfolding run step new create_device create_timeline create_resource create_shader_module
    create_pipeline register_connector get insert remove modify with_devices new_device set_state
    probe initialize allocate_vram debit new_allocation new_graphics_device perform
ownerless = refl

failure_keeps_tables_example :
    (perform (creates_timeline 21 99) sw).1 ≡ outside (perform (creates_timeline 21 99) sw).1 sw
failure_keeps_tables_example = failure_keeps_tables (creates_timeline 21 99) sw ownerless

-- The two devices in the other order.
abbrev riap : SoftwareGpuDriver
riap = record pair { devices = (2, new_device 2 1 1000) ∷ (1, new_device 1 0 1000) ∷ [] }

-- Device 10 on GPU 1, and nothing else.
abbrev bare : GraphicsRuntime bench software
bare = run (creates_device ids 1 all_caps ∷ []) (new bench software pair 4096)

abbrev requests : List Drawn
requests =
    (31, gem_create 10 600)
    ∷ (32, gem_create 10 600)
    ∷ (33, gem_close 31)
    ∷ (34, gem_create 10 600)
    ∷ (35, prime_handle_to_fd 34)
    ∷ []

bare_driver : bare.driver ≡ driver_step (initializes (new_device 1 0 1000).info) pair
unfolding run step new create_device get insert modify with_devices new_device set_state probe
    initialize new_graphics_device driver_step
bare_driver = refl

bare-Stands : Stands (gpu_of bare) (pool_of bare) [] bare
unfolding run step new create_device get insert modify with_devices new_device set_state probe
    initialize new_graphics_device handles_of
bare-Stands = record {
  gpus_known = λ id. refl;
  budgets_known = λ g. refl;
  allocated = refl;
  listed = λ k. refl;
  valid =
      subst IsValid (sym bare_driver)
        (step-IsValid (initializes (new_device 1 0 1000).info) pair tt pair-IsValid);
}

requests-AreFresh : AreFresh (gpu_of bare) (pool_of bare) requests []
unfolding run step new create_device get insert remove modify with_devices new_device set_state
    probe initialize new_graphics_device promise reserved
requests-AreFresh = (refl, (refl, (refl, (refl, (refl, tt)))))

session_refines_example :
    ((drive requests bare).0 ≡ (promises (gpu_of bare) (pool_of bare) requests []).0)
    × Stands
        (gpu_of bare)
        (pool_of bare)
        (promises (gpu_of bare) (pool_of bare) requests []).1
        (drive requests bare).1
session_refines_example =
    session_refines (gpu_of bare) (pool_of bare) requests [] bare requests-AreFresh bare-Stands

abbrev other_ids : DeviceIds
other_ids = record { device = 15; graphics = 16; compute = 17; transfer = 18 }

-- A device on GPU 2, with a timeline, and its recovery.
abbrev elsewhere : List (Call bench software)
elsewhere = creates_device other_ids 2 all_caps ∷ creates_timeline 21 15 ∷ recovers 15 all_caps ∷ []

on_two :
    (dev : GraphicsDevice)
    → get 15 (step (creates_timeline 21 15) (step (creates_device other_ids 2 all_caps) sw)).devices
      ≡ some dev
    → (dev.gpu == 1) ≡ false
unfolding run step new create_device create_timeline create_resource create_shader_module
    create_pipeline register_connector get insert remove modify with_devices new_device set_state
    probe initialize allocate_vram debit new_allocation new_graphics_device
on_two dev e = ground arith

run_spares_example :
    IsUntouched 10 1 sw (run elsewhere sw)
    × (device_fault 10 (run elsewhere sw) ≡ device_fault 10 sw)
unfolding new_graphics_device
run_spares_example =
    run_spares 10 elsewhere sw device_ten sw_device (refl, (tt, ((refl, on_two), tt)))

abbrev lively : Thread ℕ
lively = up 5

drop_finishes_example :
    let s =
      close
        ((worker ∷ driver ∷ worker ∷ []) ++ four_turns)
        (record { progress = to_send; queued = false; thread = lively }) in
    (s.progress ≡ joined) × (s.thread ≡ down)
drop_finishes_example = drop_finishes lively (worker ∷ driver ∷ worker ∷ [])
