-- ===== src/Tests/Calls.antt =====
-- The runtime's properties on the runtimes of the bench.
use sher_graphics.Base.{
  ◌≤◌, ◌≡◌, ◌↔◌, ◌⊎◌, refl, true, false, none, some, List, [], ◌∷◌, map, arith,
}
use sher_graphics.Base.{word, ◌<◌}
use Prim.Native.Nat.{◌*◌, ◌%◌, ◌/◌}
use sher_graphics.Map.{get, insert, remove, modify}
use sher_graphics.Result.{ok, err, Error, is_ok}
use sher_graphics.Kernel.{ObjectId}
use sher_graphics.GraphicsApi.{Resource, device_local, image, rgba8_unorm}
use sher_graphics.GpuAbstraction.{GpuFault, GpuAllocation, str}
use sher_graphics.GpuAbstraction.Software.{
  software, SoftwareGpuDriver, fault_status, with_devices, new_device, set_state, probe, initialize,
  allocate_vram, debit, new_allocation, free_vram, reset_device, mark_faulted,
}
use sher_graphics.GraphicsRuntime.State.{new}
use sher_graphics.GraphicsRuntime.Stream.{validate_stream, translate_ops}
use sher_graphics.GraphicsRuntime.Stream.Valid.{AreSound, validate_stream_iff}
use sher_graphics.GraphicsRuntime.Stream.Translate.{original, without_bindings, translate_ops_keeps}
use sher_graphics.GraphicsRuntime.Objects.{
  new_graphics_device, create_device, create_timeline, create_resource, create_shader_module,
  create_pipeline,
}
use sher_graphics.GraphicsRuntime.Objects.{free_resource, resource_size}
use sher_graphics.GraphicsRuntime.Objects.Size.{channels, channel_bits, image_size}
use sher_graphics.GraphicsRuntime.Backing.{IsBacked, run-new-IsBacked}
use sher_graphics.GraphicsRuntime.Backing.Leak.{recovery_leaks}
use sher_graphics.GpuAbstraction.Software.{vram_available}
use sher_graphics.GraphicsRuntime.Submit.{submit, wait}
use sher_graphics.GraphicsRuntime.Submit.Signal.{HasReached, submit-wait}
use sher_graphics.GraphicsRuntime.Recover.{recover_device, device_fault}
use sher_graphics.GraphicsRuntime.Recover.Exact.{IsWithout, SameBut, recover_device_exact}
use sher_graphics.GraphicsRuntime.Recover.Containment.{panic_recovers}
use sher_graphics.GraphicsRuntime.Recover.Service.{listed}
use sher_graphics.GraphicsRuntime.Submit.Ends.{of_str}
use sher_graphics.GraphicsRuntime.Objects.{DeviceIds, find_device}
use sher_graphics.GpuAbstraction.Software.{DeviceState}
use sher_graphics.GraphicsRuntime.State.{device}
use sher_graphics.UnitTests.Runtime.Panicking.{panicking_submit}
use sher_graphics.GraphicsRuntime.Presentation.{register_connector, has_connector}
use sher_graphics.GraphicsRuntime.History.{
  Call, creates_device, creates_resource, frees_resource, submits, recovers, step, run,
}
use sher_graphics.GraphicsRuntime.History.Timelines.{run_timelines_monotone}
use sher_graphics.GraphicsRuntime.History.Tables.{IsConsistent, run-new-IsConsistent}
use sher_graphics.GraphicsRuntime.History.Security.{unauthorized_changes_nothing}
use sher_graphics.GraphicsCompat.{
  handle, gem_create, gem_close, gem_handle, closed, gem_create-gem_close,
}
use sher_graphics.Tests.Platform.{bench, all_caps, no_caps}
use sher_graphics.Tests.Driver.{pair}
use sher_graphics.Tests.Runtime.{
  set_up, sw, flaking, stream, graphics_queue, device_ten, flaking-IsReady, flaking_panics,
  no_image_usage,
}

run-new-IsConsistent_example : IsConsistent (run (set_up software) (new bench software pair 4096))
run-new-IsConsistent_example = run-new-IsConsistent pair 4096 (set_up software)

-- A submission, a recovery and another submission.
abbrev later : List (Call bench software)
later =
    submits graphics_queue stream 20 5
    ∷ recovers 10 all_caps
    ∷ submits graphics_queue stream 20 9
    ∷ []

sw_timeline : get 20 sw.timelines ≡ some 0
unfolding run step new create_device create_timeline create_resource create_shader_module
    create_pipeline register_connector get insert remove modify with_devices new_device set_state
    probe initialize allocate_vram debit new_allocation new_graphics_device
sw_timeline = refl

run_timelines_monotone_example : HasReached 20 0 (run later sw)
run_timelines_monotone_example =
    run_timelines_monotone 20 0 later sw (tt, (tt, (tt, tt))) (0, sw_timeline, omega arith)

abbrev flaking_state : DeviceState
flaking_state = record (new_device 1 0 1000) { initialized = true; vram_available = 984 }

abbrev next_ids : DeviceIds
next_ids = record { device = 80; graphics = 81; compute = 82; transfer = 83 }

flaking_known : get 1 flaking.driver.devices ≡ some flaking_state
unfolding run step new create_device create_timeline create_resource create_shader_module
    create_pipeline register_connector get insert remove modify with_devices new_device set_state
    probe initialize allocate_vram debit new_allocation new_graphics_device
flaking_known = refl

flaking_lists : find_device 1 (listed flaking.driver) ≡ some (new_device 1 0 1000).info
unfolding run step new create_device create_timeline create_resource create_shader_module
    create_pipeline register_connector get insert remove modify with_devices new_device set_state
    probe initialize allocate_vram debit new_allocation new_graphics_device find_device
flaking_lists = refl

-- `PanickingDriver`, recovered.
panic_recovers_example :
    let (r, after) = submit graphics_queue stream 20 5 flaking in
    let (q, recovered) = recover_device 10 all_caps after in
    let (c, renewed) = create_device next_ids 1 all_caps recovered in
    (f : GpuFault) × (r
      ≡ err (Error.device "driver panicked during submit: simulated driver panic during submit"))
    × (after.timelines ≡ flaking.timelines)
    × (device_fault 10 after ≡ ok (some f))
    × (f.description ≡ "simulated driver panic during submit")
    × (q ≡ ok tt)
    × (device 10 recovered ≡ err (Error.device "unknown graphics device"))
    × (c ≡ ok (new_graphics_device next_ids 1))
    × (fault_status 1 renewed.driver ≡ ok none)
panic_recovers_example =
    panic_recovers {act = panicking_submit} 1 (str "simulated driver panic during submit")
      "simulated driver panic during submit" flaking_state (new_device 1 0 1000).info flaking.driver
      graphics_queue stream 20 5 all_caps all_caps next_ids flaking flaking-IsReady flaking_panics
      (of_str "simulated driver panic during submit") flaking_known flaking_lists refl refl

recover_device_exact_example :
    let (r, after) = recover_device 10 all_caps sw in
    ((r ≡ ok tt) × IsWithout 10 sw after) ⊎ ((e : Error) × (r ≡ err e) × SameBut sw after)
recover_device_exact_example = recover_device_exact 10 all_caps sw

validate_stream_iff_example :
    (validate_stream stream sw.pipelines sw.resources ≡ ok tt)
    ↔ AreSound 10 sw.pipelines sw.resources stream.ops
validate_stream_iff_example = validate_stream_iff stream sw.pipelines sw.resources

unauthorized_changes_nothing_example :
    (is_ok (recover_device 10 no_caps sw).0 ≡ false)
    × (step (recovers 10 no_caps) sw ≡ record sw { audit = (step (recovers 10 no_caps) sw).audit })
unauthorized_changes_nothing_example = unauthorized_changes_nothing (recovers 10 no_caps) sw refl

sw_submits : (submit graphics_queue stream 20 5 sw).0 ≡ ok tt
unfolding run step new create_device create_timeline create_resource create_shader_module
    create_pipeline register_connector get insert remove modify with_devices new_device set_state
    probe initialize allocate_vram debit new_allocation new_graphics_device submit validate_stream
    sher_graphics.GpuAbstraction.Software.submit
sw_submits = refl

submit-wait_example :
    let after = (submit graphics_queue stream 20 5 sw).1 in
    ((wait 20 4 after ≡ ok tt) ↔ (4 ≤ 5))
    × ((wait 21 4 after ≡ wait 21 4 sw) ⊎ ◌≡◌ {A = ObjectId} 21 20)
submit-wait_example = submit-wait graphics_queue stream 20 5 21 4 sw sw_submits

translate_ops_keeps_example : map original (translate_ops stream.ops) ≡ without_bindings stream.ops
translate_ops_keeps_example = translate_ops_keeps stream.ops

sw_connected : has_connector bench 60 sw.presentation ≡ true
unfolding run step new create_device create_timeline create_resource create_shader_module
    create_pipeline register_connector get insert remove modify with_devices new_device set_state
    probe initialize allocate_vram debit new_allocation new_graphics_device has_connector
sw_connected = refl

abbrev picture : Resource
picture = record {
  id = 30;
  device = 10;
  kind = image 2 2 1 rgba8_unorm no_image_usage;
  memory_class = device_local;
}

sw_picture : get 30 sw.resources ≡ some picture
unfolding run step new create_device create_timeline create_resource create_shader_module
    create_pipeline register_connector get insert remove modify with_devices new_device set_state
    probe initialize allocate_vram debit new_allocation new_graphics_device
sw_picture = refl

pub sw_device : get 10 sw.devices ≡ some device_ten
unfolding run step new create_device create_timeline create_resource create_shader_module
    create_pipeline register_connector get insert remove modify with_devices new_device set_state
    probe initialize allocate_vram debit new_allocation new_graphics_device
sw_device = refl

abbrev taken : GpuAllocation
taken = record { id = 31; device = 1; class = device_local; size = 64; device_address = 16 }

sw_allocates : allocate_vram 31 1 64 device_local sw.driver ≡ (ok taken, debit taken sw.driver)
unfolding run step new create_device create_timeline create_resource create_shader_module
    create_pipeline register_connector get insert remove modify with_devices new_device set_state
    probe initialize allocate_vram debit new_allocation new_graphics_device
sw_allocates = refl

sw_new : get 31 sw.resources ≡ none
unfolding run step new create_device create_timeline create_resource create_shader_module
    create_pipeline register_connector get insert remove modify with_devices new_device set_state
    probe initialize allocate_vram debit new_allocation new_graphics_device
sw_new = refl

sw_frees : free_vram 31 (debit taken sw.driver) ≡ (ok tt, sw.driver)
unfolding run step new create_device create_timeline create_resource create_shader_module
    create_pipeline register_connector get insert remove modify with_devices new_device set_state
    probe initialize allocate_vram debit new_allocation new_graphics_device free_vram
sw_frees = refl

gem_create-gem_close_example :
    let (created, between) = handle 31 (gem_create 10 64) sw in
    (created ≡ ok (gem_handle 31))
    × (handle 0 (gem_close 31) between ≡ (ok closed, record sw { driver = sw.driver }))
unfolding new_graphics_device
gem_create-gem_close_example =
    gem_create-gem_close 31 0 10 64 device_ten taken (debit taken sw.driver) sw.driver sw sw_device
      sw_allocates sw_new sw_frees

pub sw_recovers : (recover_device 10 all_caps sw).0 ≡ ok tt
unfolding run step new create_device create_timeline create_resource create_shader_module
    create_pipeline register_connector get insert remove modify with_devices new_device set_state
    probe initialize allocate_vram debit new_allocation new_graphics_device recover_device
    reset_device
sw_recovers = refl

abbrev picture_block : GpuAllocation
picture_block = record { id = 30; device = 1; class = device_local; size = 16; device_address = 0 }

sw_block : get 30 sw.driver.allocations ≡ some picture_block
unfolding run step new create_device create_timeline create_resource create_shader_module
    create_pipeline register_connector get insert remove modify with_devices new_device set_state
    probe initialize allocate_vram debit new_allocation new_graphics_device
sw_block = refl

-- A new device on the GPU, a resource of it, an attempt to free the old one, and another recovery.
abbrev afterwards : List (Call bench software)
afterwards =
    creates_device next_ids 1 all_caps
    ∷ creates_resource 31 80 (image 2 2 1 rgba8_unorm no_image_usage) device_local
    ∷ frees_resource 30
    ∷ recovers 80 all_caps
    ∷ []

recovery_leaks_example :
    let recovery = (recover_device 10 all_caps sw).1 in
    let after = run afterwards recovery in
    (vram_available 1 recovery.driver ≡ vram_available 1 sw.driver)
    × (get 30 after.driver.allocations ≡ some picture_block)
    × (free_resource 30 after ≡ (err (Error.memory "unknown resource"), after))
recovery_leaks_example =
    recovery_leaks 10 all_caps 1 30 picture picture_block afterwards sw sw_recovers sw_picture refl
      sw_block (refl, (refl, (refl, (refl, tt)))) (refl, (refl, (refl, (refl, tt))))

run-new-IsBacked_example : IsBacked (run (set_up software) (new bench software pair 4096))
run-new-IsBacked_example =
    run-new-IsBacked pair 4096 (set_up software) (refl, (refl, (refl, (refl, (refl, (refl, tt))))))

image_size_example :
    let size = resource_size (image 2147483648 2147483648 1 rgba8_unorm no_image_usage) in
    let bytes =
      2147483648 * 2147483648 * 1 * (channels rgba8_unorm * channel_bits rgba8_unorm / 8) in
    (size ≡ bytes % word) × ((size ≡ bytes) ↔ (bytes < word))
image_size_example = image_size 2147483648 2147483648 1 rgba8_unorm no_image_usage
