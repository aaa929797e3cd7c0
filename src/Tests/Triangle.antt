-- ===== src/Tests/Triangle.antt =====
-- The program of triangle.rs, and a recovery, on the bench.
use sher_graphics.Base.{◌-◌, ◌≡◌, refl, true, some, [], ◌∷◌, arith}
use sher_graphics.Map.{get, insert, modify, remove}
use sher_graphics.Result.{ok}
use sher_graphics.Kernel.{DeviceInfo}
use sher_graphics.GraphicsApi.{graphics, barrier, CommandStream}
use sher_graphics.GpuAbstraction.Software.{
  software, vram_available, with_devices, new_device, probe, initialize, set_state, allocate_vram,
  debit, new_allocation,
}
use sher_graphics.GraphicsRuntime.State.{GraphicsRuntime, new}
use sher_graphics.GraphicsRuntime.Stream.{validate_stream}
use sher_graphics.GraphicsRuntime.Objects.{
  DeviceIds, find_device, new_graphics_device, create_device, create_timeline, create_resource,
  create_shader_module, create_pipeline,
}
use sher_graphics.GraphicsRuntime.Submit.{timeline_value}
use sher_graphics.GraphicsRuntime.Presentation.{register_connector}
use sher_graphics.GraphicsRuntime.Recover.{recover_device}
use sher_graphics.GraphicsRuntime.Recover.Service.{Serves, listed}
use sher_graphics.GraphicsRuntime.Recover.Restored.{recovery_restores}
use sher_graphics.GraphicsRuntime.History.{run, step}
use sher_graphics.GraphicsRuntime.Triangle.{TriangleIds, main}
use sher_graphics.GraphicsRuntime.Triangle.Frame.{main_shows}
use sher_graphics.Tests.Platform.{bench, all_caps}
use sher_graphics.Tests.Runtime.{sw, ids, device_ten, graphics_queue}
use sher_graphics.Tests.Calls.{sw_device, sw_recovers}

abbrev drawn : TriangleIds
drawn = record {
  gpu = 1;
  device = ids;
  timeline = 20;
  vertex_shader = 40;
  fragment_shader = 41;
  pipeline = 50;
  vertex_buffer = 30;
  stream = 70;
}

main_shows_example :
    (rt : GraphicsRuntime bench software) × (main drawn all_caps 60 60 ≡ some (ok 99, rt))
    × (timeline_value 20 rt ≡ ok 1)
    × (vram_available 1 rt.driver ≡ ok (67108864 - 36))
    × (rt.presentation ≡ 60 ∷ [])
    × (rt.audit ≡ bench.log (bench.log bench.empty_log 1 "create_device" true) 10 "submit" true)
main_shows_example =
    main_shows drawn all_caps 60 60 99 (60 ∷ []) (60 ∷ []) (60 ∷ []) refl refl refl refl refl

abbrev info : DeviceInfo
info = (new_device 1 0 1000).info

sw_lists : find_device device_ten.gpu (listed sw.driver) ≡ some info
unfolding run step new create_device create_timeline create_resource create_shader_module
    create_pipeline register_connector get insert remove modify with_devices new_device set_state
    probe initialize allocate_vram debit new_allocation new_graphics_device find_device
sw_lists = refl

abbrev next_ids : DeviceIds
next_ids = record { device = 80; graphics = 81; compute = 82; transfer = 83 }

abbrev next_stream : CommandStream
next_stream = record { id = 90; device = 80; target_class = graphics; ops = barrier ∷ [] }

sw_sound :
    let after = (recover_device 10 all_caps sw).1 in
    validate_stream next_stream after.pipelines after.resources ≡ ok tt
unfolding validate_stream
sw_sound = refl

recovery_restores_example :
    Serves next_ids all_caps device_ten.gpu 21 5 graphics_queue next_stream
      (recover_device 10 all_caps sw).1
recovery_restores_example =
    recovery_restores 10 all_caps all_caps device_ten info next_ids 21 5 graphics_queue next_stream
      sw sw_recovers sw_device sw_lists refl refl refl refl sw_sound (omega arith)
