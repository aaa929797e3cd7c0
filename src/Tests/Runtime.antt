-- ===== src/Tests/Runtime.antt =====
-- A runtime with one device, over the software driver and over the tests' `PanickingDriver`.
use sher_graphics.Base.{◌≡◌, ◌↔◌, refl, true, List, [], ◌∷◌, arith}
use sher_graphics.Map.{get, insert, remove, modify}
use sher_graphics.Result.{ok}
use sher_graphics.Kernel.{ObjectId}
use sher_graphics.GraphicsApi.{
  GraphicsDevice, graphics, device_local, image, rgba8_unorm, fragment, bind_pipeline,
  bind_resource, draw, copy, barrier, CommandStream, QueueHandle, ImageUsage,
}
use sher_graphics.GpuAbstraction.{GpuDriver, returned, panicked, str}
use sher_graphics.GpuAbstraction.Software.{
  software, fault_status, with_devices, new_device, set_state, probe, initialize, allocate_vram,
  debit, new_allocation,
}
use sher_graphics.GraphicsRuntime.State.{GraphicsRuntime, new}
use sher_graphics.GraphicsRuntime.Objects.{
  DeviceIds, new_graphics_device, create_device, create_timeline, create_resource,
  create_shader_module, create_pipeline,
}
use sher_graphics.GraphicsRuntime.Presentation.{register_connector}
use sher_graphics.GraphicsRuntime.History.{
  Call, creates_device, creates_timeline, creates_resource, creates_shader, creates_pipeline,
  registers_connector, step, run,
}
use sher_graphics.GraphicsRuntime.Stream.{translate_ops, validate_stream}
use sher_graphics.GraphicsRuntime.Submit.{submit}
use sher_graphics.GraphicsRuntime.Submit.Ready.{IsReady, submit_ok_iff}
use sher_graphics.GraphicsRuntime.Submit.Ends.{Ends, submit_ends}
use sher_graphics.UnitTests.Runtime.Panicking.{panicking}
use sher_graphics.Tests.Platform.{bench, all_caps}
use sher_graphics.Tests.Driver.{pair}

abbrev pub ids : DeviceIds
ids = record { device = 10; graphics = 11; compute = 12; transfer = 13 }

abbrev pub no_image_usage : ImageUsage
no_image_usage = record {
  sampled = true;
  storage = true;
  color_attachment = true;
  depth_attachment = true;
  transfer_src = true;
  transfer_dst = true;
}

module _ (D : GpuDriver) where
  -- One device, on GPU 1, and one object of every kind for it.
  abbrev pub set_up : List (Call bench D)
  set_up =
      creates_device ids 1 all_caps
      ∷ creates_timeline 20 10
      ∷ creates_resource 30 10 (image 2 2 1 rgba8_unorm no_image_usage) device_local
      ∷ creates_shader 40 10 fragment (7 ∷ [])
      ∷ creates_pipeline 50 10 40 graphics
      ∷ registers_connector 60
      ∷ []

abbrev pub sw : GraphicsRuntime bench software
sw = run (set_up software) (new bench software pair 4096)

abbrev pub flaking : GraphicsRuntime bench panicking
flaking = run (set_up panicking) (new bench panicking pair 4096)

abbrev pub stream : CommandStream
stream = record {
  id = 70;
  device = 10;
  target_class = graphics;
  ops = bind_pipeline 50 ∷ bind_resource 0 30 ∷ draw 3 1 ∷ copy 30 30 ∷ barrier ∷ [];
}

abbrev pub graphics_queue : QueueHandle
graphics_queue = record { id = 11; class = graphics }

abbrev pub device_ten : GraphicsDevice
device_ten = new_graphics_device ids 1

pub sw-IsReady : IsReady graphics_queue stream 20 5 1 sw
unfolding run step new create_device create_timeline create_resource create_shader_module
    create_pipeline register_connector get insert remove modify with_devices new_device set_state
    probe initialize allocate_vram debit new_allocation new_graphics_device validate_stream
sw-IsReady = record {
  caps = all_caps;
  dev = device_ten;
  current = 0;
  matches = refl;
  held = refl;
  granted = refl;
  known = refl;
  placed = refl;
  live = refl;
  later = omega arith;
  sound = refl;
}

pub flaking-IsReady : IsReady graphics_queue stream 20 5 1 flaking
unfolding run step new create_device create_timeline create_resource create_shader_module
    create_pipeline register_connector get insert remove modify with_devices new_device set_state
    probe initialize allocate_vram debit new_allocation new_graphics_device validate_stream
flaking-IsReady = record {
  caps = all_caps;
  dev = device_ten;
  current = 0;
  matches = refl;
  held = refl;
  granted = refl;
  known = refl;
  placed = refl;
  live = refl;
  later = omega arith;
  sound = refl;
}

pub flaking_panics :
    panicking.submit 1 graphics (translate_ops stream.ops) flaking.driver
    ≡ (panicked (str "simulated driver panic during submit"), flaking.driver)
unfolding run step new create_device create_timeline create_resource create_shader_module
    create_pipeline register_connector get insert remove modify with_devices new_device set_state
    probe initialize allocate_vram debit new_allocation new_graphics_device fault_status
flaking_panics = refl

submit_ok_iff_example : ((submit graphics_queue stream 20 5 sw).0 ≡ ok tt) ↔ (
    (gpu : ObjectId) × IsReady graphics_queue stream 20 5 gpu sw
    × ((software.submit gpu graphics (translate_ops stream.ops) sw.driver).0 ≡ returned (ok tt)))
submit_ok_iff_example = submit_ok_iff graphics_queue stream 20 5 sw

submit_ends_example :
    Ends graphics_queue stream 20 5 flaking (submit graphics_queue stream 20 5 flaking)
submit_ends_example = submit_ends graphics_queue stream 20 5 flaking
