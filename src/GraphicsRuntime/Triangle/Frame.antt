-- ===== src/GraphicsRuntime/Triangle/Frame.antt =====
-- How the program of triangle.rs ends.
use sher_graphics.Base.{◌≡◌, refl, true, some, [], ◌∷◌, arith, ◌-◌}
use sher_graphics.Map.{get, insert, modify}
use sher_graphics.Result.{ok}
use sher_graphics.Kernel.{ObjectId, Platform, gpu_memory_alloc, gpu_command_submit}
use sher_graphics.GraphicsApi.{
  graphics, host_visible, buffer, vertex, fragment, QueueHandle, CommandStream, queue,
  GraphicsDevice, bind_pipeline, bind_resource, draw,
}
use sher_graphics.GpuAbstraction.{GpuAllocation}
use sher_graphics.GpuAbstraction.Software.{
  software, SoftwareGpuDriver, new as new_driver, with_devices, new_device, probe, initialize,
  set_state, allocate_vram, debit, new_allocation, vram_available, submit as driver_submit,
}
use sher_graphics.GraphicsRuntime.State.{GraphicsRuntime, new as new_runtime, log}
use sher_graphics.GraphicsRuntime.Stream.{validate_stream}
use sher_graphics.GraphicsRuntime.Objects.{new_graphics_device, resource_of}
use sher_graphics.GraphicsRuntime.Submit.{submit, contain, timeline_value}
use sher_graphics.GraphicsRuntime.Submit.Ready.{IsReady, submit_ready}
use sher_graphics.GraphicsRuntime.Triangle.{TriangleIds, zeroes, vertex_usage, prepare, show, main}

module _ (ids : TriangleIds) where
  -- What the program has made before it submits.
  abbrev stream : CommandStream
  stream = record {
    id = ids.stream;
    device = ids.device.device;
    target_class = graphics;
    ops = bind_pipeline ids.pipeline ∷ bind_resource 0 ids.vertex_buffer ∷ draw 3 1 ∷ [];
  }

  abbrev allocation : GpuAllocation
  allocation = record {
    id = ids.vertex_buffer;
    device = ids.gpu;
    class = host_visible;
    size = 36;
    device_address = 0;
  }

  abbrev driver : SoftwareGpuDriver
  driver = record {
    devices =
        (
          ids.gpu,
          record (new_device ids.gpu 0 67108864) { initialized = true; vram_available = 67108828 },
        )
        ∷ [];
    allocations = (ids.vertex_buffer, allocation) ∷ [];
    registers = [];
  }

  abbrev dev : GraphicsDevice
  dev = new_graphics_device ids.device ids.gpu

  abbrev drawing : QueueHandle
  drawing = record { id = ids.device.graphics; class = graphics }

  queue-dev : queue dev graphics ≡ some drawing
  unfolding queue new_graphics_device
  queue-dev = refl

module _ {K : Platform} (ids : TriangleIds) (caps : K.CapabilitySet) where
  abbrev prepared : GraphicsRuntime K software
  prepared = record {
    driver = driver ids;
    devices = (ids.device.device, dev ids) ∷ [];
    device_caps = (ids.device.device, caps) ∷ [];
    resources =
        (
          ids.vertex_buffer,
          resource_of ids.device.device (buffer 36 vertex_usage) host_visible (allocation ids),
        )
        ∷ [];
    shaders =
        insert ids.fragment_shader
          (record {
            id = ids.fragment_shader;
            device = ids.device.device;
            stage = fragment;
            ir = zeroes;
          })
          ((
            ids.vertex_shader,
            record {
              id = ids.vertex_shader;
              device = ids.device.device;
              stage = vertex;
              ir = zeroes;
            },
          )
            ∷ []);
    pipelines =
        (
          ids.pipeline,
          record {
            id = ids.pipeline;
            device = ids.device.device;
            class = graphics;
            shader = ids.vertex_shader;
          },
        )
        ∷ [];
    timelines = (ids.timeline, 0) ∷ [];
    presentation = K.new_display 16777216;
    audit = K.log K.empty_log ids.gpu "create_device" true;
    cursors = [];
  }

  prepare_ends :
      K.has_capability caps gpu_memory_alloc ≡ true
      → prepare ids ids.gpu caps (new_runtime K software (new_driver ids.gpu 67108864) 16777216) ≡ (
        ok (
          dev ids,
          record { id = ids.timeline; device = ids.device.device; current_value = 0 },
          stream ids,
        ),
        prepared,
      )
  unfolding prepare new_runtime new_driver with_devices new_device probe initialize set_state
      allocate_vram debit new_allocation new_graphics_device get insert modify
  prepare_ends h = ground arith

  -- The end: one frame more is submitted, and the display is what its driver left.
  abbrev pub finished : K.Display → GraphicsRuntime K software
  finished display = record prepared {
    timelines = (ids.timeline, 1) ∷ [];
    presentation = display;
    audit = K.log prepared.audit ids.device.device "submit" true;
  }

  ready :
      (on : QueueHandle)
      → on.class ≡ graphics
      → K.has_capability caps gpu_command_submit ≡ true
      → IsReady on (stream ids) ids.timeline 1 ids.gpu prepared
  unfolding get new_graphics_device validate_stream
  ready on q granted = record {
    caps = caps;
    dev = dev ids;
    current = 0;
    matches = ground arith;
    held = ground arith;
    granted = granted;
    known = ground arith;
    placed = refl;
    live = ground arith;
    later = omega arith;
    sound = ground arith;
  }

  submitted :
      (on : QueueHandle)
      → on.class ≡ graphics
      → K.has_capability caps gpu_command_submit ≡ true
      → submit on (stream ids) ids.timeline 1 prepared ≡ (ok tt, finished (K.new_display 16777216))
  unfolding contain driver_submit get new_device log insert
  submitted on q granted =
      ground
        (arith, submit_ready on (stream ids) ids.timeline 1 ids.gpu prepared (ready on q granted))

  show_ends :
      (on : QueueHandle) (connector : K.Connector) (connector_id : ObjectId) (f : K.Framebuffer)
      (d1 d2 d3 : K.Display)
      → on.class ≡ graphics
      → K.has_capability caps gpu_command_submit ≡ true
      → K.register_connector connector (K.new_display 16777216) ≡ (ok tt, d1)
      → K.allocate_framebuffer 1920 1080 d1 ≡ (ok f, d2)
      → K.page_flip connector_id (K.framebuffer_id f) d2 ≡ (ok tt, d3)
      → show on (stream ids) ids.timeline connector connector_id prepared
        ≡ (ok (K.framebuffer_id f), finished d3)
  unfolding show get
  show_ends on connector connector_id f d1 d2 d3 q granted registered allocated flipped =
      ground (arith, submitted on q granted)

  main_ends :
      (connector : K.Connector) (connector_id : ObjectId) (f : K.Framebuffer) (display : K.Display)
      → K.has_capability caps gpu_memory_alloc ≡ true
      → show (drawing ids) (stream ids) ids.timeline connector connector_id prepared
        ≡ (ok (K.framebuffer_id f), finished display)
      → main ids caps connector connector_id ≡ some (ok (K.framebuffer_id f), finished display)
  unfolding main insert
  main_ends connector connector_id f display alloc shown =
      ground (arith, prepare_ends alloc, queue-dev ids)

  -- If the two capabilities are granted, and the display driver registers the connector, allocates the
  -- framebuffer and flips the page, then the program of the example ends without an error or a panic
  -- and returns the framebuffer, whatever identifiers it draws: its timeline is at 1, its driver holds
  -- the 36 bytes of the vertex buffer and nothing else, and the audit log has its two entries.
  pub main_shows :
      (connector : K.Connector) (connector_id : ObjectId) (f : K.Framebuffer) (d1 d2 d3 : K.Display)
      → K.has_capability caps gpu_memory_alloc ≡ true
      → K.has_capability caps gpu_command_submit ≡ true
      → K.register_connector connector (K.new_display 16777216) ≡ (ok tt, d1)
      → K.allocate_framebuffer 1920 1080 d1 ≡ (ok f, d2)
      → K.page_flip connector_id (K.framebuffer_id f) d2 ≡ (ok tt, d3)
      → (rt : GraphicsRuntime K software) × (main ids caps connector connector_id
          ≡ some (ok (K.framebuffer_id f), rt))
        × (timeline_value ids.timeline rt ≡ ok 1)
        × (vram_available ids.gpu rt.driver ≡ ok (67108864 - 36))
        × (rt.presentation ≡ d3)
        × (rt.audit
            ≡ K.log
                (K.log K.empty_log ids.gpu "create_device" true)
                ids.device.device
                "submit"
                true)
  unfolding timeline_value vram_available get new_device
  main_shows connector connector_id f d1 d2 d3 alloc submits registered allocated flipped = (
    finished d3,
    main_ends connector connector_id f d3 alloc (
        show_ends (drawing ids) connector connector_id f d1 d2 d3 refl submits registered allocated
          flipped),
    ground arith,
    ground arith,
    refl,
    refl,
  )
