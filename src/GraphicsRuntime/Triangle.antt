-- ===== src/GraphicsRuntime/Triangle.antt =====
-- crates/graphics_runtime/examples/triangle.rs: a client of the runtime that goes through every
-- layer, from the software driver to the display.
pub mod Frame
use sher_graphics.Base.{ℕ, true, Option, none, some, List, [], ◌∷◌}
use sher_graphics.Result.{Result, ok, err, Action, pure, reads, ◌>>=◌, ◌>>◌}
use sher_graphics.Kernel.{ObjectId, Platform}
use sher_graphics.GraphicsApi.{
  graphics, buffer, BufferUsage, default_buffer_usage, host_visible, vertex, fragment,
  bind_pipeline, bind_resource, draw, CommandStream, push, QueueHandle, GraphicsDevice, Timeline,
  queue,
}
use sher_graphics.GpuAbstraction.Software.{
  software, SoftwareGpuDriver, new as new_driver, device_id,
}
use sher_graphics.GraphicsRuntime.State.{GraphicsRuntime, new as new_runtime}
use sher_graphics.GraphicsRuntime.Objects.{
  DeviceIds, create_device, create_timeline, create_resource, create_command_stream,
  create_shader_module, create_pipeline,
}
use sher_graphics.GraphicsRuntime.Submit.{submit, wait, timeline_value}
use sher_graphics.GraphicsRuntime.Presentation.{register_connector, present_frame}

-- The identifiers that the program draws, the GPU's first.
pub record TriangleIds : Type 0 where
  pub gpu : ObjectId
  pub device : DeviceIds
  pub timeline : ObjectId
  pub vertex_shader : ObjectId
  pub fragment_shader : ObjectId
  pub pipeline : ObjectId
  pub vertex_buffer : ObjectId
  pub stream : ObjectId

-- `vec![0u8; 16]`
abbrev pub zeroes : List ℕ
zeroes = 0 ∷ 0 ∷ 0 ∷ 0 ∷ 0 ∷ 0 ∷ 0 ∷ 0 ∷ 0 ∷ 0 ∷ 0 ∷ 0 ∷ 0 ∷ 0 ∷ 0 ∷ 0 ∷ []

abbrev pub vertex_usage : BufferUsage
vertex_usage = record default_buffer_usage { vertex = true }

module _ {K : Platform} where
  -- Steps 2 to 7: the device, its objects, and the recorded stream.
  unfoldable pub prepare :
      TriangleIds
      → ObjectId
      → K.CapabilitySet
      → Action (GraphicsRuntime K software) (GraphicsDevice × Timeline × CommandStream)
  unfolding create_device create_timeline create_shader_module create_pipeline create_resource
      create_command_stream push
  prepare ids gpu caps = do
    device ← create_device ids.device gpu caps
    timeline ← create_timeline ids.timeline device.id
    vertex_shader ← create_shader_module ids.vertex_shader device.id vertex zeroes
    create_shader_module ids.fragment_shader device.id fragment zeroes
    pipeline ← create_pipeline ids.pipeline device.id vertex_shader.id graphics
    vertex_buffer ←
        create_resource ids.vertex_buffer device.id (buffer 36 vertex_usage) host_visible
    stream ← create_command_stream ids.stream device.id graphics
    pure (
      device,
      timeline,
      push (push (push stream (bind_pipeline pipeline.id)) (bind_resource 0 vertex_buffer.id))
          (draw 3 1),
    )

  -- Steps 8 to 10: the submission, the wait, and the frame.
  unfoldable pub show :
      QueueHandle
      → CommandStream
      → ObjectId
      → K.Connector
      → ObjectId
      → Action (GraphicsRuntime K software) ObjectId
  unfolding submit wait timeline_value register_connector present_frame
  show on stream timeline connector connector_id = do
    submit on stream timeline 1
    reads (wait timeline 1)
    reads (timeline_value timeline)
    register_connector connector
    present_frame connector_id 1920 1080

  -- `main`, but for what it prints: what it returns, with the framebuffer's identifier, and the
  -- runtime at the end. `None` is a panic of one of its two `expect`s.
  unfoldable pub main :
      TriangleIds
      → K.CapabilitySet
      → K.Connector
      → ObjectId
      → Option (Result ObjectId × GraphicsRuntime K software)
  unfolding new_driver new_runtime device_id prepare show queue
  main ids caps connector connector_id =
      let driver = new_driver ids.gpu 67108864 in
      elim (device_id driver) [
        | none ↦ none
        | some gpu ↦
            let (r, rt) = prepare ids gpu caps (new_runtime K software driver 16777216) in
            elim r [
              | err e ↦ some (err e, rt)
              | ok (device, timeline, stream) ↦ elim (queue device graphics) [
                | none ↦ none
                | some on ↦ some (show on stream timeline.id connector connector_id rt)
              ]
            ]
      ]
