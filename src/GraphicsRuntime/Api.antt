-- ===== src/GraphicsRuntime/Api.antt =====
-- The trait `GraphicsApi` of crates/graphics_api/src/lib.rs, and its implementation for
-- `GraphicsRuntime`. Each identifier that a method draws is an argument of it.
use sher_graphics.Base.{ℕ, List}
use sher_graphics.Result.{Result, Action}
use sher_graphics.Kernel.{ObjectId, Platform}
use sher_graphics.GraphicsApi.{
  WorkloadClass, MemoryClass, ResourceKind, Resource, ShaderStage, ShaderModule, Pipeline,
  CommandStream, QueueHandle, GraphicsDevice, Timeline,
}
use sher_graphics.GpuAbstraction.{GpuDriver}
use sher_graphics.GraphicsRuntime.State.{GraphicsRuntime}
use sher_graphics.GraphicsRuntime.Objects.{
  DeviceIds, create_device, create_timeline, create_resource, create_command_stream,
  create_shader_module, create_pipeline,
}
use sher_graphics.GraphicsRuntime.Submit.{submit, timeline_value, wait}

pub record GraphicsApi (K : Platform) : Type 1 where
  pub Api : Type 0
  pub create_device : DeviceIds → ObjectId → K.CapabilitySet → Action Api GraphicsDevice
  pub create_timeline : ObjectId → ObjectId → Action Api Timeline
  pub create_resource : ObjectId → ObjectId → ResourceKind → MemoryClass → Action Api Resource
  pub create_command_stream : ObjectId → ObjectId → WorkloadClass → Action Api CommandStream
  pub create_shader_module : ObjectId → ObjectId → ShaderStage → List ℕ → Action Api ShaderModule
  pub create_pipeline : ObjectId → ObjectId → ObjectId → WorkloadClass → Action Api Pipeline
  pub submit : QueueHandle → CommandStream → ObjectId → ℕ → Action Api (Unit {0})
  pub timeline_value : ObjectId → Api → Result ℕ
  pub wait : ObjectId → ℕ → Api → Result (Unit {0})

abbrev pub runtime_api : (K : Platform) → GpuDriver → GraphicsApi K
runtime_api K D = record {
  Api = GraphicsRuntime K D;
  create_device = create_device;
  create_timeline = create_timeline;
  create_resource = create_resource;
  create_command_stream = create_command_stream;
  create_shader_module = create_shader_module;
  create_pipeline = create_pipeline;
  submit = submit;
  timeline_value = timeline_value;
  wait = wait;
}
