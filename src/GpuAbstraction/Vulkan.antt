-- ===== src/GpuAbstraction/Vulkan.antt =====
-- `VulkanDriver` in crates/gpu_abstraction/src/vulkan.rs: the driver's side of a render thread that
-- owns a backend.
pub mod State
pub mod Open
pub mod Operations
pub mod Loss
pub mod Layout
pub mod Start
pub mod Thread
pub mod Real
