-- ===== src/GraphicsRuntime.antt =====
-- crates/graphics_runtime/src/lib.rs: `GraphicsRuntime`, over any platform and any driver.
pub mod State
pub mod Stream
pub mod Objects
pub mod Submit
pub mod Recover
pub mod Presentation
pub mod History
pub mod Api
pub mod Backing
pub mod Triangle
pub mod Embed
pub mod Isolation
pub mod Order
pub mod Backends
