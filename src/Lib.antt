-- ===== src/Lib.antt =====
-- The SHER graphics workspace: a graphics runtime over a pluggable GPU driver.
--
-- The parts. Applications call `GraphicsRuntime` (crates/graphics_runtime/src/lib.rs), which keeps
-- tables of devices, capability sets, resources, shaders, pipelines, timelines and cursors, checks
-- capabilities and command streams, and hands the translated streams to a driver behind the trait
-- `GpuDriver` (crates/gpu_abstraction/src/lib.rs). `SoftwareGpuDriver` implements that trait, and so do
-- `VulkanDriver`, which sends commands to a render thread that owns a backend, and `FallbackDriver`,
-- which is one of the two (crates/gpu_abstraction/src/vulkan.rs). The offscreen render of
-- crates/vulkan_backend/src/lib.rs is what the real backend executes.
-- `DrmCompatShim` (crates/graphics_compat/src/lib.rs) answers DRM-like requests with the runtime.
-- crates/graphics_api/src/lib.rs holds the types they share.
--
-- The files.
--   Base, Map, Result      tests, machine words, hash maps, and methods that take `&mut self`: a
--                          method is a function of the state into a result and the state it leaves,
--                          so what was written before an error stays written. Map/Same says when two
--                          maps answer alike, Result/Related when two methods do
--   Kernel                 what the workspace takes from the SHER-KERNEL crates, as the parameter
--                          `Platform`
--   GraphicsApi            crates/graphics_api/src/lib.rs
--   GpuAbstraction         crates/gpu_abstraction/src/lib.rs: the trait; Software is the software
--                          driver, with its accounts (Vram, History, Release), its faults (Faults),
--                          its isolation of devices (Isolation) and the order of its maps (Order),
--                          and Ledger what it promises; FaultChannel is the contract on faults that
--                          every driver here keeps
--   GpuAbstraction/Vulkan  crates/gpu_abstraction/src/vulkan.rs: State and Open (`with_backend`),
--                          Operations (both traits), Layout (addresses), Loss (device loss), Start;
--                          Thread is the render thread and the channels turn by turn, and the loop
--                          of `run_worker`, with the drop of the driver (Dropping); Real is
--                          `RealVulkanBackend` and the constructors over it, with the instances that
--                          it keeps alive
--   GpuAbstraction/Fallback  `FallbackDriver`
--   GraphicsRuntime        crates/graphics_runtime/src/lib.rs: State, Stream (`validate_stream`,
--                          `translate_ops`), Objects (`create_*`, `free_resource`), Submit
--                          (`submit`, `submit_to_driver`, `wait`), Recover (`driver_mut`,
--                          `recover_device`), Presentation (frames and cursors), History, which runs
--                          sequences of these calls, with the audit log (Audit) and the failed calls
--                          (Failures), Isolation, what calls for one device leave of another, Order,
--                          two runs over maps in different orders, Backing, the runtime over the
--                          software driver, with what a recovery leaves (Leak), Api (the trait
--                          `GraphicsApi`), Embed, the runtime over a driver inside another one, and
--                          Backends (`with_vulkan`, `with_vulkan_or_software`)
--   GraphicsRuntime/Triangle  crates/graphics_runtime/examples/triangle.rs, a program over all layers
--   GraphicsCompat         crates/graphics_compat/src/lib.rs; Gem is the table of handles that a
--                          client of it sees, Session the requests one after another
--   VulkanBackend          crates/vulkan_backend/src/lib.rs: the errors and `find_memory_type`
--                          (Choice); Context is `probe`, `enumerate_adapters` and the end of a
--                          context on the parameter `Host`, a machine with its loader; Render is the
--                          offscreen render as the events that it causes under given answers of a Vulkan implementation,
--                          Cleanup what it leaves, and Recording the commands that it records, on
--                          the parameter `Queue` with what Vulkan promises of each
--   UnitTests              the `mod tests` of the crates: Types (graphics_api), Software and Vulkan
--                          (gpu_abstraction), Compat, Runtime with its children, and Passing, which
--                          puts them together. Each test keeps its name
--   Tests                  concrete runs
--
-- How code becomes definitions. A Rust method keeps its name. `ObjectId::new()` is an argument of
-- the operation that calls it, and where a property needs it, the identifier is fresh. `usize` is a
-- natural number, and arithmetic on it wraps at 2 ^ 64 as in the release profile. A hash map is an
-- association list, whose order, that of insertion, is one in which it may be iterated; the Order
-- modules compare runs over other orders. A driver panic is a value, `panicked`, that `submit`
-- of a driver may return; the runtime catches panics nowhere else. The render thread of the Vulkan
-- driver is alive, with its backend, or ending, with the number of commands that the channel still
-- takes before it is closed; the backend's answers are those of the parameter `VulkanBackend`. Under
-- that view lies the one of Thread, where the driver and the thread take turns in any order: the
-- thread has its turn when its backend's call ends, so a call that hangs is a thread that gets none,
-- and a thread whose backend panics drops the reply first and the channel later. Loops are recursion on the
-- list or the count they go through, so no fuel is needed.
--
-- Not modelled: the tracing calls and the prints, which have no effect on the state; the handles,
-- sizes and fixed fields that the calls of the ash binding pass on; the machine that a failed
-- `VulkanDriver::new` leaves; the unit tests that need Vulkan on the host; the developer tools.
pub mod Base
pub mod Map
pub mod Result
pub mod Kernel
pub mod GraphicsApi
pub mod GpuAbstraction
pub mod GraphicsRuntime
pub mod GraphicsCompat
pub mod VulkanBackend
pub mod UnitTests
pub mod Tests
