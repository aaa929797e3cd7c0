-- ===== src/Tests.antt =====
-- Concrete runs of the drivers and of the runtime.
mod Platform
mod Driver
mod Runtime
mod Calls
mod Histories
mod Vulkan
mod Render
mod Thread
mod Ledger
mod Machine
mod Instances
mod Clear
mod Triangle
mod Units
