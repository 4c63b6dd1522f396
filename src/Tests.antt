-- ===== src/Tests.antt =====
-- Concrete stores, maps and kernels, and the theorems at them.
pub mod Data
mod Store
mod Buffers
mod Sweeps
mod Maps
mod Series
pub mod Tries
pub mod Passes
pub mod Rounds
mod Upkeeps
mod Clouds
mod Logs
mod Boots
