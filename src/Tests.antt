-- ===== src/Tests.antt =====
-- The theorems at concrete values.
pub mod Toy
pub mod Wire
pub mod Draws
pub mod Benchmarks
pub mod Protocols
pub mod Files
pub mod Sharing
pub mod Calls
pub mod Waits
pub mod Pushes
pub mod Figures
