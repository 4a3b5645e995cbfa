-- ===== src/Examples.antt =====
-- The theorems at concrete inputs.
pub mod Data
pub mod Queues
pub mod Kernels
pub mod Places
pub mod Support
pub mod Testers
