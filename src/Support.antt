-- ===== src/Support.antt =====
-- phase3/: the Support Level.
pub mod Vm
pub mod Init
pub mod Sys
