-- ===== src/Phase1.antt =====
-- phase1/: process control blocks, process queues, the process tree and the active semaphore list.
pub mod Pcb
pub mod ProcQ
pub mod Asl
