-- ===== src/Nucleus.antt =====
-- phase2/: the Nucleus. `Globals` holds its state, and each other child one of its files or a part
-- of exceptions.c.
pub mod Globals
pub mod Conservation
pub mod Clock
pub mod Blocking
pub mod Start
pub mod Running
pub mod Places
pub mod Soft
pub mod Completion
pub mod Devices
pub mod Semaphores
pub mod Termination
pub mod Scheduler
pub mod Process
pub mod PassUp
pub mod Syscalls
pub mod Exceptions
pub mod Interrupts
pub mod Initial
pub mod Debug
