-- ===== src/Testers.antt =====
-- testers/: the programs that run on the system, and testers/h/libuser.h, which they share.
pub mod Libuser
pub mod Programs
pub mod Calc
pub mod Shell
pub mod Prints
