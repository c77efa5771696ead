-- ===== src/Proc.antt =====
-- kernel/proc.c: the process table, the scheduler and the system calls on processes.
pub mod State
pub mod Lists
pub mod Schedule
pub mod Calls
pub mod Wait
pub mod Activable
pub mod Sleepers
pub mod Sleep
pub mod Elect
pub mod Ordonnance
pub mod Bury
pub mod End
pub mod Args
pub mod Start
pub mod Children
pub mod Priority
pub mod Collect
pub mod Delete
pub mod Kill
pub mod System
pub mod Tests
