-- ===== src/Proc.antt =====
-- HW3/proc.c: the process table and the scheduler.
pub mod Types
mod Tests
pub mod Create
pub mod Signal
pub mod Finish
pub mod Sched
pub mod Fairness
pub mod Wakeups
pub mod Alloc
pub mod Kills
pub mod Invariant
pub mod Preserve
pub mod PreserveFork
pub mod Forks
pub mod Orphans
pub mod PreserveExit
pub mod Exits
pub mod Waiting
pub mod Steps
pub mod Safety
