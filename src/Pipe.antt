-- ===== src/Pipe.antt =====
-- HW3/pipe.c: a pipe between processes.
pub mod Ring
pub mod Queue
pub mod Refine
pub mod Calls
mod Tests
