-- ===== src/Fd.antt =====
-- HW3/sysfile.c: file descriptors.
pub mod Calls
pub mod Counts
mod Tests
