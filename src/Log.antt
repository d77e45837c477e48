-- ===== src/Log.antt =====
-- HW3/log.c: the write-ahead log of the file system.
pub mod Store
pub mod Ops
pub mod Header
pub mod Writes
pub mod Installs
pub mod Phases
pub mod Crash
pub mod Atomic
pub mod Pinning
pub mod Space
mod Tests
