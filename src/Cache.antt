-- ===== src/Cache.antt =====
-- HW3/bio.c: which buffer holds which block, and the order of their use.
pub mod Buffers
pub mod Unique
pub mod Search
pub mod Calls
mod Tests
