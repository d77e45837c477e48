-- ===== src/Blocks.antt =====
-- HW3/fs.c: the blocks of the disk and the map of those that are free.
pub mod Bits
pub mod Map
pub mod FreeMap
pub mod Effects
pub mod Sample
mod Tests
