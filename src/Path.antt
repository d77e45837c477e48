-- ===== src/Path.antt =====
-- HW3/fs.c: `skipelem`, which takes the next element from a path.
pub mod Elements
pub mod Skip
mod Tests
