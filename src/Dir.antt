-- ===== src/Dir.antt =====
-- HW3/fs.c: directories.
pub mod Entries
pub mod Lookup
pub mod Found
pub mod Link
pub mod Linked
mod Tests
