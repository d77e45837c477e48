-- ===== src/File.antt =====
-- HW3/file.c: the table of open files and its reference counts.
pub mod Table
pub mod Holders
pub mod Pipes
mod Tests
