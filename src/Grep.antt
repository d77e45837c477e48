-- ===== src/Grep.antt =====
-- HW3/grep.c: the matcher of patterns with ^ . * and $.
pub mod Match
pub mod Meaning
mod Tests
