-- ===== src/Paging.antt =====
-- HW3/vm.c: page tables and the memory of processes.
pub mod Walk
pub mod Users
pub mod Copies
pub mod Space
pub mod Walked
pub mod Maps
pub mod Entries
pub mod Ranges
pub mod Mapping
pub mod Translate
mod Tests
