-- ===== src/Inode.antt =====
-- HW3/fs.c: the cache of inodes.
pub mod Cache
pub mod Unique
pub mod Bmap
pub mod Owned
pub mod Kept
pub mod Mapping
pub mod Mapped
pub mod Change
pub mod Content
pub mod Reads
pub mod Writes
pub mod Files
pub mod ReadBack
pub mod Trunc
pub mod Sample
mod Tests
mod FileTests
