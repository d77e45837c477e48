-- ===== src/Shell.antt =====
-- HW3/sh.c: the shell's parser.
pub mod Tokens
pub mod Parser
pub mod Words
pub mod Loops
pub mod Total
pub mod Print
pub mod Args
pub mod Brackets
pub mod Commands
pub mod RoundTrip
mod Tests
