-- ===== src/Console.antt =====
-- HW3/console.c: the input line that the keyboard edits and readers take.
pub mod Input
pub mod Editing
pub mod Reading
mod Tests
