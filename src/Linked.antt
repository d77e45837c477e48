-- ===== src/Linked.antt =====
-- HW2/linkedList.c: linked lists of integers on a heap.
pub mod Heap
pub mod Walk
pub mod Merge
pub mod Order
mod Tests
