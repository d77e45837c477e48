-- ===== src/Kalloc.antt =====
-- HW3/kalloc.c: the free list of pages, kept in the free pages themselves. The lock is held in each
-- operation.
use operating_systems.Base.{
  ℕ, zero, suc, ◌-◌, ◌/◌, add32, ◌+◌, ◌*◌, ◌%◌, ◌||◌, not, Bool, Option, none, some, sub32, ltb,
  leb, ◌==◌, if◌then◌else◌,
}
use operating_systems.Str.{Bytes, memset, store_word}
use operating_systems.Proc.Create.{page_size}
pub mod Chain
mod Tests

-- KERNBASE and PHYSTOP
abbrev pub kernbase : ℕ
kernbase = 0x80000000

abbrev pub phystop : ℕ
phystop = 0xE000000

-- `kmem` but for its lock, and the memory.
pub record Kmem : Type 0 where
  pub freelist : ℕ
  pub mem : Bytes

-- A word of the memory, low byte first.
unfoldable pub load_word : ℕ → Bytes → ℕ
load_word a m = m a + m (a + 1) * 256 + m (a + 2) * 65536 + m (a + 3) * 16777216

-- `kfree` with the kernel's end at `kernel_end`; none is its panic.
unfoldable pub kfree : ℕ → ℕ → Kmem → Option Kmem
kfree kernel_end v k =
    if not (v % page_size == 0) || ltb v kernel_end || leb phystop (sub32 v kernbase)
    then none
    else some (record { freelist = v; mem = store_word v k.freelist (memset v 1 page_size k.mem) })

unfoldable pub kalloc : Kmem → Option ℕ × Kmem
kalloc k =
    if k.freelist == 0
    then (none, k)
    else (some k.freelist, record k { freelist = load_word k.freelist k.mem })

-- The loop of `freerange` from the page `p` on; none is the panic of `kfree` or the end of the fuel.
unfoldable pub free_pages : ℕ → ℕ → ℕ → ℕ → Kmem → Option Kmem
free_pages zero kernel_end p vend k = none
free_pages (suc fuel) kernel_end p vend k =
    if leb (add32 p page_size) vend
    then (elim (kfree kernel_end p k) [
      | none ↦ none
      | some k' ↦ free_pages fuel kernel_end (add32 p page_size) vend k'
    ])
    else some k

-- `freerange`: from `vstart`, rounded up to a page, to `vend`.
unfoldable pub freerange : ℕ → ℕ → ℕ → ℕ → Kmem → Option Kmem
freerange fuel kernel_end vstart vend k =
    free_pages fuel kernel_end (add32 vstart (page_size - 1) / page_size * page_size) vend k
