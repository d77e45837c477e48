-- ===== src/Paging/Walk.antt =====
-- HW3/vm.c: `walkpgdir` and `mappages` over the memory itself; addresses within a page do not wrap.
use operating_systems.Base.{
  ℕ, zero, suc, ◌+◌, ◌*◌, ◌/◌, ◌%◌, ◌^◌, Bool, true, not, Option, none, some, add32, sub32, ◌==◌,
  if◌then◌else◌,
}
use operating_systems.Base.Int.{ℤ, pos, negsuc}
use operating_systems.Str.{memset, store_word}
use operating_systems.Blocks.Bits.{has_bit, set_bit, or_bits}
use operating_systems.Kalloc.{Kmem, load_word, kalloc, kernbase}
use operating_systems.Proc.Create.{page_size}

-- PDX
abbrev pub pdx : ℕ → ℕ
pdx va = va / 2 ^ 22 % 1024

-- PTX
abbrev pub ptx : ℕ → ℕ
ptx va = va / 4096 % 1024

-- PGROUNDDOWN, and PTE_ADDR of an entry
abbrev pub page_of : ℕ → ℕ
page_of a = a / page_size * page_size

abbrev pub v2p : ℕ → ℕ
v2p a = sub32 a kernbase

abbrev pub p2v : ℕ → ℕ
p2v a = add32 a kernbase

-- PTE_P, PTE_W and PTE_U are the bits 0, 1 and 2 of an entry.
abbrev pub is_present : ℕ → Bool
is_present entry = has_bit 0 entry

-- `&pgdir[PDX(va)]` and `&pgtab[PTX(va)]`
abbrev pub pde_slot : ℕ → ℕ → ℕ
pde_slot pgdir va = pgdir + 4 * pdx va

abbrev pub pte_slot : ℕ → ℕ → ℕ
pte_slot pgtab va = pgtab + 4 * ptx va

-- The entry of the directory for a new table, which is cleared.
abbrev pub new_table : ℕ → ℕ → Option ℕ × Kmem → Option ℕ × Kmem
new_table pgdir va (none, k) = (none, k)
new_table pgdir va (some pgtab, k) = (
  some (pte_slot pgtab va),
  record k {
    mem =
        store_word (pde_slot pgdir va) (set_bit 0 (set_bit 1 (set_bit 2 (v2p pgtab))))
          (memset pgtab 0 page_size k.mem);
  },
)

-- The address of the entry, or none for the null pointer.
unfoldable pub walkpgdir : ℕ → ℕ → Bool → Kmem → Option ℕ × Kmem
walkpgdir pgdir va alloc k =
    if is_present (load_word (pde_slot pgdir va) k.mem)
    then (some (pte_slot (p2v (page_of (load_word (pde_slot pgdir va) k.mem))) va), k)
    else if not alloc
    then (none, k)
    else new_table pgdir va (kalloc k)

-- `pa | perm | PTE_P`; the permissions are 12 bits at most.
abbrev pub entry_of : ℕ → ℕ → ℕ
entry_of pa perm = set_bit 0 (or_bits 12 pa perm)

-- A round of the loop of `mappages` behind its call of `walkpgdir`.
abbrev pub map_round :
    ℕ → ℕ → Bool → (Kmem → Option (ℤ × Kmem)) → Option ℕ × Kmem → Option (ℤ × Kmem)
map_round pa perm at_last next (none, k) = some (negsuc 0, k)
map_round pa perm at_last next (some pte, k) =
    if is_present (load_word pte k.mem)
    then none
    else if at_last
    then some (pos 0, record k { mem = store_word pte (entry_of pa perm) k.mem })
    else next (record k { mem = store_word pte (entry_of pa perm) k.mem })

-- The loop of `mappages`; none is its panic, or the end of the fuel.
unfoldable pub map_pages : ℕ → ℕ → ℕ → ℕ → ℕ → ℕ → Kmem → Option (ℤ × Kmem)
map_pages zero pgdir a last pa perm k = none
map_pages (suc fuel) pgdir a last pa perm k =
    map_round pa perm (a == last)
      (λ k'. map_pages fuel pgdir (add32 a page_size) last (add32 pa page_size) perm k')
      (walkpgdir pgdir a true k)

-- A loop over all pages of the address space is one of 2^20 rounds.
unfoldable pub mappages : ℕ → ℕ → ℕ → ℕ → ℕ → Kmem → Option (ℤ × Kmem)
mappages pgdir va size pa perm k =
    map_pages (2 ^ 20) pgdir (page_of va) (page_of (sub32 (add32 va size) 1)) pa perm k
