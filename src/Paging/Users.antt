-- ===== src/Paging/Users.antt =====
-- HW3/vm.c: the routines that make, fill, copy and free the pages of a process. Each none is a panic,
-- or the end of the fuel, which is a round for each page of the address space.
use operating_systems.Base.{
  ℕ, zero, suc, ◌+◌, ◌-◌, ◌*◌, ◌/◌, ◌%◌, ◌^◌, false, not, List, [], ◌∷◌, Option, none, some, ◌>>=◌,
  add32, sub32, ltb, leb, ◌==◌, if◌then◌else◌,
}
use operating_systems.Base.Int.{ℤ, pos, negsuc}
use operating_systems.Str.{memset, memmove, store_word}
use operating_systems.Kalloc.{Kmem, load_word, kalloc, kfree, kernbase, phystop}
use operating_systems.Proc.Create.{page_size}
use operating_systems.Paging.Walk.{page_of, p2v, v2p, is_present, walkpgdir, mappages}

-- PGROUNDUP
abbrev pub page_up : ℕ → ℕ
page_up a = add32 a (page_size - 1) / page_size * page_size

abbrev pub extmem : ℕ
extmem = 0x100000

abbrev pub devspace : ℕ
devspace = 0xFE000000

-- PTE_W, and PTE_W|PTE_U
abbrev pub pte_w : ℕ
pte_w = 2

abbrev pub pte_wu : ℕ
pte_wu = 6

-- `struct kmap`
pub record Kmap : Type 0 where
  pub virt : ℕ
  pub phys_start : ℕ
  pub phys_end : ℕ
  pub perm : ℕ

-- `kmap`, with `kernel_data` for the address of the kernel's data.
abbrev pub kmap : ℕ → List Kmap
kmap kernel_data =
    record { virt = kernbase; phys_start = 0; phys_end = extmem; perm = pte_w }
    ∷ record {
      virt = kernbase + extmem;
      phys_start = v2p (kernbase + extmem);
      phys_end = v2p kernel_data;
      perm = 0;
    }
    ∷ record { virt = kernel_data; phys_start = v2p kernel_data; phys_end = phystop; perm = pte_w }
    ∷ record { virt = devspace; phys_start = devspace; phys_end = 0; perm = pte_w }
    ∷ []

-- The loop of `setupkvm`.
unfoldable pub map_kernel : ℕ → List Kmap → Kmem → Option (ℕ × Kmem)
map_kernel pgdir [] k = some (pgdir, k)
map_kernel pgdir (e ∷ es) k =
    mappages pgdir e.virt (sub32 e.phys_end e.phys_start) e.phys_start e.perm k >>= λ (r, k').
    elim r [ pos n ↦ map_kernel pgdir es k' | negsuc n ↦ some (0, k') ]

-- `setupkvm` once the directory is allocated; the null pointer is 0.
abbrev pub setup_in : ℕ → Option ℕ × Kmem → Option (ℕ × Kmem)
setup_in kernel_data (none, k) = some (0, k)
setup_in kernel_data (some pgdir, k) =
    if ltb devspace (p2v phystop)
    then none
    else map_kernel pgdir (kmap kernel_data) (record k { mem = memset pgdir 0 page_size k.mem })

unfoldable pub setupkvm : ℕ → Kmem → Option (ℕ × Kmem)
setupkvm kernel_data k = setup_in kernel_data (kalloc k)

abbrev pub or_null : Option ℕ → ℕ
or_null none = 0
or_null (some a) = a

-- `inituvm` behind its `kalloc`, whose result is not tested.
abbrev pub init_page : ℕ → ℕ → ℕ → Option ℕ × Kmem → Option Kmem
init_page pgdir init sz (o, k) =
    mappages pgdir 0 page_size (v2p (or_null o)) pte_wu
      (record k { mem = memset (or_null o) 0 page_size k.mem })
    >>= λ (r, k'). some (record k' { mem = memmove (or_null o) init sz k'.mem })

unfoldable pub inituvm : ℕ → ℕ → ℕ → Kmem → Option Kmem
inituvm pgdir init sz k = if leb page_size sz then none else init_page pgdir init sz (kalloc k)

-- The loop of `loaduvm` from `i` on. `read dst off n` is the `readi` of the program's inode.
unfoldable pub load_pages :
    ℕ → ℕ → ℕ → (ℕ → ℕ → ℕ → Kmem → Option (ℤ × Kmem)) → ℕ → ℕ → ℕ → Kmem → Option (ℤ × Kmem)
load_pages zero pgdir addr read offset sz i k = none
load_pages (suc fuel) pgdir addr read offset sz i k =
    if ltb i sz
    then (let (o, k') = walkpgdir pgdir (add32 addr i) false k in
        o >>= λ pte.
        let n = if ltb (sz - i) page_size then sz - i else page_size in
        read (p2v (page_of (load_word pte k'.mem))) (add32 offset i) n k' >>= λ (r, k''). elim r [
          | pos m ↦
              if m == n
              then load_pages fuel pgdir addr read offset sz (add32 i page_size) k''
              else some (negsuc 0, k'')
          | negsuc m ↦ some (negsuc 0, k'')
        ])
    else some (pos 0, k)

unfoldable pub loaduvm :
    ℕ → ℕ → (ℕ → ℕ → ℕ → Kmem → Option (ℤ × Kmem)) → ℕ → ℕ → Kmem → Option (ℤ × Kmem)
loaduvm pgdir addr read offset sz k =
    if not (addr % page_size == 0) then none else load_pages (2 ^ 20) pgdir addr read offset sz 0 k

-- What `deallocuvm` does to the entry at `pte`.
abbrev pub free_entry : ℕ → ℕ → Kmem → Option Kmem
free_entry kernel_end pte k =
    if not (is_present (load_word pte k.mem))
    then some k
    else if page_of (load_word pte k.mem) == 0
    then none
    else (kfree kernel_end (p2v (page_of (load_word pte k.mem))) k >>= λ k'.
        some (record k' { mem = store_word pte 0 k'.mem }))

-- The loop of `deallocuvm`; a directory entry that is not there passes over the pages of its table.
unfoldable pub dealloc_pages : ℕ → ℕ → ℕ → ℕ → ℕ → Kmem → Option Kmem
dealloc_pages kernel_end zero pgdir a oldsz k = none
dealloc_pages kernel_end (suc fuel) pgdir a oldsz k =
    if ltb a oldsz
    then (let (o, k') = walkpgdir pgdir a false k in
        elim o [
          | none ↦
              dealloc_pages kernel_end fuel pgdir (add32 (add32 a (1023 * page_size)) page_size)
                oldsz k'
          | some pte ↦ free_entry kernel_end pte k' >>= λ k''.
              dealloc_pages kernel_end fuel pgdir (add32 a page_size) oldsz k''
        ])
    else some k

unfoldable pub deallocuvm : ℕ → ℕ → ℕ → ℕ → Kmem → Option (ℕ × Kmem)
deallocuvm kernel_end pgdir oldsz newsz k =
    if leb oldsz newsz
    then some (oldsz, k)
    else (dealloc_pages kernel_end (2 ^ 20) pgdir (page_up newsz) oldsz k >>= λ k'.
        some (newsz, k'))
