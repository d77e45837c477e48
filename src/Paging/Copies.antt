-- ===== src/Paging/Copies.antt =====
-- HW3/vm.c: `allocuvm`, `freevm`, `clearpteu`, `copyuvm`, `uva2ka` and `copyout`. Each none is a
-- panic, or the end of the fuel.
use operating_systems.Base.{
  ℕ, zero, suc, ◌+◌, ◌-◌, ◌*◌, ◌%◌, ◌^◌, false, not, Option, none, some, ◌>>=◌, add32, ltb, leb,
  ◌==◌, if◌then◌else◌,
}
use operating_systems.Base.Int.{ℤ, pos, negsuc}
use operating_systems.Str.{Bytes, memset, memmove, store_word}
use operating_systems.Str.Move.{within}
use operating_systems.Blocks.Bits.{has_bit, clear_bit}
use operating_systems.Kalloc.{Kmem, load_word, kalloc, kfree, kernbase}
use operating_systems.Proc.Create.{page_size}
use operating_systems.Paging.Walk.{page_of, p2v, v2p, is_present, walkpgdir, mappages}
use operating_systems.Paging.Users.{page_up, pte_wu, or_null, setupkvm, deallocuvm}

-- A round of the loop of `allocuvm` behind its `kalloc`. The result of `mappages` is not tested.
abbrev pub alloc_round :
    ℕ → ℕ → ℕ → ℕ → ℕ → (Kmem → Option (ℕ × Kmem)) → Option ℕ × Kmem → Option (ℕ × Kmem)
alloc_round kernel_end pgdir a oldsz newsz next (none, k) =
    deallocuvm kernel_end pgdir newsz oldsz k >>= λ (r, k'). some (0, k')
alloc_round kernel_end pgdir a oldsz newsz next (some m, k) =
    mappages pgdir a page_size (v2p m) pte_wu (record k { mem = memset m 0 page_size k.mem })
    >>= λ (r, k'). next k'

unfoldable pub alloc_pages : ℕ → ℕ → ℕ → ℕ → ℕ → ℕ → Kmem → Option (ℕ × Kmem)
alloc_pages kernel_end zero pgdir a oldsz newsz k = none
alloc_pages kernel_end (suc fuel) pgdir a oldsz newsz k =
    if ltb a newsz
    then alloc_round kernel_end pgdir a oldsz newsz
        (λ k'. alloc_pages kernel_end fuel pgdir (add32 a page_size) oldsz newsz k') (kalloc k)
    else some (newsz, k)

unfoldable pub allocuvm : ℕ → ℕ → ℕ → ℕ → Kmem → Option (ℕ × Kmem)
allocuvm kernel_end pgdir oldsz newsz k =
    if leb kernbase newsz
    then some (0, k)
    else if ltb newsz oldsz
    then some (oldsz, k)
    else alloc_pages kernel_end (2 ^ 20) pgdir (page_up oldsz) oldsz newsz k

-- The loop of `freevm` over the `count` entries of the directory from `i` on.
unfoldable pub free_tables : ℕ → ℕ → ℕ → ℕ → Kmem → Option Kmem
free_tables kernel_end zero pgdir i k = some k
free_tables kernel_end (suc count) pgdir i k =
    if is_present (load_word (pgdir + 4 * i) k.mem)
    then (kfree kernel_end (p2v (page_of (load_word (pgdir + 4 * i) k.mem))) k >>= λ k'.
        free_tables kernel_end count pgdir (i + 1) k')
    else free_tables kernel_end count pgdir (i + 1) k

unfoldable pub freevm : ℕ → ℕ → Kmem → Option Kmem
freevm kernel_end pgdir k =
    if pgdir == 0
    then none
    else (deallocuvm kernel_end pgdir kernbase 0 k >>= λ (r, k').
        free_tables kernel_end 1024 pgdir 0 k' >>= λ k''. kfree kernel_end pgdir k'')

unfoldable pub clearpteu : ℕ → ℕ → Kmem → Option Kmem
clearpteu pgdir uva k =
    let (o, k') = walkpgdir pgdir uva false k in
    o >>= λ pte.
    some (record k' { mem = store_word pte (clear_bit 2 (load_word pte k'.mem)) k'.mem })

-- The label `bad` of `copyuvm`.
abbrev pub copy_fails : ℕ → ℕ → Kmem → Option (ℕ × Kmem)
copy_fails kernel_end d k = freevm kernel_end d k >>= λ k'. some (0, k')

-- A round of the loop of `copyuvm` for the entry `entry`, behind its `kalloc`.
abbrev pub copy_round :
    ℕ → ℕ → ℕ → ℕ → (Kmem → Option (ℕ × Kmem)) → Option ℕ × Kmem → Option (ℕ × Kmem)
copy_round kernel_end d i entry next (none, k) = copy_fails kernel_end d k
copy_round kernel_end d i entry next (some m, k) =
    mappages d i page_size (v2p m) (entry % page_size)
      (record k { mem = memmove m (p2v (page_of entry)) page_size k.mem })
    >>= λ (r, k'). elim r [ pos n ↦ next k' | negsuc n ↦ copy_fails kernel_end d k' ]

unfoldable pub copy_pages : ℕ → ℕ → ℕ → ℕ → ℕ → ℕ → Kmem → Option (ℕ × Kmem)
copy_pages kernel_end zero pgdir d sz i k = none
copy_pages kernel_end (suc fuel) pgdir d sz i k =
    if ltb i sz
    then (let (o, k') = walkpgdir pgdir i false k in
        o >>= λ pte.
        if not (is_present (load_word pte k'.mem))
        then none
        else copy_round kernel_end d i (load_word pte k'.mem)
            (λ k''. copy_pages kernel_end fuel pgdir d sz (add32 i page_size) k'') (kalloc k'))
    else some (d, k)

unfoldable pub copyuvm : ℕ → ℕ → ℕ → ℕ → Kmem → Option (ℕ × Kmem)
copyuvm kernel_end kernel_data pgdir sz k = setupkvm kernel_data k >>= λ (d, k').
    if d == 0 then some (0, k') else copy_pages kernel_end (2 ^ 20) pgdir d sz 0 k'

-- `uva2ka`, which reads the entry also through a null pointer; its own null pointer is 0.
unfoldable pub uva2ka : ℕ → ℕ → Kmem → ℕ
uva2ka pgdir uva k =
    let (o, k') = walkpgdir pgdir uva false k in
    let entry = load_word (or_null o) k'.mem in
    if not (is_present entry) then 0 else if not (has_bit 2 entry) then 0 else p2v (page_of entry)

-- The bytes of the page that a round of `copyout` writes at most.
abbrev pub room : ℕ → ℕ → ℕ
room va len = if ltb len (page_size - (va - page_of va)) then len else page_size - (va - page_of va)

-- The loop of `copyout`. The fuel is the number of bytes, and each round copies one at least. The
-- bytes at `p` are those of the function `buf`: they are in the kernel's memory, which no page of a
-- process overlaps.
unfoldable pub copy_out : ℕ → ℕ → ℕ → Bytes → ℕ → Kmem → ℤ × Kmem
copy_out zero pgdir va buf len k = (pos 0, k)
copy_out (suc fuel) pgdir va buf len k =
    if len == 0
    then (pos 0, k)
    else if uva2ka pgdir (page_of va) k == 0
    then (negsuc 0, k)
    else copy_out fuel pgdir (add32 (page_of va) page_size) (λ i. buf (room va len + i))
        (len - room va len)
        (record k {
          mem = λ x.
              if within (uva2ka pgdir (page_of va) k + (va - page_of va)) (room va len) x
              then buf (x - (uva2ka pgdir (page_of va) k + (va - page_of va)))
              else k.mem x;
        })

unfoldable pub copyout : ℕ → ℕ → Bytes → ℕ → Kmem → ℤ × Kmem
copyout pgdir va buf len k = copy_out len pgdir va buf len k
