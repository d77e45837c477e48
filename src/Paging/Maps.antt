-- ===== src/Paging/Maps.antt =====
-- What a call of `walkpgdir` of HW3/vm.c that may allocate promises.
use operating_systems.Base.{
  ℕ, ◌≡◌, inl, inr, refl, sym, ap, subst, ◌∙◌, true, false, Bool-cases, List, [], ◌∷◌, Option, some,
  none, arith,
}
use operating_systems.Kalloc.{Kmem, kalloc}
use operating_systems.Kalloc.Chain.{AllocSpec, kalloc_lem}
use operating_systems.Paging.Walk.{pdx, is_present, pte_slot, new_table, walkpgdir}
use operating_systems.Paging.Space.{pde, table, entry, Tables}
use operating_systems.Paging.Walked.{Tables-with_table, entry_kept, present_new, table_new}

-- What a call of `walkpgdir` that may allocate leaves: nothing new where no page is free, or the slot
-- of the address in a table that is there, and every entry as it was.
abbrev pub Walked : ℕ → List ℕ → ℕ → Kmem → Option ℕ × Kmem → Type 0
Walked pgdir ps va k (none, k') = (k' ≡ k) × (ps ≡ [])
Walked pgdir ps va k (some pte, k') =
    (ps' : List ℕ) × Tables pgdir ps' k'.mem k'.freelist
    × (is_present (pde k'.mem pgdir (pdx va)) ≡ true)
    × (pte ≡ pte_slot (table k'.mem pgdir (pdx va)) va)
    × ((va' : ℕ) → entry k'.mem pgdir va' ≡ entry k.mem pgdir va')

walk_new :
    (pgdir va : ℕ) (ps : List ℕ) (k : Kmem)
    → Tables pgdir ps k.mem k.freelist
    → is_present (pde k.mem pgdir (pdx va)) ≡ false
    → AllocSpec k ps
    → Walked pgdir ps va k (new_table pgdir va (kalloc k))
walk_new pgdir va [] k ok absent none_free = rw (none_free) (refl, refl)
walk_new pgdir va (p ∷ ps) k ok absent (k', e, page, c, same) = rw (e) (made (sym same))
  where
    made : k.mem ≡ k'.mem → Walked pgdir (p ∷ ps) va k (new_table pgdir va (some p, k'))
    made q =
        let ok' : Tables pgdir (p ∷ ps) k'.mem k.freelist =
          subst (λ m. Tables pgdir (p ∷ ps) m k.freelist) q ok in
        let absent' : is_present (pde k'.mem pgdir (pdx va)) ≡ false =
          subst (λ m. is_present (pde m pgdir (pdx va)) ≡ false) q absent in
        (
          ps,
          Tables-with_table pgdir p (pdx va) ps k'.mem k.freelist k'.freelist (omega arith) ok'
              absent' page c,
          present_new k'.mem pgdir (pdx va) p (omega arith) ok.dir page
              (let (n, taken) = ok.dir_taken in n),
          ap (λ t. pte_slot t va)
              (sym (
                table_new k'.mem pgdir (pdx va) p (omega arith) ok.dir page
                  (let (n, taken) = ok.dir_taken in n))),
          λ va'.
              entry_kept pgdir p (pdx va) ps k'.mem k.freelist k'.freelist (omega arith) ok' absent'
                page c va'
              ∙ ap (λ m. entry m pgdir va') (sym q),
        )

-- `walkpgdir` that may allocate.
pub walkpgdir_lem :
    (pgdir va : ℕ) (ps : List ℕ) (k : Kmem)
    → Tables pgdir ps k.mem k.freelist
    → Walked pgdir ps va k (walkpgdir pgdir va true k)
unfolding walkpgdir
walkpgdir_lem pgdir va ps k ok = elim (Bool-cases (is_present (pde k.mem pgdir (pdx va)))) [
  | inl y ↦ rw (y) (ps, ok, y, refl, λ va'. refl)
  | inr n ↦ rw (n) (walk_new pgdir va ps k ok n (kalloc_lem k ps ok.chain))
]
