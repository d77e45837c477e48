-- ===== src/Paging/Mapping.antt =====
-- `mappages` of HW3/vm.c maps the pages that it is asked for.
use operating_systems.Base.{
  ℕ, zero, suc, ◌+◌, ◌-◌, ◌*◌, ◌/◌, ◌^◌, ◌<◌, ◌≡◌, ◌≢◌, inl, inr, refl, sym, ap, subst, ◌∙◌, true,
  false, ◌&&◌, leb, Bool-cases, List, [], Option, some, none, arith, ◌==◌, if◌then◌else◌, add32,
  sub32,
}
use operating_systems.Base.Int.{pos}
use operating_systems.Str.{Bytes, store_word}
use operating_systems.Kalloc.{Kmem, load_word}
use operating_systems.Paging.Walk.{
  pdx, ptx, is_present, pte_slot, walkpgdir, entry_of, map_round, map_pages, mappages,
}
use operating_systems.Paging.Space.{pde, table, entry, Tables}
use operating_systems.Paging.Maps.{Walked, walkpgdir_lem}
use operating_systems.Paging.Entries.{entry_of-lt, Tables-stored, entry-stored}
use operating_systems.Paging.Ranges.{MapsTo, Unmapped, MapsTo-next}

-- The entry that the walk found is that of page `q`.
one_page :
    (q va : ℕ)
    → q < 2 ^ 20
    → va < 2 ^ 32
    → (pdx va == pdx (q * 4096) && ptx va == ptx (q * 4096)) ≡ (va / 4096 == q)
one_page q va lq lt = ground arith

abbrev slot_of : ℕ → ℕ → Kmem → ℕ
slot_of pgdir q k' = pte_slot (table k'.mem pgdir (pdx (q * 4096))) (q * 4096)

abbrev after_one : ℕ → ℕ → ℕ → ℕ → Kmem → Kmem
after_one pgdir q pa perm k' = record k' {
  mem = store_word (slot_of pgdir q k') (entry_of pa perm) k'.mem;
}

module _ (pgdir q pa perm : ℕ) (k k' : Kmem) (ps : List ℕ) (lq : q < 2 ^ 20) (lpa : pa < 2 ^ 32)
    (ok : Tables pgdir ps k'.mem k'.freelist)
    (here : is_present (pde k'.mem pgdir (pdx (q * 4096))) ≡ true)
    (same : (va : ℕ) → entry k'.mem pgdir va ≡ entry k.mem pgdir va) where
  slot_free :
      is_present (entry k.mem pgdir (q * 4096)) ≡ false
      → is_present (load_word (slot_of pgdir q k') k'.mem) ≡ false
  slot_free free =
      let at_slot : entry k'.mem pgdir (q * 4096) ≡ load_word (slot_of pgdir q k') k'.mem =
        rw (here) refl in
      ap is_present (sym at_slot ∙ same (q * 4096)) ∙ free

  entry_one :
      (va : ℕ)
      → va < 2 ^ 32
      → entry (store_word (slot_of pgdir q k') (entry_of pa perm) k'.mem) pgdir va
        ≡ (if va / 4096 == q then entry_of pa perm else entry k.mem pgdir va)
  entry_one va lt =
      entry-stored pgdir ps k'.mem k'.freelist (q * 4096) (entry_of pa perm) ok here
        (entry_of-lt pa perm lpa) va
      ∙ rw (one_page q va lq lt, same va) refl

  Tables-one :
      Tables pgdir ps (store_word (slot_of pgdir q k') (entry_of pa perm) k'.mem) k'.freelist
  Tables-one =
      Tables-stored pgdir ps k'.mem k'.freelist (q * 4096) (entry_of pa perm) ok here
        (entry_of-lt pa perm lpa)

-- The last page.
MapsTo-one :
    (pgdir q pa perm : ℕ) (m : Bytes) (k' : Kmem) (ps : List ℕ)
    → Tables pgdir ps k'.mem k'.freelist
    → ((va : ℕ)
        → va < 2 ^ 32
        → entry k'.mem pgdir va ≡ (if va / 4096 == q then entry_of pa perm else entry m pgdir va))
    → MapsTo pgdir q 0 pa perm m (some (pos 0, k'))
MapsTo-one pgdir q pa perm m k' ps t one = (
  refl,
  ps,
  t,
  λ va lt. one va lt ∙ elim (Bool-cases (va / 4096 == q)) [
    | inl y ↦
        let now : leb q (va / 4096) && leb (va / 4096) (q + 0) ≡ true = ground arith in
        let start : pa + (va / 4096 - q) * 4096 ≡ pa = ground arith in rw (y, now, start) refl
    | inr y ↦
        let out : leb q (va / 4096) && leb (va / 4096) (q + 0) ≡ false = ground arith in
        rw (y, out) refl
  ],
)

pub map_pages_lem :
    (fuel pgdir q n pa perm : ℕ) (ps : List ℕ) (k : Kmem)
    → Tables pgdir ps k.mem k.freelist
    → n < fuel
    → q + n < 2 ^ 20
    → pa + n * 4096 < 2 ^ 32
    → Unmapped pgdir q n k.mem
    → MapsTo pgdir q n pa perm k.mem (map_pages fuel pgdir (q * 4096) ((q + n) * 4096) pa perm k)
unfolding map_pages
map_pages_lem zero pgdir q n pa perm ps k ok enough top phys free = absurd (omega arith)
map_pages_lem (suc fuel) pgdir q n pa perm ps k ok enough top phys free =
    round (walkpgdir pgdir (q * 4096) true k) (walkpgdir_lem pgdir (q * 4096) ps k ok)
      (λ n' ps' k' is t un.
        map_pages_lem fuel pgdir (q + 1) n' (pa + 4096) perm ps' k' t (omega arith) (omega arith)
          (omega arith) un)
  where
    Later : Type 0
    Later =
        (n' : ℕ) (ps' : List ℕ) (k' : Kmem)
        → n ≡ n' + 1
        → Tables pgdir ps' k'.mem k'.freelist
        → Unmapped pgdir (q + 1) n' k'.mem
        → MapsTo pgdir (q + 1) n' (pa + 4096) perm k'.mem
            (map_pages fuel pgdir ((q + 1) * 4096) ((q + 1 + n') * 4096) (pa + 4096) perm k')

    round :
        (o : Option ℕ × Kmem)
        → Walked pgdir ps (q * 4096) k o
        → Later
        → MapsTo pgdir q n pa perm k.mem (
            map_round pa perm
              (q * 4096 == (q + n) * 4096)
              (λ k'.
                map_pages fuel pgdir
                  (add32 (q * 4096) 4096)
                  ((q + n) * 4096)
                  (add32 pa 4096)
                  perm
                  k')
              o)
    round (none, k') (is, empty) later = (
      refl,
      subst (λ (x : Kmem). Tables pgdir [] x.mem x.freelist) (sym is)
          (subst (λ l. Tables pgdir l k.mem k.freelist) empty ok),
      λ va lt out. ap (λ (x : Kmem). entry x.mem pgdir va) is,
    )
    round (some pte', k') (ps', t, here, is, same) later =
        let unmapped : is_present
              (load_word (pte_slot (table k'.mem pgdir (pdx (q * 4096))) (q * 4096)) k'.mem)
            ≡ false =
          slot_free pgdir q pa perm k k' ps' (omega arith) (omega arith) t here same
            (free (q * 4096) (omega arith) (omega arith) (omega arith)) in
        let one = entry_one pgdir q pa perm k k' ps' (omega arith) (omega arith) t here same in
        let t' = Tables-one pgdir q pa perm k k' ps' (omega arith) (omega arith) t here same in
        rw (is, unmapped)
          (elim (Bool-cases (q * 4096 == (q + n) * 4096)) [
            | inl y ↦
                let last : 0 ≡ n = ground arith in
                rw (y) (
                  subst
                    (λ x.
                      MapsTo pgdir q x pa perm k.mem (some (pos 0, after_one pgdir q pa perm k')))
                    last
                    (MapsTo-one pgdir q pa perm k.mem (after_one pgdir q pa perm k') ps' t' one))
            | inr y ↦
                let some_more : n ≢ 0 = (λ z. absurd (ground arith)) in
                let count : n - 1 + 1 ≡ n = omega arith in
                let next_a : add32 (q * 4096) 4096 ≡ (q + 1) * 4096 = omega arith in
                let next_last : (q + n) * 4096 ≡ (q + 1 + (n - 1)) * 4096 = omega arith in
                let next_pa : add32 pa 4096 ≡ pa + 4096 = omega arith in
                rw (y, next_a, next_last, next_pa)
                  (subst
                    (λ x. MapsTo pgdir q x pa perm k.mem (
                      map_pages fuel pgdir ((q + 1) * 4096) ((q + 1 + (n - 1)) * 4096) (pa + 4096)
                        perm (after_one pgdir q pa perm k')))
                    count
                    (MapsTo-next pgdir q (n - 1) pa perm k.mem (after_one pgdir q pa perm k').mem
                      (map_pages fuel pgdir ((q + 1) * 4096) ((q + 1 + (n - 1)) * 4096) (pa + 4096)
                        perm (after_one pgdir q pa perm k'))
                      one
                      (later (n - 1) ps' (after_one pgdir q pa perm k') (sym count) t'
                        (λ va lt low high.
                          ap is_present (one va lt)
                          ∙ ap is_present
                              (let ne : va / 4096 == q ≡ false = ground arith in rw (ne) refl)
                          ∙ free va lt (omega arith) (omega arith)))))
          ])

-- `mappages` of a page-aligned range of `n + 1` pages that are not mapped, in tables that are pages
-- of their own and none of the free pages: the call does not panic. It answers 0, and each address of
-- the range has the entry of its page of memory with the permissions; or it answers -1 and no page is
-- free. Addresses of other pages keep their entries, and the tables stay as they should be.
pub mappages_lem :
    (pgdir q n pa perm : ℕ) (ps : List ℕ) (k : Kmem)
    → Tables pgdir ps k.mem k.freelist
    → q + n < 2 ^ 20
    → pa + n * 4096 < 2 ^ 32
    → Unmapped pgdir q n k.mem
    → MapsTo pgdir q n pa perm k.mem (mappages pgdir (q * 4096) ((n + 1) * 4096) pa perm k)
unfolding mappages
mappages_lem pgdir q n pa perm ps k ok top phys free =
    let first : q * 4096 / 4096 * 4096 ≡ q * 4096 = omega arith in
    let last : sub32 (add32 (q * 4096) ((n + 1) * 4096)) 1 / 4096 * 4096 ≡ (q + n) * 4096 =
      omega arith in
    rw (first, last) (map_pages_lem (2 ^ 20) pgdir q n pa perm ps k ok (omega arith) top phys free)
