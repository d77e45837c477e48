-- ===== src/Paging/Entries.antt =====
-- An entry of the page tables of HW3/vm.c that is stored.
use operating_systems.Base.{
  ℕ, ◌+◌, ◌*◌, ◌^◌, ◌<◌, ◌≡◌, ◌≢◌, inl, inr, refl, sym, ap, ◌∙◌, true, ◌&&◌, Bool-cases, List,
  arith, ◌==◌, if◌then◌else◌,
}
use mathlib.Core.Bool.{true≢false}
use operating_systems.Str.{Bytes, store_word}
use operating_systems.Blocks.Bits.{set_bit, or_bits, or_bits-lt, has_bit-set_bit}
use operating_systems.Kalloc.Chain.{IsPage}
use operating_systems.Paging.Walk.{pdx, ptx, page_of, p2v, is_present, entry_of}
use operating_systems.Paging.Space.{
  pde, table, entry, Tables, SamePage, load_word-SamePage, Chain-SamePage, SamePage-store,
  load_word-store_same, load_word-store_next,
}
use operating_systems.Paging.Walked.{All-SamePage}

pub entry_of-present : (pa perm : ℕ) → is_present (entry_of pa perm) ≡ true
entry_of-present pa perm = has_bit-set_bit 0 0 (or_bits 12 pa perm)

pub entry_of-lt : (pa perm : ℕ) → pa < 2 ^ 32 → entry_of pa perm < 2 ^ 32
unfolding set_bit
entry_of-lt pa perm lt = let below = or_bits-lt 12 pa perm (2 ^ 20) lt in omega arith

module _ (pgdir : ℕ) (ps : List ℕ) (m : Bytes) (head va v : ℕ) (ok : Tables pgdir ps m head)
    (here : is_present (pde m pgdir (pdx va)) ≡ true) (small : v < 2 ^ 32) where
  abbrev pub stored : Bytes
  stored = store_word (table m pgdir (pdx va) + 4 * ptx va) v m

  table-IsPage : IsPage (table m pgdir (pdx va))
  table-IsPage = let (pg, nd, rest) = ok.tables (pdx va) (omega arith) here in pg

  same_page : (q : ℕ) → IsPage q → q ≢ table m pgdir (pdx va) → SamePage m stored q
  same_page q pq ne =
      SamePage-store m (table m pgdir (pdx va)) q (ptx va) v table-IsPage pq ne (omega arith)

  pde_kept : (i : ℕ) → i < 1024 → pde stored pgdir i ≡ pde m pgdir i
  pde_kept i lt =
      let (pg, nd, rest) = ok.tables (pdx va) (omega arith) here in
      load_word-SamePage m stored pgdir i (same_page pgdir ok.dir (λ e. nd (sym e))) lt

  table_kept : (i : ℕ) → i < 1024 → table stored pgdir i ≡ table m pgdir i
  table_kept i lt = ap (λ e. p2v (page_of e)) (pde_kept i lt)

  present_kept : (i : ℕ) → i < 1024 → is_present (pde stored pgdir i) ≡ is_present (pde m pgdir i)
  present_kept i lt = ap is_present (pde_kept i lt)

  pub Tables-stored : Tables pgdir ps stored head
  Tables-stored = record {
    dir = ok.dir;
    chain =
        (let (pg, nd, free) = ok.tables (pdx va) (omega arith) here in
          Chain-SamePage m stored head ps
            (All-SamePage m stored (table m pgdir (pdx va)) (table m pgdir (pdx va)) head ps
              (λ q pq ne _. same_page q pq ne) ok.chain free free)
            ok.chain);
    distinct = ok.distinct;
    dir_taken = ok.dir_taken;
    tables = λ i lt h. rw (table_kept i lt) (ok.tables i lt (sym (present_kept i lt) ∙ h));
    apart = λ i j li lj hi hj e.
        ok.apart i j li lj (sym (present_kept i li) ∙ hi) (sym (present_kept j lj) ∙ hj)
          (sym (table_kept i li) ∙ e ∙ table_kept j lj);
  }

  -- The entry of the address is the one that was stored, those of other pages stay.
  pub entry-stored :
      (va' : ℕ)
      → entry stored pgdir va'
        ≡ (if pdx va' == pdx va && ptx va' == ptx va then v else entry m pgdir va')
  entry-stored va' =
      rw (pde_kept (pdx va') (omega arith))
        (elim (Bool-cases (is_present (pde m pgdir (pdx va')))) [
          | inr n ↦ elim (Bool-cases (pdx va' == pdx va)) [
            | inl y ↦
                let is : pdx va' ≡ pdx va = ground arith in
                absurd (true≢false (sym here ∙ ap (λ i. is_present (pde m pgdir i)) (sym is) ∙ n))
            | inr y ↦ rw (n, y) refl
          ]
          | inl h ↦ elim (Bool-cases (pdx va' == pdx va)) [
            | inl y ↦
                let is : pdx va' ≡ pdx va = ground arith in
                elim (Bool-cases (ptx va' == ptx va)) [
                  | inl z ↦
                      let is' : ptx va' ≡ ptx va = ground arith in
                      rw (h, y, z, is, is')
                        (load_word-store_same m (table m pgdir (pdx va)) (ptx va) v small)
                  | inr z ↦
                      rw (h, y, z, is)
                        (load_word-store_next m (table m pgdir (pdx va)) (ptx va) (ptx va') v
                          (λ e. absurd (ground arith)))
                ]
            | inr y ↦
                let (pg, nd, rest) = ok.tables (pdx va') (omega arith) h in
                let ne : table m pgdir (pdx va') ≢ table m pgdir (pdx va) = (λ e. absurd (
                  let i = ok.apart (pdx va') (pdx va) (omega arith) (omega arith) h here e in
                  ground arith)) in
                rw (h, y)
                  (load_word-SamePage m stored (table m pgdir (pdx va')) (ptx va')
                    (same_page _ pg ne) (omega arith))
          ]
        ])
