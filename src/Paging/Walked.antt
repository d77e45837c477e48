-- ===== src/Paging/Walked.antt =====
-- What `walkpgdir` of HW3/vm.c does to the page tables.
use operating_systems.Base.{
  ℕ, ◌+◌, ◌*◌, ◌<◌, ◌≡◌, ◌≢◌, inl, inr, refl, sym, ap, ◌∙◌, true, false, Bool-cases, List, [], ◌∷◌,
  All, arith, ◌==◌,
}
use operating_systems.Str.{Bytes, store_word, memset}
use operating_systems.Blocks.Bits.{set_bit}
use operating_systems.Kalloc.{load_word}
use operating_systems.Kalloc.Chain.{Chain, IsPage}
use operating_systems.Paging.Walk.{pdx, ptx, page_of, p2v, v2p, is_present}
use operating_systems.Paging.Space.{
  pde, table, entry, Tables, SamePage, load_word-SamePage, Chain-SamePage, SamePage-store,
  SamePage-memset, load_word-store_same, load_word-store_next, load_word-cleared, new_entry_present,
  new_entry_table, new_entry_small,
}

-- The tables with the fresh page `p` as the table `i`.
abbrev pub with_table : Bytes → ℕ → ℕ → ℕ → Bytes
with_table m pgdir i p =
    store_word (pgdir + 4 * i) (set_bit 0 (set_bit 1 (set_bit 2 (v2p p)))) (memset p 0 4096 m)

module _ (m : Bytes) (pgdir i p : ℕ) (lt : i < 1024) (dir : IsPage pgdir) (page : IsPage p)
    (ne : p ≢ pgdir) where
  same_page : (q : ℕ) → IsPage q → q ≢ pgdir → q ≢ p → SamePage m (with_table m pgdir i p) q
  same_page q pq nd np x low high =
      SamePage-store (memset p 0 4096 m) pgdir q i _ dir pq nd lt x low high
      ∙ SamePage-memset m p q page pq np x low high

  pde_new : pde (with_table m pgdir i p) pgdir i ≡ set_bit 0 (set_bit 1 (set_bit 2 (v2p p)))
  pde_new = load_word-store_same (memset p 0 4096 m) pgdir i _ (new_entry_small p page)

  pde_old : (j : ℕ) → j < 1024 → j ≢ i → pde (with_table m pgdir i p) pgdir j ≡ pde m pgdir j
  pde_old j l nj =
      load_word-store_next (memset p 0 4096 m) pgdir i j _ (λ e. nj (sym e))
      ∙ load_word-SamePage m _ pgdir j (SamePage-memset m p pgdir page dir (λ e. ne (sym e))) l

  pub table_new : table (with_table m pgdir i p) pgdir i ≡ p
  table_new = ap (λ e. p2v (page_of e)) pde_new ∙ new_entry_table p page

  table_old : (j : ℕ) → j < 1024 → j ≢ i → table (with_table m pgdir i p) pgdir j ≡ table m pgdir j
  table_old j l nj = ap (λ e. p2v (page_of e)) (pde_old j l nj)

  pub present_new : is_present (pde (with_table m pgdir i p) pgdir i) ≡ true
  present_new = ap is_present pde_new ∙ new_entry_present p page

  -- A fresh table has no entries.
  cleared : (t : ℕ) → t < 1024 → load_word (p + 4 * t) (with_table m pgdir i p) ≡ 0
  cleared t l =
      load_word-SamePage (memset p 0 4096 m) _ p t
        (SamePage-store (memset p 0 4096 m) pgdir p i _ dir page ne lt) l
      ∙ load_word-cleared m p t l

pub All-SamePage :
    (m m' : Bytes) (a b : ℕ) (head : ℕ) (ps : List ℕ)
    → ((q : ℕ) → IsPage q → q ≢ a → q ≢ b → SamePage m m' q)
    → Chain m head ps
    → All (λ q. q ≢ a) ps
    → All (λ q. q ≢ b) ps
    → All (SamePage m m') ps
All-SamePage m m' a b head [] same c na nb = tt
All-SamePage m m' a b head (q ∷ ps) same (e, page, c) (n, na) (o, nb) =
    (same q page n o, All-SamePage m m' a b (load_word q m) ps same c na nb)

-- The fresh page becomes table `i`, which was not there.
module _ (pgdir p i : ℕ) (ps : List ℕ) (m : Bytes) (head head' : ℕ) (lt : i < 1024)
    (ok : Tables pgdir (p ∷ ps) m head) (absent : is_present (pde m pgdir i) ≡ false)
    (page : IsPage p) (c : Chain m head' ps) where
  pub p_dir : p ≢ pgdir
  p_dir = let (n, rest) = ok.dir_taken in n

  old_present :
      (j : ℕ)
      → j < 1024
      → j ≢ i
      → is_present (pde (with_table m pgdir i p) pgdir j) ≡ true
      → is_present (pde m pgdir j) ≡ true
  old_present j l nj h = sym (ap is_present (pde_old m pgdir i p lt ok.dir page p_dir j l nj)) ∙ h

  old_apart : (j : ℕ) → j < 1024 → is_present (pde m pgdir j) ≡ true → table m pgdir j ≢ p
  old_apart j l h e = let (pg, nd, (np, rest)) = ok.tables j l h in np (sym e)

  tables_after :
      (j : ℕ)
      → j < 1024
      → is_present (pde (with_table m pgdir i p) pgdir j) ≡ true
      → IsPage (table (with_table m pgdir i p) pgdir j)
        × (table (with_table m pgdir i p) pgdir j ≢ pgdir)
        × All (λ q. q ≢ table (with_table m pgdir i p) pgdir j) ps
  tables_after j l h = elim (Bool-cases (j == i)) [
    | inl y ↦
        let is : j ≡ i = ground arith in
        let (fresh, rest) = ok.distinct in
        let new : table (with_table m pgdir i p) pgdir j ≡ p =
          ap (table (with_table m pgdir i p) pgdir) is
          ∙ table_new m pgdir i p lt ok.dir page p_dir in
        rw (new) (page, p_dir, fresh)
    | inr n ↦
        let nj : j ≢ i = ground arith in
        rw (table_old m pgdir i p lt ok.dir page p_dir j l nj)
          (let (pg, nd, (np, rest)) = ok.tables j l (old_present j l nj h) in (pg, nd, rest))
  ]

  apart_after :
      (j l : ℕ)
      → j < 1024
      → l < 1024
      → is_present (pde (with_table m pgdir i p) pgdir j) ≡ true
      → is_present (pde (with_table m pgdir i p) pgdir l) ≡ true
      → table (with_table m pgdir i p) pgdir j ≡ table (with_table m pgdir i p) pgdir l
      → j ≡ l
  apart_after j l lj ll hj hl e = elim (Bool-cases (j == i)) [
    | inl y ↦ elim (Bool-cases (l == i)) [
      | inl z ↦ ground arith
      | inr z ↦
          let nl : l ≢ i = ground arith in
          let is : j ≡ i = ground arith in
          absurd (
            old_apart l ll (old_present l ll nl hl) (
              sym (table_old m pgdir i p lt ok.dir page p_dir l ll nl)
              ∙ sym e
              ∙ ap (table (with_table m pgdir i p) pgdir) is
              ∙ table_new m pgdir i p lt ok.dir page p_dir))
    ]
    | inr y ↦
        let nj : j ≢ i = ground arith in
        elim (Bool-cases (l == i)) [
          | inl z ↦
              let is : l ≡ i = ground arith in
              absurd (
                old_apart j lj (old_present j lj nj hj) (
                  sym (table_old m pgdir i p lt ok.dir page p_dir j lj nj)
                  ∙ e
                  ∙ ap (table (with_table m pgdir i p) pgdir) is
                  ∙ table_new m pgdir i p lt ok.dir page p_dir))
          | inr z ↦
              let nl : l ≢ i = ground arith in
              ok.apart j l lj ll (old_present j lj nj hj) (old_present l ll nl hl) (
                sym (table_old m pgdir i p lt ok.dir page p_dir j lj nj)
                ∙ e
                ∙ table_old m pgdir i p lt ok.dir page p_dir l ll nl)
        ]
  ]

  pub Tables-with_table : Tables pgdir ps (with_table m pgdir i p) head'
  Tables-with_table = record {
    dir = ok.dir;
    chain =
        (let (fresh, rest) = ok.distinct in
          let (n, taken) = ok.dir_taken in
          Chain-SamePage m _ head' ps
            (All-SamePage m _ pgdir p head' ps (same_page m pgdir i p lt ok.dir page p_dir) c taken
              fresh)
            c);
    distinct = (let (fresh, rest) = ok.distinct in rest);
    dir_taken = (let (n, taken) = ok.dir_taken in taken);
    tables = tables_after;
    apart = apart_after;
  }

  entry_other : (va : ℕ) → pdx va ≢ i → entry (with_table m pgdir i p) pgdir va ≡ entry m pgdir va
  entry_other va ne =
      rw (pde_old m pgdir i p lt ok.dir page p_dir (pdx va) (omega arith) ne)
        (elim (Bool-cases (is_present (pde m pgdir (pdx va)))) [
          | inr y ↦ rw (y) refl
          | inl y ↦
              let (pg, nd, rest) = ok.tables (pdx va) (omega arith) y in
              rw (y) (
                load_word-SamePage m _ _ (ptx va)
                  (same_page m pgdir i p lt ok.dir page p_dir _ pg nd
                    (old_apart (pdx va) (omega arith) y))
                  (omega arith))
        ])

  pub entry_kept : (va : ℕ) → entry (with_table m pgdir i p) pgdir va ≡ entry m pgdir va
  entry_kept va = elim (Bool-cases (pdx va == i)) [
    | inr n ↦ entry_other va (ground arith)
    | inl y ↦
        let is : pdx va ≡ i = ground arith in
        rw
          (
            is,
            present_new m pgdir i p lt ok.dir page p_dir,
            absent,
            table_new m pgdir i p lt ok.dir page p_dir,
          )
          (cleared m pgdir i p lt ok.dir page p_dir (ptx va) (omega arith))
  ]
