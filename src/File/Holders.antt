-- ===== src/File/Holders.antt =====
-- The counts of HW3/file.c against those who hold the files: an entry is in use as long as someone
-- holds it, and what it stands for is released by the last one.
use operating_systems.Base.{
  ℕ, ◌+◌, ◌-◌, ◌<◌, ◌≡◌, ◌≢◌, ◌⊎◌, inl, inr, refl, none, some, List, [], ◌∷◌, get_elem?, arith, ◌∙◌,
  sym, modify-inverse, Option-cases, Bool-cases, find_index, find_index-some, find_index-none,
  modify, ◌==◌, ltb, if◌then◌else◌, false,
}
use operating_systems.File.Table.{
  File, set_ref, filealloc, filedup, Closing, still_open, closing, fileclose, fd_none,
}

-- How often `i` is among the references that are held.
abbrev pub count : ℕ → List ℕ → ℕ
count i [] = 0
count i (h ∷ hs) = let rest = count i hs in if h == i then rest + 1 else rest

-- One reference less to `i`.
abbrev pub drop_one : ℕ → List ℕ → List ℕ
drop_one i [] = []
drop_one i (h ∷ hs) = let rest = drop_one i hs in if h == i then hs else h ∷ rest

-- The count of each entry is the number of references to it.
abbrev pub Counted : List File → List ℕ → Type 0
Counted fs held = (i : ℕ) (f : File) → get_elem? fs i ≡ some f → f.ref ≡ count i held

pub count-drop_one_self :
    (i : ℕ) (held : List ℕ) → 0 < count i held → count i (drop_one i held) + 1 ≡ count i held
count-drop_one_self i [] p = absurd (omega arith)
count-drop_one_self i (h ∷ hs) p = elim (Bool-cases (h == i)) [
  | inl e ↦ rw e refl
  | inr e ↦ rw e (rw e (count-drop_one_self i hs (rw e at p)))
]

pub count-drop_one_other :
    (i j : ℕ) (held : List ℕ) → j ≢ i → count j (drop_one i held) ≡ count j held
count-drop_one_other i j [] ne = refl
count-drop_one_other i j (h ∷ hs) ne = ground (arith, count-drop_one_other i j hs ne)

Counted-modify :
    (fs : List File) (held held' : List ℕ) (i : ℕ) (g : File → File)
    → Counted fs held
    → ((f : File) → get_elem? fs i ≡ some f → (g f).ref ≡ count i held')
    → ((j : ℕ) → i ≢ j → count j held' ≡ count j held)
    → Counted (modify fs i g) held'
Counted-modify fs held held' i g v here there j y e = elim (modify-inverse fs i j g y e) [
  | inl (same, f, at_j, now) ↦ rw now (rw (← same) (here f (rw (← same) at at_j)))
  | inr (ne, at_j) ↦ v j y at_j ∙ sym (there j ne)
]

pub count-cons_self : (i : ℕ) (held : List ℕ) → count i (i ∷ held) ≡ count i held + 1
count-cons_self i held = ground arith

pub count-cons_other : (i j : ℕ) (held : List ℕ) → i ≢ j → count j (i ∷ held) ≡ count j held
count-cons_other i j held ne = ground arith

-- The entry that `filealloc` hands out is held by no one, and the counts are right with its new
-- holder; with no entry free the table stays as it is and every entry is held.
pub filealloc_lem :
    (fs : List File) (held : List ℕ)
    → Counted fs held
    → ((i : ℕ) × (f : File) × (get_elem? fs i ≡ some f)
        × (filealloc fs ≡ (some i, modify fs i (set_ref 1)))
        × (count i held ≡ 0)
        × Counted (modify fs i (set_ref 1)) (i ∷ held))
      ⊎ ((filealloc fs ≡ (none, fs))
          × ((i : ℕ) (f : File) → get_elem? fs i ≡ some f → 0 < count i held))
unfolding filealloc
filealloc_lem fs held v = elim (Option-cases (find_index (λ f. f.ref == 0) fs)) [
  | inl full ↦ inr (
    rw (full, filealloc) refl,
    λ i f e. omega (arith, v i f e, used f (find_index-none (λ f. f.ref == 0) fs i f full e)),
  )
  | inr (i, found) ↦
      let (f, here, free) = find_index-some (λ f. f.ref == 0) fs i found in
      let idle : count i held ≡ 0 = ground (arith, v i f here, free) in
      inl (
        i,
        f,
        here,
        rw (found, filealloc) refl,
        idle,
        Counted-modify fs held (i ∷ held) i (set_ref 1) v
            (λ g e. omega (arith, count-cons_self i held, idle))
            (λ j ne. count-cons_other i j held ne),
      )
]
  where
    used : (f : File) → (f.ref == 0) ≡ false → 0 < f.ref
    used f e = ground (arith, e)

-- `filedup` of an entry that someone holds succeeds and counts the new holder.
pub filedup_lem :
    (fs : List File) (held : List ℕ) (i : ℕ) (f : File)
    → Counted fs held
    → get_elem? fs i ≡ some f
    → 0 < count i held
    → (fs' : List File) × (filedup i fs ≡ some fs') × Counted fs' (i ∷ held)
unfolding filedup
filedup_lem fs held i f v e p =
    let busy : ltb f.ref 1 ≡ false = ground (arith, v i f e) in
    (
      _,
      rw (e, busy, filedup) refl,
      Counted-modify fs held (i ∷ held) i (λ g. record g { ref = g.ref + 1 }) v
          (λ g e'. omega (arith, v i g e', count-cons_self i held))
          (λ j ne. count-cons_other i j held ne),
    )

-- `fileclose` by a holder succeeds and counts it out; what the file stands for is released exactly
-- when no other holder is left.
pub fileclose_lem :
    (fs : List File) (held : List ℕ) (i : ℕ) (f : File)
    → Counted fs held
    → get_elem? fs i ≡ some f
    → 0 < count i held
    → (c : Closing) × (fs' : List File) × (fileclose i fs ≡ some (c, fs'))
      × Counted fs' (drop_one i held)
      × (0 < count i (drop_one i held) → c ≡ still_open)
      × (count i (drop_one i held) ≡ 0 → c ≡ closing f)
unfolding fileclose
fileclose_lem fs held i f v e p =
    let busy : ltb f.ref 1 ≡ false = ground (arith, v i f e) in
    let less = count-drop_one_self i held p in
    let refs = v i f e in
    let others : (j : ℕ) → i ≢ j → count j (drop_one i held) ≡ count j held =
      λ j ne. count-drop_one_other i j held (λ s. ne (sym s)) in
    elim (Bool-cases (ltb 0 (f.ref - 1))) [
      | inl more ↦ (
        still_open,
        _,
        rw (e, busy, more, fileclose) refl,
        Counted-modify fs held (drop_one i held) i (set_ref (f.ref - 1)) v (λ g e'. omega arith)
            others,
        λ q. refl,
        λ q. absurd (ground (arith, more)),
      )
      | inr last ↦ (
        closing f,
        _,
        rw (e, busy, last, fileclose) refl,
        Counted-modify fs held (drop_one i held) i (λ g. record g { ref = 0; kind = fd_none }) v
            (λ g e'. ground (arith, last)) others,
        λ q. absurd (ground (arith, last)),
        λ q. refl,
      )
    ]
