-- ===== src/Paging/Ranges.antt =====
-- What a call of `mappages` of HW3/vm.c does to the entries of all addresses.
use operating_systems.Base.{
  ℕ, ◌+◌, ◌-◌, ◌*◌, ◌/◌, ◌^◌, ◌<◌, ◌≤◌, ◌≡◌, inl, inr, refl, ◌∙◌, true, false, ◌&&◌, leb,
  Bool-cases, List, [], Option, some, none, arith, ◌==◌, if◌then◌else◌,
}
use operating_systems.Base.Int.{ℤ, pos, negsuc}
use operating_systems.Str.{Bytes}
use operating_systems.Kalloc.{Kmem}
use operating_systems.Paging.Walk.{is_present, entry_of}
use operating_systems.Paging.Space.{entry, Tables}

-- The entries after the pages from number `q` to `q + n` were mapped to the memory from `pa` on.
abbrev pub mapped_entry : ℕ → ℕ → ℕ → ℕ → Bytes → ℕ → ℕ → ℕ
mapped_entry q n pa perm m pgdir va =
    if leb q (va / 4096) && leb (va / 4096) (q + n)
    then entry_of (pa + (va / 4096 - q) * 4096) perm
    else entry m pgdir va

-- What `mappages` of pages that are not mapped answers: 0 with all of them mapped, or -1 with no page
-- left; other pages keep their entries in both.
abbrev pub MapsTo : ℕ → ℕ → ℕ → ℕ → ℕ → Bytes → Option (ℤ × Kmem) → Type 0
MapsTo pgdir q n pa perm m none = ⊥
MapsTo pgdir q n pa perm m (some (pos r, k')) =
    (r ≡ 0)
    × (ps' : List ℕ) × Tables pgdir ps' k'.mem k'.freelist
    × ((va : ℕ) → va < 2 ^ 32 → entry k'.mem pgdir va ≡ mapped_entry q n pa perm m pgdir va)
MapsTo pgdir q n pa perm m (some (negsuc r, k')) =
    (r ≡ 0)
    × Tables pgdir [] k'.mem k'.freelist
    × ((va : ℕ)
        → va < 2 ^ 32
        → (leb q (va / 4096) && leb (va / 4096) (q + n)) ≡ false
        → entry k'.mem pgdir va ≡ entry m pgdir va)

abbrev pub Unmapped : ℕ → ℕ → ℕ → Bytes → Type 0
Unmapped pgdir q n m =
    (va : ℕ)
    → va < 2 ^ 32
    → q ≤ va / 4096
    → va / 4096 ≤ q + n
    → is_present (entry m pgdir va) ≡ false

-- Page `q` first, and then the others.
pub MapsTo-next :
    (pgdir q n pa perm : ℕ) (m m' : Bytes) (o : Option (ℤ × Kmem))
    → ((va : ℕ)
        → va < 2 ^ 32
        → entry m' pgdir va ≡ (if va / 4096 == q then entry_of pa perm else entry m pgdir va))
    → MapsTo pgdir (q + 1) n (pa + 4096) perm m' o
    → MapsTo pgdir q (n + 1) pa perm m o
MapsTo-next pgdir q n pa perm m m' none one later = later
MapsTo-next pgdir q n pa perm m m' (some (pos r, k')) one (z, ps', t, all) = (
  z,
  ps',
  t,
  λ va lt. all va lt ∙ elim (Bool-cases (va / 4096 == q)) [
    | inl y ↦
        let first : entry m' pgdir va ≡ entry_of pa perm = one va lt ∙ rw (y) refl in
        let later : leb (q + 1) (va / 4096) && leb (va / 4096) (q + 1 + n) ≡ false = ground arith in
        let now : leb q (va / 4096) && leb (va / 4096) (q + (n + 1)) ≡ true = ground arith in
        let start : pa + (va / 4096 - q) * 4096 ≡ pa = ground arith in rw (later, now, start) first
    | inr y ↦
        let same : entry m' pgdir va ≡ entry m pgdir va = one va lt ∙ rw (y) refl in
        let range : (leb (q + 1) (va / 4096) && leb (va / 4096) (q + 1 + n))
            ≡ (leb q (va / 4096) && leb (va / 4096) (q + (n + 1))) =
          ground arith in
        elim (Bool-cases (leb q (va / 4096) && leb (va / 4096) (q + (n + 1)))) [
          | inl i ↦
              let place : pa + 4096 + (va / 4096 - (q + 1)) * 4096 ≡ pa + (va / 4096 - q) * 4096 =
                ground arith in
              rw (range, i, place) refl
          | inr i ↦ rw (range, i) same
        ]
  ],
)
MapsTo-next pgdir q n pa perm m m' (some (negsuc r, k')) one (z, t, others) = (
  z,
  t,
  λ va lt out.
      let ne : (va / 4096 == q) ≡ false = ground arith in
      others va lt (ground arith) ∙ one va lt ∙ rw (ne) refl,
)
