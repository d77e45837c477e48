-- ===== src/Inode/Unique.antt =====
-- An inode stands in one entry of the table of HW3/fs.c at most.
use operating_systems.Base.{
  ℕ, zero, suc, ◌+◌, ◌<◌, ◌≡◌, ◌≢◌, ◌⊎◌, inl, inr, refl, Bool, true, false, Option, none, some,
  List, [], ◌∷◌, get_elem?, modify, find_index, ◌==◌, find_index-some, get_elem?-modify_self, All,
  All-imp, Option-cases, Bool-cases, arith, ◌∙◌, ap,
}
use mathlib.Core.Option
use operating_systems.Inode.Cache.{Inode, is_cached, one_more, fresh_entry, iget}

-- Entries in use hold different inodes.
abbrev pub Apart : Inode → Inode → Type 0
Apart p q = 0 < p.ref → 0 < q.ref → p.dev ≡ q.dev → p.inum ≢ q.inum

abbrev pub Unique : List Inode → Type 0
Unique [] = Unit
Unique (p ∷ ps) = All (Apart p) ps × Unique ps

All-modify_at :
    (P : Inode → Type 0) (ps : List Inode) (i : ℕ) (f : Inode → Inode)
    → ((p : Inode) → get_elem? ps i ≡ some p → P p → P (f p))
    → All P ps
    → All P (modify ps i f)
All-modify_at P [] i f h a = _
All-modify_at P (p ∷ ps) zero f h (b, a) = (h p refl b, a)
All-modify_at P (p ∷ ps) (suc i) f h (b, a) = (b, All-modify_at P ps i f h a)

Unique-one_more :
    (ps : List Inode) (i : ℕ) (p : Inode)
    → get_elem? ps i ≡ some p
    → 0 < p.ref
    → Unique ps
    → Unique (modify ps i one_more)
Unique-one_more [] i p e used u = _
Unique-one_more (q ∷ ps) zero p e used (a, u) =
    let live : 0 < q.ref = ground (arith, e, used) in
    (All-imp (Apart q) (Apart (one_more q)) (λ r apart b. apart live) ps a, u)
Unique-one_more (q ∷ ps) (suc i) p e used (a, u) = (
  All-modify_at (Apart q) ps i one_more (λ r g apart b c. apart b (ground (arith, e, g, used))) a,
  Unique-one_more ps i p e used u,
)

Unique-fresh_entry :
    (dev inum : ℕ) (ps : List Inode) (i : ℕ)
    → All (λ p. is_cached dev inum p ≡ false) ps
    → Unique ps
    → Unique (modify ps i (fresh_entry dev inum))
Unique-fresh_entry dev inum [] i miss u = _
Unique-fresh_entry dev inum (q ∷ ps) zero (m, miss) (a, u) = (
  All-imp (λ p. is_cached dev inum p ≡ false) (Apart (fresh_entry dev inum q))
      (λ p f b c same eq. absurd (ground (arith, f, c, same, eq))) ps miss,
  u,
)
Unique-fresh_entry dev inum (q ∷ ps) (suc i) (m, miss) (a, u) = (
  All-modify_at (Apart q) ps i (fresh_entry dev inum)
      (λ p g apart b c same eq. absurd (ground (arith, m, b, same, eq))) a,
  Unique-fresh_entry dev inum ps i miss u,
)

find_index-none-All :
    (p : Inode → Bool) (ps : List Inode) → find_index p ps ≡ none → All (λ b. p b ≡ false) ps
unfolding find_index
find_index-none-All p [] e = _
find_index-none-All p (b ∷ ps) e = elim (Bool-cases (p b)) [
  | inl t ↦ absurd (ground (arith, e))
  | inr f ↦ (f, find_index-none-All p ps (ground (arith, e)))
]

-- What `iget` owes: an entry for the inode, in use, which counts one reference more if it was there
-- and is a free one otherwise; it panics only if the inode is not there and no entry is free.
abbrev pub GetSpec : ℕ → ℕ → List Inode → Option (ℕ × List Inode) → Type 0
GetSpec dev inum ips none =
    All (λ p. is_cached dev inum p ≡ false) ips × All (λ p. (p.ref == 0) ≡ false) ips
GetSpec dev inum ips (some (i, ips')) =
    (old : Inode) × (p : Inode) × (get_elem? ips i ≡ some old)
    × (get_elem? ips' i ≡ some p)
    × (p.dev ≡ dev)
    × (p.inum ≡ inum)
    × (p.ref ≡ old.ref + 1)
    × ((is_cached dev inum old ≡ true)
        ⊎ ((old.ref ≡ 0) × (p.valid ≡ false) × All (λ q. is_cached dev inum q ≡ false) ips))
    × Unique ips'

-- `iget` does what it owes, and inodes stay in different entries.
pub iget_lem :
    (dev inum : ℕ) (ips : List Inode) → Unique ips → GetSpec dev inum ips (iget dev inum ips)
unfolding iget
iget_lem dev inum ips u = elim (Option-cases (find_index (is_cached dev inum) ips)) [
  | inr (i, hit) ↦
      let (p, g, c) = find_index-some (is_cached dev inum) ips i hit in
      rw (hit, iget)
        (
          p,
          one_more p,
          g,
          get_elem?-modify_self ips i one_more ∙ ap (Option.map one_more) g,
          ground (arith, c),
          ground (arith, c),
          refl,
          inl c,
          Unique-one_more ips i p g (ground (arith, c)) u,
        )
  | inl miss ↦
      let misses = find_index-none-All (is_cached dev inum) ips miss in
      elim (Option-cases (find_index (λ ip. ip.ref == 0) ips)) [
        | inl full ↦
            rw (miss, full, iget) (misses, find_index-none-All (λ ip. ip.ref == 0) ips full)
        | inr (i, found) ↦
            let (p, g, c) = find_index-some (λ ip. ip.ref == 0) ips i found in
            rw (miss, found, iget)
              (
                p,
                fresh_entry dev inum p,
                g,
                get_elem?-modify_self ips i (fresh_entry dev inum)
                    ∙ ap (Option.map (fresh_entry dev inum)) g,
                refl,
                refl,
                ground (arith, c),
                inr (ground (arith, c), refl, misses),
                Unique-fresh_entry dev inum ips i misses u,
              )
      ]
]
