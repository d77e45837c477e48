-- ===== src/Cache/Calls.antt =====
-- `bget` and `brelse` of HW3/bio.c: what they return, and that blocks stay in different buffers.
use operating_systems.Base.{
  ℕ, ◌<◌, ◌≡◌, ◌≢◌, ◌⊎◌, inl, inr, refl, true, false, some, List, ◌∷◌, get_elem?, find_index,
  find_index-some, get_elem?-modify_self, All, Option-cases, Bool-cases, arith, ◌∙◌, ap, sym, subst,
}
use operating_systems.Cache.Unique.{
  no_device, Unique, Unique-modify_flags, Unique-modify-recycle, Unique-unlink, Apart-unlink,
}
use operating_systems.Cache.Search.{find_index-none-All, find_last-none, find_last-some}
use mathlib.Core.Option
use operating_systems.Cache.Buffers.{
  Buf, caches, is_free, find_last, recycle, Got, got, sleeps_on, no_buffers, take_cached, bget,
  unlink, brelse,
}

-- What `bget` of a block of a real device owes. A buffer that it returns was in no one's use and is
-- now the caller's, for this block; it is the cached one, with its flags, if there is one, and
-- otherwise the last of the list that is neither in use nor dirty. It sleeps only on the buffer of
-- this block while that is in use, and panics only if the block is not cached and no buffer is free.
abbrev pub GetSpec : ℕ → ℕ → List Buf → Got × List Buf → Type 0
GetSpec dev blockno bs (got i, bs') =
    (old : Buf) × (b : Buf) × (get_elem? bs i ≡ some old)
    × (old.busy ≡ false)
    × (get_elem? bs' i ≡ some b)
    × (b.dev ≡ dev)
    × (b.blockno ≡ blockno)
    × (b.busy ≡ true)
    × (((caches dev blockno old ≡ true) × (b ≡ record old { busy = true }))
        ⊎ (All (λ c. caches dev blockno c ≡ false) bs
            × (b.valid ≡ false)
            × (is_free old ≡ true)
            × ((k : ℕ) (c : Buf) → i < k → get_elem? bs k ≡ some c → is_free c ≡ false)))
GetSpec dev blockno bs (sleeps_on i, bs') =
    (b : Buf) × (get_elem? bs i ≡ some b)
    × (caches dev blockno b ≡ true)
    × (b.busy ≡ true)
    × (bs' ≡ bs)
GetSpec dev blockno bs (no_buffers, bs') =
    All (λ c. caches dev blockno c ≡ false) bs × All (λ c. is_free c ≡ false) bs × (bs' ≡ bs)

-- `bget` of a block of a real device does what it owes, and keeps the blocks in different buffers.
pub bget_lem :
    (dev blockno : ℕ) (bs : List Buf)
    → dev ≢ no_device
    → Unique bs
    → Unique (bget dev blockno bs).1 × GetSpec dev blockno bs (bget dev blockno bs)
unfolding bget
bget_lem dev blockno bs real u = elim (Option-cases (find_index (caches dev blockno) bs)) [
  | inl miss ↦ elim (Option-cases (find_last bs)) [
    | inl n ↦
        rw (miss, n, bget)
          (u, (find_index-none-All (caches dev blockno) bs miss, find_last-none bs n, refl))
    | inr (j, found) ↦
        let (b, g, f, later) = find_last-some bs j found in
        let misses = find_index-none-All (caches dev blockno) bs miss in
        rw (miss, found, bget)
          (
            Unique-modify-recycle dev blockno bs j real misses u,
            (
              b,
              recycle dev blockno b,
              g,
              ground (arith, f),
              get_elem?-modify_self bs j (recycle dev blockno)
                  ∙ ap (Option.map (recycle dev blockno)) g,
              refl,
              refl,
              refl,
              inr (misses, refl, f, later),
            ),
          )
  ]
  | inr (i, hit) ↦
      let (b, g, c) = find_index-some (caches dev blockno) bs i hit in
      rw (hit, g, bget) (cached i b g c)
]
  where
    cached :
        (i : ℕ) (b : Buf)
        → get_elem? bs i ≡ some b
        → caches dev blockno b ≡ true
        → Unique (take_cached i (some b) bs).1 × GetSpec dev blockno bs (take_cached i (some b) bs)
    cached i b g c = elim (Bool-cases b.busy) [
      | inl t ↦ rw t (u, (b, g, c, t, refl))
      | inr f ↦ rw f (
        Unique-modify_flags bs i u,
        (
          b,
          record b { busy = true },
          g,
          f,
          get_elem?-modify_self bs i _ ∙ ap (Option.map (λ (x : Buf). record x { busy = true })) g,
          ground (arith, c),
          ground (arith, c),
          refl,
          inl (c, refl),
        ),
      )
    ]

-- `brelse` of a buffer in use keeps the blocks in different buffers and puts the buffer first, free of
-- its user.
pub brelse_lem :
    (i : ℕ) (bs bs' : List Buf) (b : Buf)
    → Unique bs
    → get_elem? bs i ≡ some b
    → brelse i bs ≡ some bs'
    → (b.busy ≡ true)
      × Unique bs'
      × (get_elem? bs' 0 ≡ some (record b { busy = false }))
      × (bs' ≡ record b { busy = false } ∷ unlink i bs)
unfolding brelse
brelse_lem i bs bs' b u g e = elim (Bool-cases b.busy) [
  | inr f ↦ absurd (ground (arith, rw (g, f, brelse) at e))
  | inl t ↦
      let done : bs' ≡ record b { busy = false } ∷ unlink i bs =
        sym (Option.some-injective _ _ (rw (g, t, brelse) at e)) in
      (
        t,
        subst Unique (sym done) (Apart-unlink i bs b u g, Unique-unlink i bs u),
        ap (λ l. get_elem? l 0) done,
        done,
      )
]
