-- ===== src/Dir/Found.antt =====
-- The loop and the answer of `dirlookup` of HW3/fs.c.
use operating_systems.Base.{
  ℕ, zero, suc, ◌+◌, ◌*◌, ◌%◌, ◌<◌, ◌≤◌, ◌≡◌, ◌≢◌, inl, inr, refl, sym, ap₂, subst, ◌∙◌, false, not,
  Bool-cases, List, Option, none, some, ◌>>=◌, add32, ltb, ◌==◌, if◌then◌else◌, arith,
}
use operating_systems.Str.{Bytes}
use operating_systems.Blocks.Map.{Disk, Superblock}
use operating_systems.Inode.Owned.{byte_at}
use operating_systems.Inode.Kept.{Kept, Kept-refl, Kept-trans}
use operating_systems.Inode.Cache.{Dinode, Inode, iget}
use operating_systems.Dir.Lookup.{
  IsDir, IsDir-Kept, is_match, is_match_agree, test_agree, FirstMatch, ReadsEntry, read_entry_lem,
}
use operating_systems.Dir.Entries.{
  get_found, dirlookup, is_zero, namecmp, entry_inum, entry_name, read_entry, find_entry,
}

-- What the loop of `dirlookup` from `off` on finds.
abbrev pub Finds :
    Superblock → Bytes → ℕ → Dinode → Disk → Option (Option (ℕ × ℕ) × Dinode × Disk) → Type 0
Finds sb name off dp d none = ⊥
Finds sb name off dp d (some (o, dp', d')) =
    FirstMatch name (byte_at dp d) off dp.size o × Kept sb dp d dp' d'

-- The entry at `off` is not of the name.
FirstMatch-next :
    (name f g : Bytes) (off size : ℕ) (o : Option (ℕ × ℕ))
    → off % 16 ≡ 0
    → size % 16 ≡ 0
    → size ≤ 71680
    → ((p : ℕ) → p < 71680 → g p ≡ f p)
    → is_match name f off ≡ false
    → FirstMatch name g (off + 16) size o
    → FirstMatch name f off size o
FirstMatch-next name f g off size none al whole small same miss later = λ k ge lt m.
    elim (Bool-cases (k == off)) [
      | inl y ↦ let is : off ≡ k = ground arith in subst (λ x. is_match name f x ≡ false) is miss
      | inr n ↦
          let ne : k ≢ off = ground arith in
          is_match_agree name f g k (λ i l. sym (same (k + i) (omega arith)))
          ∙ later k (omega arith) lt m
    ]
FirstMatch-next name f g off size (some (at, inum)) al whole small same miss
      (ge, lt, m, hit, is, before) =
    (
      omega arith,
      lt,
      m,
      is_match_agree name f g at (λ i l. sym (same (at + i) (omega arith))) ∙ hit,
      is ∙ ap₂ (λ x y. x + y * 256) (same (at + 0) (omega arith)) (same (at + 1) (omega arith)),
      λ k g' l mk. elim (Bool-cases (k == off)) [
        | inl y ↦
            let is' : off ≡ k = ground arith in subst (λ x. is_match name f x ≡ false) is' miss
        | inr n ↦
            let ne : k ≢ off = ground arith in
            is_match_agree name f g k (λ i l'. sym (same (k + i) (omega arith)))
            ∙ before k (omega arith) l mk
      ],
    )

find_entry_lem :
    (fuel : ℕ) (sb : Superblock) (name : Bytes) (off : ℕ) (dp : Dinode) (d : Disk)
    → IsDir sb dp d
    → off % 16 ≡ 0
    → dp.size < off + fuel
    → off ≤ 71680
    → Finds sb name off dp d (find_entry fuel sb name off dp d)
unfolding find_entry ReadsEntry
find_entry_lem zero sb name off dp d ok al enough top =
    ((λ k ge lt m. absurd (omega arith)), Kept-refl sb dp d ok.sound)
find_entry_lem (suc fuel) sb name off dp d ok al enough top = elim (Bool-cases (ltb off dp.size)) [
  | inr n ↦ rw (n) ((λ k ge lt m. absurd (ground arith)), Kept-refl sb dp d ok.sound)
  | inl y ↦
      let whole = ok.whole in
      let small = ok.small in
      rw (y) (
        look (read_entry sb dp off d) (read_entry_lem sb dp off d ok (ground arith)) (ground arith)
          (λ dp' d' ok' size.
            find_entry_lem fuel sb name (off + 16) dp' d' ok' (omega arith) (omega arith)
              (ground arith)))
]
  where
    next : Dinode → Disk → Option (Option (ℕ × ℕ) × Dinode × Disk)
    next dp' d' = find_entry fuel sb name (add32 off 16) dp' d'

    found : Option (Bytes × Dinode × Disk) → Option (Option (ℕ × ℕ) × Dinode × Disk)
    found o = o >>= λ (de, dp', d').
        if not (entry_inum de == 0)
        then (if is_zero (namecmp name (entry_name de))
            then some (some (off, entry_inum de), dp', d')
            else next dp' d')
        else next dp' d'

    step :
        (dp' : Dinode) (d' : Disk)
        → Kept sb dp d dp' d'
        → dp'.size ≡ dp.size
        → is_match name (byte_at dp d) off ≡ false
        → (r : Option (Option (ℕ × ℕ) × Dinode × Disk)) → Finds sb name (off + 16) dp' d' r
        → Finds sb name off dp d r
    step dp' d' kept size miss none h = h
    step dp' d' kept size miss (some (o, dp'', d'')) (first, kept') = (
      FirstMatch-next name (byte_at dp d) (byte_at dp' d') off dp.size o al ok.whole ok.small
          kept.bytes miss (subst (λ n. FirstMatch name (byte_at dp' d') (off + 16) n o) size first),
      Kept-trans sb dp dp' dp'' d d' d'' kept kept',
    )

    look :
        (o : Option (Bytes × Dinode × Disk))
        → ReadsEntry sb dp off d o
        → off < dp.size
        → ((dp' : Dinode) (d' : Disk)
            → IsDir sb dp' d'
            → dp'.size ≡ dp.size
            → Finds sb name (off + 16) dp' d' (find_entry fuel sb name (off + 16) dp' d'))
        → Finds sb name off dp d (found o)
    look none h lt later = absurd h
    look (some (de, dp', d')) (bytes, kept) lt later =
        let (ok', size) = IsDir-Kept sb dp dp' d d' ok kept in
        let test = test_agree name de (byte_at dp d) off bytes in
        let jump : add32 off 16 ≡ off + 16 = omega arith in
        let miss : is_match name (byte_at dp d) off ≡ false
            → Finds sb name off dp d (find_entry fuel sb name (off + 16) dp' d') =
          λ m. step dp' d' kept size m _ (later dp' d' ok' size) in
        elim (Bool-cases (entry_inum de == 0)) [
          | inl z ↦ rw (z, jump) (miss (sym test ∙ rw (z) refl))
          | inr z ↦ elim (Bool-cases (is_zero (namecmp name (entry_name de)))) [
            | inr n ↦ rw (z, n, jump) (miss (sym test ∙ rw (z, n) refl))
            | inl y ↦
                rw (z, y)
                  (
                    (
                      omega arith,
                      lt,
                      al,
                      sym test ∙ rw (z, y) refl,
                      ap₂ (λ a b. a + b * 256) (bytes 0 (omega arith)) (bytes 1 (omega arith)),
                      λ k ge l m. absurd (omega arith),
                    ),
                    kept,
                  )
          ]
        ]

-- What `dirlookup` answers: nothing where no entry has the name; else the first entry that has it,
-- and its inode in the table; the panic is that of `iget`.
abbrev pub LooksUp :
    Superblock
    → ℕ
    → Bytes
    → List Inode
    → Dinode
    → Disk
    → Option (Option (ℕ × ℕ) × List Inode × Dinode × Disk)
    → Type 0
LooksUp sb dev name ips dp d none =
    (off : ℕ) × (inum : ℕ) × FirstMatch name (byte_at dp d) 0 dp.size (some (off, inum))
    × (iget dev inum ips ≡ none)
LooksUp sb dev name ips dp d (some (none, ips', dp', d')) =
    FirstMatch name (byte_at dp d) 0 dp.size none × (ips' ≡ ips) × Kept sb dp d dp' d'
LooksUp sb dev name ips dp d (some (some (i, off), ips', dp', d')) =
    (inum : ℕ) × FirstMatch name (byte_at dp d) 0 dp.size (some (off, inum))
    × (iget dev inum ips ≡ some (i, ips'))
    × Kept sb dp d dp' d'

-- In a sound directory without holes `dirlookup` of a name answers with the first entry that is in
-- use and has the name, with its offset and with its inode from the table of inodes, and with nothing
-- if there is none; the directory keeps its bytes. It panics only where the table of inodes is full.
pub dirlookup_lem :
    (sb : Superblock) (dev : ℕ) (name : Bytes) (ips : List Inode) (dp : Dinode) (d : Disk)
    → IsDir sb dp d
    → LooksUp sb dev name ips dp d (dirlookup sb dev name ips dp d)
unfolding dirlookup
dirlookup_lem sb dev name ips dp d ok =
    let dir : not (dp.kind == 1) ≡ false = (let k = ok.kind in ground arith) in
    rw (dir) (
      answer (find_entry (dp.size + 1) sb name 0 dp d)
        (find_entry_lem (dp.size + 1) sb name 0 dp d ok (omega arith) (omega arith) (omega arith)))
  where
    got :
        (off inum : ℕ) (dp' : Dinode) (d' : Disk)
        → FirstMatch name (byte_at dp d) 0 dp.size (some (off, inum))
        → Kept sb dp d dp' d'
        → (o : Option (ℕ × List Inode)) → iget dev inum ips ≡ o
        → LooksUp sb dev name ips dp d (o >>= λ (i, ips'). some (some (i, off), ips', dp', d'))
    got off inum dp' d' first kept none e = (off, inum, first, e)
    got off inum dp' d' first kept (some (i, ips')) e = (inum, first, e, kept)

    answer :
        (o : Option (Option (ℕ × ℕ) × Dinode × Disk))
        → Finds sb name 0 dp d o
        → LooksUp sb dev name ips dp d (o >>= get_found dev ips)
    answer none h = absurd h
    answer (some (none, dp', d')) (first, kept) = (first, refl, kept)
    answer (some (some (off, inum), dp', d')) (first, kept) =
        got off inum dp' d' first kept (iget dev inum ips) refl
