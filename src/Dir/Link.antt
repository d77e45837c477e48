-- ===== src/Dir/Link.antt =====
-- The parts of `dirlink` of HW3/fs.c, and the entry that it writes.
use operating_systems.Base.{
  ℕ, zero, suc, ◌+◌, ◌*◌, ◌%◌, ◌<◌, ◌≤◌, ◌≡◌, ◌≢◌, inl, inr, refl, sym, ap₂, ◌∙◌, true, false, not,
  ◌&&◌, Bool-cases, Option, none, some, ◌>>=◌, add32, ltb, ◌==◌, if◌then◌else◌, arith,
}
use operating_systems.Str.{Bytes, strncpy}
use operating_systems.Str.Copy.{padded, strncpy_lem}
use operating_systems.Str.Compare.{SameStr, strncmp-zero_iff}
use operating_systems.Blocks.Map.{Disk, Superblock}
use operating_systems.Inode.Cache.{Dinode}
use operating_systems.Inode.Owned.{byte_at}
use operating_systems.Inode.Kept.{Kept, Kept-refl, Kept-trans}
use operating_systems.Dir.Entries.{
  is_zero, namecmp, entry_inum, entry_name, read_entry, find_empty, new_entry,
}
use operating_systems.Dir.Lookup.{IsDir, IsDir-Kept, ReadsEntry, read_entry_lem}

padded-name : (t : Bytes) (i : ℕ) → ((j : ℕ) → j < i → t j ≢ 0) → padded t i ≡ t i
padded-name t zero some_bytes = refl
padded-name t (suc i) some_bytes =
    (let first : (t 0 == 0) ≡ false = (let n = some_bytes 0 (omega arith) in ground arith) in
      rw (first) (padded-name (λ k. t (suc k)) i (λ j lt. some_bytes (suc j) (omega arith))))

-- The number of the entry is in its first two bytes, the name behind them.
new_name :
    (name : Bytes) (inum i : ℕ)
    → entry_name (new_entry name inum) i ≡ strncpy 2 name 14 (λ x. 0) (2 + i)
new_name name inum i = ground arith

-- The entry that is made has the name and the number.
pub new_entry_lem :
    (name : Bytes) (inum : ℕ)
    → inum < 65536
    → inum ≢ 0
    → (not (entry_inum (new_entry name inum) == 0)
        && is_zero (namecmp name (entry_name (new_entry name inum))))
      ≡ true
unfolding namecmp
new_entry_lem name inum lt nz =
    let (inside, outside) = strncpy_lem 14 2 name (λ x. 0) in
    let same : SameStr name (entry_name (new_entry name inum)) 14 =
      (λ i l before. sym (new_name name inum i ∙ inside i l ∙ padded-name name i before)) in
    let (to, from) = strncmp-zero_iff name (entry_name (new_entry name inum)) 14 in
    let number : (entry_inum (new_entry name inum) == 0) ≡ false = ground arith in
    rw (number, from same) refl

-- An offset in the directory, or its end, where no entry is in use.
abbrev pub EmptyAt : Superblock → Dinode → Disk → ℕ → Option (ℕ × Dinode × Disk) → Type 0
EmptyAt sb dp d start none = ⊥
EmptyAt sb dp d start (some (off, dp', d')) =
    (off ≤ dp.size)
    × (off % 16 ≡ 0)
    × (off < dp.size → entry_inum (λ i. byte_at dp d (off + i)) ≡ 0)
    × Kept sb dp d dp' d'

pub find_empty_lem :
    (fuel : ℕ) (sb : Superblock) (off : ℕ) (dp : Dinode) (d : Disk)
    → IsDir sb dp d
    → off % 16 ≡ 0
    → dp.size < off + fuel
    → off ≤ dp.size
    → EmptyAt sb dp d off (find_empty fuel sb off dp d)
unfolding find_empty ReadsEntry
find_empty_lem zero sb off dp d ok al enough top =
    (top, al, (λ lt. absurd (omega arith)), Kept-refl sb dp d ok.sound)
find_empty_lem (suc fuel) sb off dp d ok al enough top = elim (Bool-cases (ltb off dp.size)) [
  | inr n ↦ rw (n) (top, al, (λ lt. absurd (ground arith)), Kept-refl sb dp d ok.sound)
  | inl y ↦
      let whole = ok.whole in
      let small = ok.small in
      rw (y) (
        look (read_entry sb dp off d) (read_entry_lem sb dp off d ok (ground arith)) (ground arith)
          (λ dp' d' ok' size.
            find_empty_lem fuel sb (off + 16) dp' d' ok' (omega arith) (omega arith)
              (ground arith)))
]
  where
    step :
        (dp' : Dinode) (d' : Disk)
        → Kept sb dp d dp' d'
        → dp'.size ≡ dp.size
        → (r : Option (ℕ × Dinode × Disk)) → EmptyAt sb dp' d' (off + 16) r
        → EmptyAt sb dp d off r
    step dp' d' kept size none h = h
    step dp' d' kept size (some (at, dp'', d'')) (le, m, unused, kept') =
        let small = ok.small in
        (
          omega arith,
          m,
          (λ lt.
              sym (
                ap₂ (λ x y. x + y * 256) (kept.bytes (at + 0) (omega arith))
                  (kept.bytes (at + 1) (omega arith)))
              ∙ unused (omega arith)),
          Kept-trans sb dp dp' dp'' d d' d'' kept kept',
        )

    look :
        (o : Option (Bytes × Dinode × Disk))
        → ReadsEntry sb dp off d o
        → off < dp.size
        → ((dp' : Dinode) (d' : Disk)
            → IsDir sb dp' d'
            → dp'.size ≡ dp.size
            → EmptyAt sb dp' d' (off + 16) (find_empty fuel sb (off + 16) dp' d'))
        → EmptyAt sb dp d off (
            o >>= λ (de, dp', d').
            if entry_inum de == 0
            then some (off, dp', d')
            else find_empty fuel sb (add32 off 16) dp' d')
    look none h lt later = absurd h
    look (some (de, dp', d')) (bytes, kept) lt later =
        let (ok', size) = IsDir-Kept sb dp dp' d d' ok kept in
        let jump : add32 off 16 ≡ off + 16 = (let small = ok.small in omega arith) in
        elim (Bool-cases (entry_inum de == 0)) [
          | inl z ↦ rw (z) (
            top,
            al,
            (λ l.
                ap₂ (λ a b. a + b * 256) (sym (bytes 0 (omega arith))) (sym (bytes 1 (omega arith)))
                ∙ ground arith),
            kept,
          )
          | inr z ↦ rw (z, jump) (step dp' d' kept size _ (later dp' d' ok' size))
        ]
