-- ===== src/Inode/Mapped.antt =====
-- What a call of `bmap` of HW3/fs.c promises, panic included.
use operating_systems.Base.{
  ℕ, true, ◌+◌, ◌-◌, ◌*◌, ◌<◌, ◌≤◌, ◌≡◌, ◌≢◌, inl, inr, refl, sym, ◌∙◌, subst, Bool-cases, Option,
  some, none, ◌>>=◌, ltb, ◌==◌, arith, get_or, set,
}
use operating_systems.Str.{store_word}
use operating_systems.Kalloc.{load_word}
use operating_systems.Log.Store.{put_at}
use operating_systems.Blocks.Map.{Disk, Superblock, balloc}
use operating_systems.Blocks.Effects.{Fresh, Allocates, balloc_lem}
use operating_systems.Inode.Cache.{Dinode}
use operating_systems.Inode.Owned.{owned, Sound, Extends}
use operating_systems.Inode.Kept.{with_addrs, Kept, Kept-refl, Kept-trans, Extends-Kept}
use operating_systems.Inode.Mapping.{direct-Extends, table-Extends, indirect-Extends, c_some}
use operating_systems.Inode.Bmap.{direct_block, indirect_block, bmap}

-- Block `k` of the file after the call; none is the panic, with no block there before.
abbrev pub Mapped : Superblock → Dinode → Disk → ℕ → Option (ℕ × Dinode × Disk) → Type 0
Mapped sb ip d k none = owned ip d k ≡ 0
Mapped sb ip d k (some (a, ip', d')) = Kept sb ip d ip' d' × (a ≢ 0) × (owned ip' d' k ≡ a)

module _ (sb : Superblock) (ip : Dinode) (d : Disk) (ok : Sound sb ip d) where
  -- The entry `i` of the addresses is the file's block `k`.
  slot_lem :
      (i k : ℕ)
      → k ≤ 140
      → owned ip d k ≡ get_or ip.addrs i 0
      → ((c : ℕ) (d' : Disk)
          → Fresh sb d c d'
          → get_or ip.addrs i 0 ≡ 0
          → Extends sb ip d k c (with_addrs (set ip.addrs i c) ip) d' d')
      → Mapped sb ip d k (direct_block sb i ip d)
  unfolding direct_block
  slot_lem i k le is extends = elim (Bool-cases (get_or ip.addrs i 0 == 0)) [
    | inr n ↦ rw (n) (Kept-refl sb ip d ok, ground arith, is)
    | inl z ↦ rw (z) (taken (balloc sb d) (balloc_lem sb d ok.map_used) (ground arith))
  ]
    where
      taken :
          (o : Option (ℕ × Disk))
          → Allocates sb d o
          → get_or ip.addrs i 0 ≡ 0
          → Mapped sb ip d k
              (o >>= λ (addr, d'). some (addr, with_addrs (set ip.addrs i addr) ip, d'))
      taken none full z = is ∙ z
      taken (some (c, d')) fresh z =
          let e = extends c d' fresh z in
          (
            Extends-Kept sb ip _ d d' d' k c ok e refl,
            c_some sb ip d d' c ok fresh,
            e.owns k le ∙ ground arith,
          )

  direct_lem : (i : ℕ) → i < 12 → Mapped sb ip d i (direct_block sb i ip d)
  direct_lem i lt =
      slot_lem i i (omega arith) (ground arith)
        (λ c d' fresh z. direct-Extends sb ip d d' c ok fresh i lt z)

  table_lem : Mapped sb ip d 140 (direct_block sb 12 ip d)
  table_lem =
      slot_lem 12 140 (omega arith) refl (λ c d' fresh z. table-Extends sb ip d d' c ok fresh z)

  indirect_lem :
      (k table : ℕ)
      → k < 128
      → table ≢ 0
      → owned ip d 140 ≡ table
      → Mapped sb ip d (k + 12) (indirect_block sb table k d >>= λ (a, d'). some (a, ip, d'))
  unfolding indirect_block
  indirect_lem k table lt nz is =
      subst (λ t. Mapped sb ip d (k + 12) (indirect_block sb t k d >>= λ (a, d'). some (a, ip, d')))
        is
        (elim (Bool-cases (load_word (4 * k) (d (get_or ip.addrs 12 0)) == 0)) [
          | inr n ↦ rw (n) (Kept-refl sb ip d ok, ground arith, ground arith)
          | inl z ↦ rw (z) (taken (balloc sb d) (balloc_lem sb d ok.map_used) (ground arith))
        ])
    where
      here : get_or ip.addrs 12 0 ≢ 0
      here q = nz (sym is ∙ q)

      taken :
          (o : Option (ℕ × Disk))
          → Allocates sb d o
          → load_word (4 * k) (d (get_or ip.addrs 12 0)) ≡ 0
          → Mapped sb ip d (k + 12) (
              (o >>= λ (addr, d'). some (
                addr,
                put_at d'
                    (get_or ip.addrs 12 0)
                    (store_word (4 * k) addr (d' (get_or ip.addrs 12 0))),
              ))
              >>= λ (a, d'). some (a, ip, d'))
      taken none full z = ground arith
      taken (some (c, d')) fresh z =
          let e = indirect-Extends sb ip d d' c ok fresh k lt here z in
          (
            Extends-Kept sb ip ip d d' _ (k + 12) c ok e refl,
            c_some sb ip d d' c ok fresh,
            e.owns (k + 12) (omega arith) ∙ ground arith,
          )

-- A hole is one before the table came as well.
through_table :
    (sb : Superblock) (ip ip' : Dinode) (d d' : Disk) (k : ℕ) (o : Option (ℕ × Dinode × Disk))
    → k ≤ 140
    → Kept sb ip d ip' d'
    → Mapped sb ip' d' k o
    → Mapped sb ip d k o
through_table sb ip ip' d d' k none le kept hole = elim (Bool-cases (owned ip d k == 0)) [
  | inl z ↦ ground arith
  | inr n ↦ let same = kept.grows k le (ground arith) in sym same ∙ hole
]
through_table sb ip ip' d d' k (some (a, ip'', d'')) le kept (later, nz, is) =
    (Kept-trans sb ip ip' ip'' d d' d'' kept later, nz, is)

-- For a block that an inode can have, `bmap` gives its address, which is not zero, and keeps the
-- inode sound, the bytes of the file, the blocks that it had and those of others. It panics only when
-- the block was not there.
pub bmap_lem :
    (sb : Superblock) (ip : Dinode) (d : Disk) (k : ℕ)
    → Sound sb ip d
    → k < 140
    → Mapped sb ip d k (bmap sb k ip d)
unfolding bmap
bmap_lem sb ip d k ok lt = elim (Bool-cases (ltb k 12)) [
  | inl y ↦ rw (y) (direct_lem sb ip d ok k (ground arith))
  | inr n ↦
      let in_table : ltb (k - 12) 128 ≡ true = ground arith in
      rw (n, in_table) (in_block (direct_block sb 12 ip d) (table_lem sb ip d ok) (ground arith))
]
  where
    in_block :
        (o : Option (ℕ × Dinode × Disk))
        → Mapped sb ip d 140 o
        → 12 ≤ k
        → Mapped sb ip d k (
            o >>= λ (table, ip', d').
            indirect_block sb table (k - 12) d' >>= λ (addr, d''). some (addr, ip', d''))
    in_block none hole ge = ground arith
    in_block (some (table, ip', d')) (kept, nz, is) ge =
        through_table sb ip ip' d d' k _ (omega arith) kept (
          let back : k - 12 + 12 ≡ k = omega arith in
          subst
            (λ j.
              Mapped sb ip' d' j
                (indirect_block sb table (k - 12) d' >>= λ (a, d''). some (a, ip', d'')))
            back (indirect_lem sb ip' d' kept.sound (k - 12) table (omega arith) nz is))
