-- ===== src/Inode/ReadBack.antt =====
-- `readi` of HW3/fs.c behind `writei`.
use Prim.Native.Nat.{min}
use operating_systems.Base.{
  ℕ, ◌+◌, ◌-◌, ◌^◌, ◌≤◌, ◌≡◌, ◌≢◌, inl, inr, refl, sym, ap, ◌∙◌, subst, true, false, Bool-cases,
  Option, some, none, ltb, leb, ◌||◌, if◌then◌else◌, arith,
}
use operating_systems.Base.Int.{ℤ, pos}
use operating_systems.Str.{Bytes}
use operating_systems.Str.Move.{within}
use operating_systems.Blocks.Map.{Disk, Superblock}
use operating_systems.Inode.Cache.{Dinode}
use operating_systems.Inode.Owned.{byte_at, Sound}
use operating_systems.Inode.Kept.{Foreign}
use operating_systems.Inode.Content.{iblock, writei, readi}
use operating_systems.Inode.Files.{Wrote, WriteiSpec, writei_lem}
use operating_systems.Inode.Reads.{Reads, readi_lem}

abbrev answered : Dinode → Disk → Bytes → ℤ → Option (ℤ × Dinode × Disk × Bytes)
answered ip d mem r = some (r, ip, d, mem)

-- The read answers `n` and puts the first `n` bytes of `src` to `dst`.
abbrev pub ReadsBack : Option (ℤ × Dinode × Disk × Bytes) → ℕ → ℕ → Bytes → Bytes → Type 0
ReadsBack o dst n src mem =
    (ip'' : Dinode) × (d'' : Disk) × (mem' : Bytes) × (o ≡ some (pos n, ip'', d'', mem'))
    × ((x : ℕ) → mem' x ≡ (if within dst n x then src (x - dst) else mem x))

module _ (sb : Superblock) (inum : ℕ) (ip ip' : Dinode) (src : Bytes) (off n dst : ℕ) (d d' : Disk)
    (mem : Bytes) (r : ℤ) (top : off + n ≤ 71680) (w : Wrote sb inum ip d off n src r ip' d') where
  range_bytes :
      (x : ℕ)
      → (if within dst n x then byte_at ip' d' (off + (x - dst)) else mem x)
        ≡ (if within dst n x then src (x - dst) else mem x)
  range_bytes x = elim (Bool-cases (within dst n x)) [
    | inr y ↦ rw (y) refl
    | inl y ↦
        let inside : within off n (off + (x - dst)) ≡ true = ground arith in
        let place : off + (x - dst) - off ≡ x - dst = omega arith in
        let written : byte_at ip' d' (off + (x - dst)) ≡ src (x - dst) =
          w.bytes (off + (x - dst)) (ground arith) ∙ rw (inside, place) refl in
        rw (y) written
  ]

  reads_back :
      (o o' : Option (ℤ × Dinode × Disk × Bytes))
      → o ≡ o'
      → Reads sb ip' d' off n dst mem o'
      → ReadsBack o dst n src mem
  reads_back o none e (p, low, high, z) = absurd (w.no_hole p low high z)
  reads_back o (some (r', ip'', d'', mem')) e (answer, kept, bytes) =
      (ip'', d'', mem', e ∙ ap (answered ip'' d'' mem') answer, λ x. bytes x ∙ range_bytes x)

-- What `writei` wrote `readi` reads: for a sound file and a range that starts within it and does not
-- pass the longest file, after a write of `n` bytes that returns, `readi` of the same range answers `n`
-- and gives those bytes; it does not panic.
pub readi-writei :
    (sb : Superblock) (write_device : ℕ → Option (Bytes → ℕ → ℤ))
    (read_device : ℕ → Option (ℕ → ℕ → Bytes → ℤ × Bytes)) (inum : ℕ) (ip ip' : Dinode)
    (src : Bytes) (off n dst : ℕ) (d d' : Disk) (mem : Bytes) (r : ℤ)
    → Sound sb ip d
    → Foreign sb ip d (iblock sb inum)
    → ip.kind ≢ 3
    → off ≤ ip.size
    → ip.size ≤ 71680
    → off + n ≤ 71680
    → writei sb write_device inum ip src off n d ≡ some (r, ip', d')
    → ReadsBack (readi sb read_device ip' dst off n d' mem) dst n src mem
readi-writei sb write_device read_device inum ip ip' src off n dst d d' mem r ok own file inside
      small top wrote =
    let good : ltb ip.size off || ltb 71680 (off + n) ≡ false = ground arith in
    let spec =
      subst (WriteiSpec sb inum ip d off n src) wrote
        (writei_lem sb write_device inum ip src off n d ok own file (omega arith) (omega arith)) in
    let w : Wrote sb inum ip d off n src r ip' d' = rw (good) at spec in
    let range : ltb ip'.size off || leb (2 ^ 32) (off + n) ≡ false =
      (let size = w.size in ground arith) in
    let all : min n (ip'.size - off) ≡ n = (let size = w.size in omega arith) in
    let file' : ip'.kind ≢ 3 = (let kind = w.kind in λ z. file (sym kind ∙ z)) in
    let answer =
      readi_lem sb read_device ip' dst off n d' mem w.sound file' (let size = w.size in omega arith)
        (omega arith) (omega arith) in
    reads_back sb inum ip ip' src off n dst d d' mem r top w _ _ refl (rw (range, all) at answer)
