-- ===== src/Inode/Files.antt =====
-- `writei` of HW3/fs.c, and `readi` of what it wrote.
use Prim.Native.Nat.{max}
use operating_systems.Base.{
  ℕ, ◌+◌, ◌-◌, ◌/◌, ◌^◌, ◌<◌, ◌≤◌, ◌≡◌, ◌≢◌, inl, inr, refl, sym, ap, ◌∙◌, true, false, Bool-cases,
  Option, some, none, ◌>>=◌, ltb, ◌&&◌, ◌||◌, ◌==◌, if◌then◌else◌, arith, add32,
}
use operating_systems.Base.Int.{ℤ, pos, negsuc}
use operating_systems.Str.{Bytes}
use operating_systems.Str.Move.{within}
use operating_systems.Log.Store.{put_at}
use operating_systems.Blocks.Map.{Disk, Superblock}
use operating_systems.Inode.Cache.{Dinode}
use operating_systems.Inode.Owned.{owned, byte_at, Sound}
use operating_systems.Inode.Kept.{Foreign}
use operating_systems.Inode.Change.{owned_change, Sound-change, byte_change}
use operating_systems.Inode.Content.{as_int, iblock, iupdate, grow_to, writei}
use operating_systems.Inode.Reads.{Hole}
use operating_systems.Inode.Writes.{WritesTo, write_chunks_lem}

-- What `writei` of `n` bytes leaves: the answer `n`, a sound inode that is long enough, the bytes in
-- the file and all others as they were, no hole in the range, and other blocks but that of the inode.
pub record Wrote (sb : Superblock) (inum : ℕ) (ip : Dinode) (d : Disk) (off n : ℕ) (src : Bytes)
    (r : ℤ) (ip' : Dinode) (d' : Disk) : Type 0 where
  pub answer : r ≡ pos n
  pub sound : Sound sb ip' d'
  pub bytes :
      (p : ℕ)
      → p < 71680
      → byte_at ip' d' p ≡ (if within off n p then src (p - off) else byte_at ip d p)
  pub size : ip'.size ≡ max ip.size (off + n)
  pub kind : ip'.kind ≡ ip.kind
  pub grows : (k : ℕ) → k ≤ 140 → owned ip d k ≢ 0 → owned ip' d' k ≡ owned ip d k
  pub no_hole : (p : ℕ) → off ≤ p → p < off + n → owned ip' d' (p / 512) ≢ 0
  pub frame : (b : ℕ) → Foreign sb ip d b → b ≢ iblock sb inum → d' b ≡ d b

abbrev pub WritesFile :
    Superblock → ℕ → Dinode → Disk → ℕ → ℕ → Bytes → Option (ℤ × Dinode × Disk) → Type 0
WritesFile sb inum ip d off n src none = Hole ip d off n
WritesFile sb inum ip d off n src (some (r, ip', d')) = Wrote sb inum ip d off n src r ip' d'

-- The length of an inode is none of what makes it sound.
Sound-resize :
    (sb : Superblock) (ip : Dinode) (d : Disk) (n : ℕ)
    → Sound sb ip d
    → Sound sb (record ip { size = n }) d
Sound-resize sb ip d n s = record {
  map_used = s.map_used;
  map_fits = s.map_fits;
  boot_used = s.boot_used;
  slots = s.slots;
  nonempty = s.nonempty;
  words = s.words;
  used = s.used;
  off_map = s.off_map;
  once = s.once;
}

-- A change of a block that is not the file's leaves the file.
module _ (sb : Superblock) (ip : Dinode) (d : Disk) (b : ℕ) (m : Bytes) (ok : Sound sb ip d)
    (f : Foreign sb ip d b) where
  foreign_Sound : Sound sb ip (put_at d b m)
  foreign_Sound = Sound-change sb ip d b m ok f.not_map (f.not_owned 140 (omega arith))

  foreign_owned : (k : ℕ) → owned ip (put_at d b m) k ≡ owned ip d k
  foreign_owned k = owned_change sb ip d b m ok f.not_map (f.not_owned 140 (omega arith)) k

  foreign_byte : (p : ℕ) → p < 71680 → byte_at ip (put_at d b m) p ≡ byte_at ip d p
  foreign_byte p lt =
      byte_change sb ip d b m ok f.not_map (f.not_owned 140 (omega arith)) p
      ∙ (let ne = f.not_owned (p / 512) (omega arith) in
          let other : (owned ip d (p / 512) == b) ≡ false = ground arith in rw (other) refl)

chunks-WritesFile :
    (sb : Superblock) (inum : ℕ) (ip : Dinode) (d : Disk) (off n : ℕ) (src : Bytes)
    (o : Option (Dinode × Disk))
    → Foreign sb ip d (iblock sb inum)
    → off ≤ ip.size
    → off + n ≤ 71680
    → WritesTo sb ip d off n src o
    → WritesFile sb inum ip d off n src (
        o >>= λ (ip', d').
        let (ip'', d'') = grow_to sb inum n (off + n) (ip', d') in some (as_int n, ip'', d''))
unfolding iupdate
chunks-WritesFile sb inum ip d off n src none own inside top hole = hole
chunks-WritesFile sb inum ip d off n src (some (ip', d')) own inside top w =
    let same_size : ip'.size ≡ ip.size = ap (λ (q : Dinode). q.size) w.rest in
    let same_kind : ip'.kind ≡ ip.kind = ap (λ (q : Dinode). q.kind) w.rest in
    elim (Bool-cases (ltb 0 n && ltb ip'.size (off + n))) [
      | inl y ↦ rw (y) (
          let (same, own') = w.frame _ own in
          record {
            answer = ground arith;
            sound = Sound-resize sb ip' _ (off + n) (foreign_Sound sb ip' d' _ _ w.sound own');
            bytes = λ p lt. foreign_byte sb ip' d' _ _ w.sound own' p lt ∙ w.bytes p lt;
            size = ground arith;
            kind = same_kind;
            grows = λ k le nz. foreign_owned sb ip' d' _ _ w.sound own' k ∙ w.grows k le nz;
            no_hole = λ p low high z.
                w.no_hole p low high (sym (foreign_owned sb ip' d' _ _ w.sound own' (p / 512)) ∙ z);
            frame = λ b f ne.
                let (kept, f') = w.frame b f in
                (let other : (b == iblock sb inum) ≡ false = ground arith in rw (other) kept);
          })
      | inr y ↦ rw (y) (record {
        answer = ground arith;
        sound = w.sound;
        bytes = w.bytes;
        size = ground arith;
        kind = same_kind;
        grows = w.grows;
        no_hole = w.no_hole;
        frame = λ b f ne. let (same, f') = w.frame b f in same;
      })
    ]

-- The branches of `writei` for a file.
abbrev pub WriteiSpec :
    Superblock → ℕ → Dinode → Disk → ℕ → ℕ → Bytes → Option (ℤ × Dinode × Disk) → Type 0
WriteiSpec sb inum ip d off n src o =
    if ltb ip.size off || ltb 71680 (off + n)
    then o ≡ some (negsuc 0, ip, d)
    else WritesFile sb inum ip d off n src o

-- For a sound file whose inode's own block is in use and none of the file's, `writei` answers -1 and
-- does nothing where the offset lies behind the end of the file or the range passes the longest file;
-- otherwise it answers the number of bytes, the file has the new bytes in the range and its old ones
-- elsewhere, it is as long as it was or as the end of the range, and no block of another file changes.
-- It panics only where a block of the range was not there.
pub writei_lem :
    (sb : Superblock) (device : ℕ → Option (Bytes → ℕ → ℤ)) (inum : ℕ) (ip : Dinode) (src : Bytes)
    (off n : ℕ) (d : Disk)
    → Sound sb ip d
    → Foreign sb ip d (iblock sb inum)
    → ip.kind ≢ 3
    → off < 2 ^ 32
    → n < 2 ^ 32
    → WriteiSpec sb inum ip d off n src (writei sb device inum ip src off n d)
unfolding writei
writei_lem sb device inum ip src off n d ok own file lo ln =
    elim (Bool-cases (ltb ip.size off || ltb (add32 off n) off)) [
      | inl y ↦
          let bad : ltb ip.size off || ltb 71680 (off + n) ≡ true = ground arith in
          rw (y, not_dev, bad) refl
      | inr y ↦ elim (Bool-cases (ltb 71680 (off + n))) [
        | inl z ↦
            let bad : ltb ip.size off || ltb 71680 (off + n) ≡ true = ground arith in
            let over : ltb 71680 (add32 off n) ≡ true = ground arith in
            rw (y, not_dev, over, bad) refl
        | inr z ↦
            let good : ltb ip.size off || ltb 71680 (off + n) ≡ false = ground arith in
            let fits : ltb 71680 (add32 off n) ≡ false = ground arith in
            rw (y, not_dev, fits, good)
              (chunks-WritesFile sb inum ip d off n src _ own (ground arith) (ground arith)
                (write_chunks_lem sb n n off src ip d ok (omega arith) (ground arith)))
      ]
    ]
  where
    not_dev : ip.kind == 3 ≡ false
    not_dev = ground arith
