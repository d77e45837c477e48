-- ===== src/Inode/Reads.antt =====
-- `readi` of HW3/fs.c gives the bytes of the file.
use operating_systems.Base.{
  ℕ, zero, suc, ◌+◌, ◌-◌, ◌/◌, ◌%◌, ◌^◌, ◌<◌, ◌≤◌, ◌≡◌, ◌≢◌, inl, inr, refl, sym, ◌∙◌, true, false,
  Bool-cases, Option, some, none, ◌>>=◌, ltb, leb, ◌||◌, ◌==◌, if◌then◌else◌, arith, add32, sub32,
}
use Prim.Native.Nat.{min}
use operating_systems.Base.Int.{ℤ, pos, negsuc}
use operating_systems.Str.{Bytes}
use operating_systems.Str.Move.{within}
use operating_systems.Blocks.Map.{Disk, Superblock}
use operating_systems.Inode.Cache.{Dinode}
use operating_systems.Inode.Owned.{owned, byte_at, Sound}
use operating_systems.Inode.Kept.{Kept, Kept-refl, Kept-trans}
use operating_systems.Inode.Bmap.{bmap}
use operating_systems.Inode.Mapped.{Mapped, bmap_lem}
use operating_systems.Inode.Content.{copy_bytes, chunk, as_int, read_chunks, readi}

-- A position of the `n` from `off` on whose block the file has not.
abbrev pub Hole : Dinode → Disk → ℕ → ℕ → Type 0
Hole ip d off n = (p : ℕ) × (off ≤ p) × (p < off + n) × (owned ip d (p / 512) ≡ 0)

-- What the loop of `readi` does: the bytes of the file at the destination, or a panic in a hole.
abbrev pub ReadsTo :
    Superblock → Dinode → Disk → ℕ → ℕ → ℕ → Bytes → Option (Dinode × Disk × Bytes) → Type 0
ReadsTo sb ip d off n dst mem none = Hole ip d off n
ReadsTo sb ip d off n dst mem (some (ip', d', mem')) =
    Kept sb ip d ip' d'
    × ((x : ℕ) → mem' x ≡ (if within dst n x then byte_at ip d (off + (x - dst)) else mem x))

-- A hole that is left after blocks were mapped was one before.
pub Hole-before :
    (ip ip' : Dinode) (d d' : Disk) (off n m : ℕ)
    → off + n ≤ 71680
    → m ≤ n
    → ((k : ℕ) → k ≤ 140 → owned ip d k ≢ 0 → owned ip' d' k ≡ owned ip d k)
    → Hole ip' d' (off + m) (n - m)
    → Hole ip d off n
Hole-before ip ip' d d' off n m top le grows (p, low, high, z) = (
  p,
  omega arith,
  omega arith,
  elim (Bool-cases (owned ip d (p / 512) == 0)) [
    | inl y ↦ ground arith
    | inr y ↦ sym (grows (p / 512) (omega arith) (ground arith)) ∙ z
  ],
)

module _ (sb : Superblock) (ip ip' : Dinode) (d d' : Disk) (off a : ℕ) (top : off < 71680)
    (kept : Kept sb ip d ip' d') (nz : a ≢ 0) (is : owned ip' d' (off / 512) ≡ a) where
  -- The bytes of the block that holds position `off`.
  pub block_bytes : (i : ℕ) → off % 512 + i < 512 → d' a (off % 512 + i) ≡ byte_at ip d (off + i)
  block_bytes i lt =
      let block : (off + i) / 512 ≡ off / 512 = omega arith in
      let place : (off + i) % 512 ≡ off % 512 + i = omega arith in
      let there : byte_at ip' d' (off + i) ≡ d' a (off % 512 + i) =
        rw (block, place, is) (ground arith) in
      sym there ∙ kept.bytes (off + i) (omega arith)

-- The first `m` bytes and those behind them are all.
join_chunks :
    (f g h mem : Bytes) (off dst left m x : ℕ)
    → m ≤ left
    → off + left ≤ 71680
    → ((p : ℕ) → p < 71680 → f p ≡ g p)
    → ((i : ℕ) → i < m → h i ≡ g (off + i))
    → (if within (dst + m) (left - m) x
        then f (off + m + (x - (dst + m)))
        else copy_bytes dst m h mem x)
      ≡ (if within dst left x then g (off + (x - dst)) else mem x)
join_chunks f g h mem off dst left m x le top same first =
    elim (Bool-cases (within (dst + m) (left - m) x)) [
      | inl y ↦
          let all : within dst left x ≡ true = ground arith in
          let place : off + m + (x - (dst + m)) ≡ off + (x - dst) = ground arith in
          rw (y, all, place) (same (off + (x - dst)) (ground arith))
      | inr n ↦ elim (Bool-cases (within dst m x)) [
        | inl y ↦
            let all : within dst left x ≡ true = ground arith in
            rw (n, y, all) (first (x - dst) (ground arith))
        | inr k ↦ let all : within dst left x ≡ false = ground arith in rw (n, k, all) refl
      ]
    ]

read_chunks_lem :
    (sb : Superblock) (fuel left off dst : ℕ) (ip : Dinode) (d : Disk) (mem : Bytes)
    → Sound sb ip d
    → left ≤ fuel
    → off + left ≤ 71680
    → ReadsTo sb ip d off left dst mem (read_chunks sb fuel left off dst ip d mem)
unfolding read_chunks
read_chunks_lem sb zero left off dst ip d mem ok enough top =
    (Kept-refl sb ip d ok, λ x. ground arith)
read_chunks_lem sb (suc fuel) left off dst ip d mem ok enough top = elim (Bool-cases (left == 0)) [
  | inl z ↦ rw (z) (Kept-refl sb ip d ok, λ x. ground arith)
  | inr nz ↦ rw (nz) (
      round (bmap sb (off / 512) ip d) (bmap_lem sb ip d (off / 512) ok (ground arith))
        (ground arith)
        (λ ip' d' mem' ok'.
          read_chunks_lem sb fuel (left - chunk left off) (off + chunk left off)
            (dst + chunk left off) ip' d' mem' ok' (ground arith) (ground arith)))
]
  where
    next : Dinode → Disk → Bytes → Option (Dinode × Disk × Bytes)
    next ip' d' mem' =
        read_chunks sb fuel (left - chunk left off) (off + chunk left off) (dst + chunk left off)
          ip' d' mem'

    more :
        (a : ℕ) (ip' : Dinode) (d' : Disk)
        → Kept sb ip d ip' d'
        → a ≢ 0
        → owned ip' d' (off / 512) ≡ a
        → left ≢ 0
        → (o : Option (Dinode × Disk × Bytes))
        → ReadsTo sb ip' d'
            (off + chunk left off)
            (left - chunk left off)
            (dst + chunk left off)
            (copy_bytes dst (chunk left off) (λ i. d' a (off % 512 + i)) mem)
            o
        → ReadsTo sb ip d off left dst mem o
    more a ip' d' kept nz is some_left none hole =
        Hole-before ip ip' d d' off left (chunk left off) top (ground arith) kept.grows hole
    more a ip' d' kept nz is some_left (some (ip'', d'', mem'')) (kept', bytes) = (
      Kept-trans sb ip ip' ip'' d d' d'' kept kept',
      λ x.
          bytes x
          ∙ join_chunks (byte_at ip' d') (byte_at ip d) (λ i. d' a (off % 512 + i)) mem off dst left
              (chunk left off) x (ground arith) top kept.bytes
              (λ i lt. block_bytes sb ip ip' d d' off a (omega arith) kept nz is i (ground arith)),
    )

    round :
        (o : Option (ℕ × Dinode × Disk))
        → Mapped sb ip d (off / 512) o
        → left ≢ 0
        → ((ip' : Dinode) (d' : Disk) (mem' : Bytes)
            → Sound sb ip' d'
            → ReadsTo sb ip' d'
                (off + chunk left off)
                (left - chunk left off)
                (dst + chunk left off)
                mem'
                (next ip' d' mem'))
        → ReadsTo sb ip d off left dst mem (
            o >>= λ (a, ip', d').
            next ip' d' (copy_bytes dst (chunk left off) (λ i. d' a (off % 512 + i)) mem))
    round none hole some_left later = (off, omega arith, omega arith, hole)
    round (some (a, ip', d')) (kept, nz, is) some_left later =
        more a ip' d' kept nz is some_left _ (later ip' d' _ kept.sound)

-- What `readi` answers: -1 for a bad range, else the number of bytes and the file's bytes, or a panic
-- in a hole.
abbrev pub Reads :
    Superblock → Dinode → Disk → ℕ → ℕ → ℕ → Bytes → Option (ℤ × Dinode × Disk × Bytes) → Type 0
Reads sb ip d off n dst mem none = Hole ip d off n
Reads sb ip d off n dst mem (some (r, ip', d', mem')) =
    (r ≡ pos n)
    × Kept sb ip d ip' d'
    × ((x : ℕ) → mem' x ≡ (if within dst n x then byte_at ip d (off + (x - dst)) else mem x))

-- The branches of `readi` for a file.
abbrev pub ReadsFile :
    Superblock → Dinode → Disk → ℕ → ℕ → ℕ → Bytes → Option (ℤ × Dinode × Disk × Bytes) → Type 0
ReadsFile sb ip d off n dst mem o =
    if ltb ip.size off || leb (2 ^ 32) (off + n)
    then o ≡ some (negsuc 0, ip, d, mem)
    else Reads sb ip d off (min n (ip.size - off)) dst mem o

chunks-Reads :
    (sb : Superblock) (ip : Dinode) (d : Disk) (off n dst : ℕ) (mem : Bytes)
    (o : Option (Dinode × Disk × Bytes))
    → n ≤ 71680
    → ReadsTo sb ip d off n dst mem o
    → Reads sb ip d off n dst mem (o >>= λ (ip', d', mem'). some (as_int n, ip', d', mem'))
chunks-Reads sb ip d off n dst mem none small hole = hole
chunks-Reads sb ip d off n dst mem (some (ip', d', mem')) small (kept, bytes) =
    (ground arith, kept, bytes)

-- For a file that is sound and not longer than an inode can hold, `readi` answers -1 and does nothing
-- where the offset lies behind the file's end or the range passes 2^32; otherwise it puts the bytes of
-- the file from the offset to the destination, as many as were asked for or the file has, answers how
-- many, and keeps the file. It panics only in a hole of that range.
pub readi_lem :
    (sb : Superblock) (device : ℕ → Option (ℕ → ℕ → Bytes → ℤ × Bytes)) (ip : Dinode)
    (dst off n : ℕ) (d : Disk) (mem : Bytes)
    → Sound sb ip d
    → ip.kind ≢ 3
    → ip.size ≤ 71680
    → off < 2 ^ 32
    → n < 2 ^ 32
    → ReadsFile sb ip d off n dst mem (readi sb device ip dst off n d mem)
unfolding readi
readi_lem sb device ip dst off n d mem ok file size lo ln =
    elim (Bool-cases (ltb ip.size off || leb (2 ^ 32) (off + n))) [
      | inl y ↦
          let bad : ltb ip.size off || ltb (add32 off n) off ≡ true = ground arith in
          rw (y, not_dev, bad) refl
      | inr y ↦
          let good : ltb ip.size off || ltb (add32 off n) off ≡ false = ground arith in
          rw (y, not_dev, good, asked (ground arith) (ground arith))
            (chunks-Reads sb ip d off (min n (ip.size - off)) dst mem _ (ground arith)
              (read_chunks_lem sb _ _ off dst ip d mem ok (omega arith) (ground arith)))
    ]
  where
    not_dev : ip.kind == 3 ≡ false
    not_dev = ground arith

    asked :
        off ≤ ip.size
        → off + n < 2 ^ 32
        → (if ltb ip.size (add32 off n) then sub32 ip.size off else n) ≡ min n (ip.size - off)
    asked le fits = ground arith
