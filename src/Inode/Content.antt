-- ===== src/Inode/Content.antt =====
-- HW3/fs.c: `iupdate`, `readi` and `writei`; none is a panic. The memory of the caller and the data of
-- a buffer do not overlap, so `memmove` between them copies (HW3/string.c).
use operating_systems.Base.{
  ℕ, zero, suc, Bool, ◌+◌, ◌-◌, ◌*◌, ◌/◌, ◌%◌, ◌^◌, ◌&&◌, ◌||◌, List, [], ◌∷◌, Option, none, some,
  ◌>>=◌, add32, sub32, ltb, leb, ◌==◌, if◌then◌else◌,
}
use Prim.Native.Nat.{min}
use operating_systems.Base.Int.{ℤ, pos, negsuc}
use operating_systems.Str.{Bytes, store, store_word}
use operating_systems.Str.Move.{within}
use operating_systems.Log.Store.{put_at}
use operating_systems.Blocks.Map.{Disk, Superblock, bsize}
use operating_systems.Inode.Cache.{Dinode}
use operating_systems.Inode.Bmap.{bmap}

-- T_DIR and T_DEV
abbrev pub t_dir : ℕ
t_dir = 1

abbrev pub t_dev : ℕ
t_dev = 3

-- NDEV
abbrev pub ndev : ℕ
ndev = 10

-- MAXFILE * BSIZE
abbrev pub max_bytes : ℕ
max_bytes = 71680

-- A `uint` that is returned as an `int`.
abbrev pub as_int : ℕ → ℤ
as_int n = if ltb n (2 ^ 31) then pos n else negsuc (2 ^ 32 - 1 - n)

-- A `short`, given by its 16 bits, that is negative.
abbrev pub is_negative : ℕ → ℕ → Bool
is_negative width v = leb (2 ^ (width - 1)) v

-- `memmove` of `n` bytes of `src` to `dst`.
abbrev pub copy_bytes : ℕ → ℕ → Bytes → Bytes → Bytes
copy_bytes dst n src m x = if within dst n x then src (x - dst) else m x

abbrev pub store_half : ℕ → ℕ → Bytes → Bytes
store_half a w m = store (store m a (w % 256)) (a + 1) (w / 256 % 256)

unfoldable pub store_words : ℕ → List ℕ → Bytes → Bytes
store_words a [] m = m
store_words a (w ∷ ws) m = store_words (a + 4) ws (store_word a w m)

-- IBLOCK and the place in that block; IPB is 8 and an inode has 64 bytes.
abbrev pub iblock : Superblock → ℕ → ℕ
iblock sb inum = inum / 8 + sb.inodestart

unfoldable pub store_dinode : ℕ → Dinode → Bytes → Bytes
store_dinode a ip m = store_words (a + 12) ip.addrs (
    store_word (a + 8) ip.size (
      store_half (a + 6) ip.nlink
        (store_half (a + 4) ip.minor (store_half (a + 2) ip.major (store_half a ip.kind m)))))

unfoldable pub iupdate : Superblock → ℕ → Dinode → Disk → Disk
iupdate sb inum ip d =
    put_at d (iblock sb inum) (store_dinode (inum % 8 * 64) ip (d (iblock sb inum)))

-- `min(n - tot, BSIZE - off%BSIZE)`, of the `left` bytes that are still to be moved.
abbrev pub chunk : ℕ → ℕ → ℕ
chunk left off = min left (bsize - off % bsize)

-- The loop of `readi`. The fuel is the number of bytes, and each round moves one at least.
unfoldable pub read_chunks :
    Superblock → ℕ → ℕ → ℕ → ℕ → Dinode → Disk → Bytes → Option (Dinode × Disk × Bytes)
read_chunks sb zero left off dst ip d mem = some (ip, d, mem)
read_chunks sb (suc fuel) left off dst ip d mem =
    if left == 0
    then some (ip, d, mem)
    else (bmap sb (off / bsize) ip d >>= λ (a, ip', d').
        read_chunks sb fuel (left - chunk left off) (off + chunk left off) (dst + chunk left off)
          ip' d' (copy_bytes dst (chunk left off) (λ i. d' a (off % bsize + i)) mem))

-- The loop of `writei`.
unfoldable pub write_chunks :
    Superblock → ℕ → ℕ → ℕ → Bytes → Dinode → Disk → Option (Dinode × Disk)
write_chunks sb zero left off src ip d = some (ip, d)
write_chunks sb (suc fuel) left off src ip d =
    if left == 0
    then some (ip, d)
    else (bmap sb (off / bsize) ip d >>= λ (a, ip', d').
        write_chunks sb fuel (left - chunk left off) (off + chunk left off)
          (λ i. src (chunk left off + i)) ip'
          (put_at d' a (copy_bytes (off % bsize) (chunk left off) src (d' a))))

-- `readi` of `n` bytes at `off` to the address `dst`. `device` is the table of the `read` functions.
unfoldable pub readi :
    Superblock
    → (ℕ → Option (ℕ → ℕ → Bytes → ℤ × Bytes))
    → Dinode
    → ℕ
    → ℕ
    → ℕ
    → Disk
    → Bytes
    → Option (ℤ × Dinode × Disk × Bytes)
readi sb device ip dst off n d mem =
    if ip.kind == t_dev
    then (if is_negative 16 ip.major || leb ndev ip.major
        then some (negsuc 0, ip, d, mem)
        else elim (device ip.major) [
          | none ↦ some (negsuc 0, ip, d, mem)
          | some read ↦ let (r, mem') = read dst n mem in some (r, ip, d, mem')
        ])
    else if ltb ip.size off || ltb (add32 off n) off
    then some (negsuc 0, ip, d, mem)
    else (let m = if ltb ip.size (add32 off n) then sub32 ip.size off else n in
        read_chunks sb m m off dst ip d mem >>= λ (ip', d', mem'). some (as_int m, ip', d', mem'))

abbrev pub grow_to : Superblock → ℕ → ℕ → ℕ → Dinode × Disk → Dinode × Disk
grow_to sb inum n off (ip, d) =
    if ltb 0 n && ltb ip.size off
    then (record ip { size = off }, iupdate sb inum (record ip { size = off }) d)
    else (ip, d)

-- `writei` of the `n` bytes of `src` at `off`.
unfoldable pub writei :
    Superblock
    → (ℕ → Option (Bytes → ℕ → ℤ))
    → ℕ
    → Dinode
    → Bytes
    → ℕ
    → ℕ
    → Disk
    → Option (ℤ × Dinode × Disk)
writei sb device inum ip src off n d =
    if ip.kind == t_dev
    then (if is_negative 16 ip.major || leb ndev ip.major
        then some (negsuc 0, ip, d)
        else elim (device ip.major) [
          | none ↦ some (negsuc 0, ip, d)
          | some write ↦ some (write src n, ip, d)
        ])
    else if ltb ip.size off || ltb (add32 off n) off
    then some (negsuc 0, ip, d)
    else if ltb max_bytes (add32 off n)
    then some (negsuc 0, ip, d)
    else (write_chunks sb n n off src ip d >>= λ (ip', d').
        let (ip'', d'') = grow_to sb inum n (off + n) (ip', d') in some (as_int n, ip'', d''))
