-- ===== src/Inode/Trunc.antt =====
-- HW3/fs.c: `itrunc`, `iput`, `ialloc` and `stati`; none is a panic. The lock of the table is held but
-- for the truncation in `iput`, where the inode is marked as busy.
use operating_systems.Base.{
  ℕ, zero, suc, ◌+◌, ◌-◌, ◌*◌, ◌%◌, ◌&&◌, false, List, Option, none, some, ◌>>=◌, get_elem?, get_or,
  set, ◌==◌, if◌then◌else◌,
}
use operating_systems.Str.{Bytes, memset}
use operating_systems.Kalloc.{load_word}
use operating_systems.Log.Store.{put_at}
use operating_systems.Blocks.Map.{Disk, Superblock, bfree}
use operating_systems.Inode.Cache.{Dinode, Inode, iget}
use operating_systems.Inode.Bmap.{ndirect, nindirect}
use operating_systems.Inode.Content.{iblock, iupdate, store_half}

-- The first loop of `itrunc`, over `count` more addresses from `i` on.
unfoldable pub free_direct : ℕ → ℕ → Dinode → Disk → Option (Dinode × Disk)
free_direct zero i ip d = some (ip, d)
free_direct (suc count) i ip d =
    if get_or ip.addrs i 0 == 0
    then free_direct count (i + 1) ip d
    else (bfree (get_or ip.addrs i 0) d >>= λ d'.
        free_direct count (i + 1) (record ip { addrs = set ip.addrs i 0 }) d')

-- The second loop, over the addresses in the buffer `a`.
unfoldable pub free_table : ℕ → ℕ → Bytes → Disk → Option Disk
free_table zero j a d = some d
free_table (suc count) j a d =
    if load_word (4 * j) a == 0
    then free_table count (j + 1) a d
    else (bfree (load_word (4 * j) a) d >>= λ d'. free_table count (j + 1) a d')

-- `if(ip->addrs[NDIRECT])` and its block.
unfoldable pub free_indirect : Dinode → Disk → Option (Dinode × Disk)
free_indirect ip d =
    if get_or ip.addrs ndirect 0 == 0
    then some (ip, d)
    else (free_table nindirect 0 (d (get_or ip.addrs ndirect 0)) d >>= λ d'.
        bfree (get_or ip.addrs ndirect 0) d' >>= λ d''.
        some (record ip { addrs = set ip.addrs ndirect 0 }, d''))

unfoldable pub itrunc : Superblock → ℕ → Dinode → Disk → Option (Dinode × Disk)
itrunc sb inum ip d = free_direct ndirect 0 ip d >>= λ (ip1, d1).
    free_indirect ip1 d1 >>= λ (ip2, d2).
    some (record ip2 { size = 0 }, iupdate sb inum (record ip2 { size = 0 }) d2)

-- The inode without its flags and its blocks, free on the disk.
abbrev pub freed : Superblock → Inode → Disk → Option (Inode × Disk)
freed sb ip d = itrunc sb ip.inum ip.on_disk d >>= λ (q, d'). some (
  record ip { busy = false; valid = false; on_disk = record q { kind = 0 } },
  iupdate sb ip.inum (record q { kind = 0 }) d',
)

-- `iput` of the entry `ip` of the table, up to the count.
abbrev pub last_put : Superblock → Inode → Disk → Option (Inode × Disk)
last_put sb ip d =
    if ip.ref == 1 && ip.valid && ip.on_disk.nlink == 0
    then (if ip.busy then none else freed sb ip d)
    else some (ip, d)

-- A count below 0 is not represented.
unfoldable pub iput : Superblock → ℕ → List Inode → Disk → Option (List Inode × Disk)
iput sb i ips d = get_elem? ips i >>= λ ip.
    last_put sb ip d >>= λ (ip', d'). some (set ips i (record ip' { ref = ip'.ref - 1 }), d')

-- The type of inode `inum` on the disk.
abbrev pub kind_on_disk : Superblock → ℕ → Disk → ℕ
kind_on_disk sb inum d =
    d (iblock sb inum) (inum % 8 * 64) + d (iblock sb inum) (inum % 8 * 64 + 1) * 256

-- The loop of `ialloc` over the `count` inodes from `inum` on.
unfoldable pub ialloc_from :
    Superblock → ℕ → ℕ → ℕ → ℕ → Disk → List Inode → Option (ℕ × List Inode × Disk)
ialloc_from sb dev kind zero inum d ips = none
ialloc_from sb dev kind (suc count) inum d ips =
    if kind_on_disk sb inum d == 0
    then (iget dev inum ips >>= λ (i, ips'). some (
      i,
      ips',
      put_at d (iblock sb inum)
          (store_half (inum % 8 * 64) kind (memset (inum % 8 * 64) 0 64 (d (iblock sb inum)))),
    ))
    else ialloc_from sb dev kind count (inum + 1) d ips

unfoldable pub ialloc : Superblock → ℕ → ℕ → Disk → List Inode → Option (ℕ × List Inode × Disk)
ialloc sb dev kind d ips = ialloc_from sb dev kind (sb.ninodes - 1) 1 d ips

-- `struct stat`
pub record Stat : Type 0 where
  pub kind : ℕ
  pub dev : ℕ
  pub ino : ℕ
  pub nlink : ℕ
  pub size : ℕ

abbrev pub stati : Inode → Stat
stati ip = record {
  kind = ip.on_disk.kind;
  dev = ip.dev;
  ino = ip.inum;
  nlink = ip.on_disk.nlink;
  size = ip.on_disk.size;
}
