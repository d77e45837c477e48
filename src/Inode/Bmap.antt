-- ===== src/Inode/Bmap.antt =====
-- HW3/fs.c: `bmap` over the addresses of an inode and the blocks; none is a panic.
use operating_systems.Base.{
  ℕ, ◌-◌, ◌*◌, Option, none, some, ◌>>=◌, get_or, set, ltb, ◌==◌, if◌then◌else◌,
}
use operating_systems.Str.{store_word}
use operating_systems.Kalloc.{load_word}
use operating_systems.Log.Store.{put_at}
use operating_systems.Blocks.Map.{Disk, Superblock, balloc}
use operating_systems.Inode.Cache.{Dinode}

-- NDIRECT
abbrev pub ndirect : ℕ
ndirect = 12

-- NINDIRECT
abbrev pub nindirect : ℕ
nindirect = 128

-- `if((addr = ip->addrs[i]) == 0) ip->addrs[i] = addr = balloc(ip->dev);`
unfoldable pub direct_block : Superblock → ℕ → Dinode → Disk → Option (ℕ × Dinode × Disk)
direct_block sb i ip d =
    if get_or ip.addrs i 0 == 0
    then (balloc sb d >>= λ (addr, d'). some (addr, record ip { addrs = set ip.addrs i addr }, d'))
    else some (get_or ip.addrs i 0, ip, d)

-- Entry `bn` of the block of addresses `table`, allocated if it is zero.
unfoldable pub indirect_block : Superblock → ℕ → ℕ → Disk → Option (ℕ × Disk)
indirect_block sb table bn d =
    if load_word (4 * bn) (d table) == 0
    then (balloc sb d >>= λ (addr, d').
        some (addr, put_at d' table (store_word (4 * bn) addr (d' table))))
    else some (load_word (4 * bn) (d table), d)

unfoldable pub bmap : Superblock → ℕ → Dinode → Disk → Option (ℕ × Dinode × Disk)
bmap sb bn ip d =
    if ltb bn ndirect
    then direct_block sb bn ip d
    else if ltb (bn - ndirect) nindirect
    then (direct_block sb ndirect ip d >>= λ (table, ip', d').
        indirect_block sb table (bn - ndirect) d' >>= λ (addr, d''). some (addr, ip', d''))
    else none
