-- ===== src/Dir/Entries.antt =====
-- HW3/fs.c: `namecmp`, `dirlookup` and `dirlink` on the inode of a directory; none is a panic.
use operating_systems.Base.{
  ℕ, zero, suc, ◌+◌, ◌*◌, Bool, false, not, List, Option, none, some, ◌>>=◌, add32, ltb, ◌==◌,
  if◌then◌else◌,
}
use operating_systems.Base.Int.{ℤ, pos, negsuc}
use operating_systems.Str.{Bytes, strncmp, strncpy}
use operating_systems.Blocks.Map.{Disk, Superblock}
use operating_systems.Inode.Cache.{Dinode, Inode, iget}
use operating_systems.Inode.Content.{t_dir, readi, writei, store_half}
use operating_systems.Inode.Trunc.{iput}
use operating_systems.Path.Elements.{dirsiz}

abbrev pub is_zero : ℤ → Bool
is_zero (pos n) = n == 0
is_zero (negsuc n) = false

unfoldable pub namecmp : Bytes → Bytes → ℤ
namecmp s t = strncmp s t dirsiz

-- The fields of a `struct dirent`, from its 16 bytes.
abbrev pub entry_inum : Bytes → ℕ
entry_inum de = de 0 + de 1 * 256

abbrev pub entry_name : Bytes → Bytes
entry_name de i = de (2 + i)

-- The table of the devices, of which a directory is none.
abbrev pub no_read : ℕ → Option (ℕ → ℕ → Bytes → ℤ × Bytes)
no_read m = none

abbrev pub no_write : ℕ → Option (Bytes → ℕ → ℤ)
no_write m = none

-- `if(readi(dp, (char*)&de, off, sizeof(de)) != sizeof(de)) panic("dirlink read");`
unfoldable pub read_entry : Superblock → Dinode → ℕ → Disk → Option (Bytes × Dinode × Disk)
read_entry sb dp off d = readi sb no_read dp 0 off 16 d (λ x. 0) >>= λ (r, dp', d', de). elim r [
  | pos n ↦ if n == 16 then some (de, dp', d') else none
  | negsuc n ↦ none
]

-- The loop of `dirlookup`: the offset and the number of the inode of the entry, if there is one. The
-- fuel is the size of the directory, more than its entries.
unfoldable pub find_entry :
    ℕ → Superblock → Bytes → ℕ → Dinode → Disk → Option (Option (ℕ × ℕ) × Dinode × Disk)
find_entry zero sb name off dp d = some (none, dp, d)
find_entry (suc fuel) sb name off dp d =
    if ltb off dp.size
    then (read_entry sb dp off d >>= λ (de, dp', d').
        if not (entry_inum de == 0)
        then (if is_zero (namecmp name (entry_name de))
            then some (some (off, entry_inum de), dp', d')
            else find_entry fuel sb name (add32 off 16) dp' d')
        else find_entry fuel sb name (add32 off 16) dp' d')
    else some (none, dp, d)

-- `dirlookup` behind its loop: the entry of the table of inodes, and the offset.
abbrev pub get_found :
    ℕ
    → List Inode
    → Option (ℕ × ℕ) × Dinode × Disk
    → Option (Option (ℕ × ℕ) × List Inode × Dinode × Disk)
get_found dev ips (none, dp, d) = some (none, ips, dp, d)
get_found dev ips (some (off, inum), dp, d) =
    iget dev inum ips >>= λ (i, ips'). some (some (i, off), ips', dp, d)

unfoldable pub dirlookup :
    Superblock
    → ℕ
    → Bytes
    → List Inode
    → Dinode
    → Disk
    → Option (Option (ℕ × ℕ) × List Inode × Dinode × Disk)
dirlookup sb dev name ips dp d =
    if not (dp.kind == t_dir)
    then none
    else find_entry (dp.size + 1) sb name 0 dp d >>= get_found dev ips

-- The loop of `dirlink` for an empty entry.
unfoldable pub find_empty : ℕ → Superblock → ℕ → Dinode → Disk → Option (ℕ × Dinode × Disk)
find_empty zero sb off dp d = some (off, dp, d)
find_empty (suc fuel) sb off dp d =
    if ltb off dp.size
    then (read_entry sb dp off d >>= λ (de, dp', d').
        if entry_inum de == 0
        then some (off, dp', d')
        else find_empty fuel sb (add32 off 16) dp' d')
    else some (off, dp, d)

-- The entry that `dirlink` writes. `strncpy` fills all 14 bytes of the name.
abbrev pub new_entry : Bytes → ℕ → Bytes
new_entry name inum = store_half 0 inum (strncpy 2 name dirsiz (λ x. 0))

-- `dirlink` into the directory with the number `dnum`, where the name is not present.
abbrev pub link_new :
    Superblock
    → ℕ
    → Bytes
    → ℕ
    → List Inode
    → Dinode
    → Disk
    → Option (ℤ × List Inode × Dinode × Disk)
link_new sb dnum name inum ips dp d = find_empty (dp.size + 1) sb 0 dp d >>= λ (off, dp1, d1).
    writei sb no_write dnum dp1 (new_entry name inum) off 16 d1 >>= λ (r, dp2, d2). elim r [
      | pos n ↦ if n == 16 then some (pos 0, ips, dp2, d2) else none
      | negsuc n ↦ none
    ]

abbrev pub link_end :
    Superblock
    → ℕ
    → Bytes
    → ℕ
    → Option (ℕ × ℕ) × List Inode × Dinode × Disk
    → Option (ℤ × List Inode × Dinode × Disk)
link_end sb dnum name inum (none, ips, dp, d) = link_new sb dnum name inum ips dp d
link_end sb dnum name inum (some (i, off), ips, dp, d) =
    iput sb i ips d >>= λ (ips', d'). some (negsuc 0, ips', dp, d')

unfoldable pub dirlink :
    Superblock
    → ℕ
    → ℕ
    → Bytes
    → ℕ
    → List Inode
    → Dinode
    → Disk
    → Option (ℤ × List Inode × Dinode × Disk)
dirlink sb dev dnum name inum ips dp d =
    dirlookup sb dev name ips dp d >>= link_end sb dnum name inum
