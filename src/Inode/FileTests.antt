-- ===== src/Inode/FileTests.antt =====
-- The theorems on `bmap`, `readi` and `writei` of HW3/fs.c for an empty file on a small disk.
use operating_systems.Base.{◌+◌, refl, some, none, Option, arith}
use operating_systems.Base.Int.{ℤ}
use operating_systems.Blocks.Bits.{has_bit}
use operating_systems.Blocks.Map.{Disk, is_marked, balloc, balloc_from, clear_bit_from}
use operating_systems.Blocks.Sample.{small, disk}
use operating_systems.Inode.Sample.{empty_file, empty_file-Sound, inode-Foreign}
use operating_systems.Inode.Cache.{Dinode}
use operating_systems.Inode.Bmap.{bmap, direct_block}
use operating_systems.Inode.Mapped.{Mapped, bmap_lem}
use operating_systems.Inode.Content.{readi, writei, write_chunks}
use operating_systems.Inode.Reads.{ReadsFile, readi_lem}
use operating_systems.Inode.Files.{WriteiSpec, writei_lem}
use operating_systems.Inode.ReadBack.{ReadsBack, readi-writei}

abbrev file : Dinode
file = empty_file 2

bmap_lem_example : Mapped small file disk 13 (bmap small 13 file disk)
bmap_lem_example = bmap_lem small file disk 13 (empty_file-Sound 2) (omega arith)

readi_lem_example :
    ReadsFile small file disk 0 5 100 (λ x. 7) (readi small (λ m. none) file 100 0 5 disk (λ x. 7))
readi_lem_example =
    readi_lem small (λ m. none) file 100 0 5 disk (λ x. 7) (empty_file-Sound 2) (omega arith)
      (omega arith) (omega arith) (omega arith)

writei_lem_example :
    WriteiSpec small 1 file disk 0 600
      (λ i. 104 + i)
      (writei small (λ m. none) 1 file (λ i. 104 + i) 0 600 disk)
writei_lem_example =
    writei_lem small (λ m. none) 1 file (λ i. 104 + i) 0 600 disk (empty_file-Sound 2)
      (inode-Foreign 2) (omega arith) (omega arith) (omega arith)

abbrev ip_of : Option (ℤ × Dinode × Disk) → Dinode
ip_of none = file
ip_of (some (r, ip, d)) = ip

abbrev disk_of : Option (ℤ × Dinode × Disk) → Disk
disk_of none = disk
disk_of (some (r, ip, d)) = d

abbrev written : Option (ℤ × Dinode × Disk)
written = writei small (λ m. none) 1 file (λ i. 104 + i) 0 3 disk

-- Three bytes written to the empty file and read again.
readi-writei_example :
    ReadsBack
      (readi small (λ m. none) (ip_of written) 100 0 3 (disk_of written) (λ x. 7))
      100
      3
      (λ i. 104 + i)
      (λ x. 7)
unfolding writei write_chunks bmap direct_block balloc balloc_from clear_bit_from is_marked has_bit
readi-writei_example =
    readi-writei small (λ m. none) (λ m. none) 1 file _ (λ i. 104 + i) 0 3 100 disk _ (λ x. 7) _
      (empty_file-Sound 2) (inode-Foreign 2) (omega arith) (omega arith) (omega arith) (omega arith)
      refl
