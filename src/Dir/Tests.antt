-- ===== src/Dir/Tests.antt =====
-- The theorems on `dirlookup` and `dirlink` of HW3/fs.c for an empty directory and the name "ab".
use operating_systems.Base.{refl, [], arith, ◌==◌, if◌then◌else◌}
use operating_systems.Str.{Bytes}
use operating_systems.Blocks.Sample.{small, disk}
use operating_systems.Inode.Cache.{Dinode}
use operating_systems.Inode.Sample.{empty_file, empty_file-Sound, inode-Foreign}
use operating_systems.Dir.Entries.{dirlookup, dirlink}
use operating_systems.Dir.Lookup.{IsDir}
use operating_systems.Dir.Found.{LooksUp, dirlookup_lem}
use operating_systems.Dir.Linked.{LinksTo, dirlink_lem}

abbrev directory : Dinode
directory = empty_file 1

abbrev name : Bytes
name i = if i == 0 then b'a' else if i == 1 then b'b' else 0

directory-IsDir : IsDir small directory disk
directory-IsDir = record {
  sound = empty_file-Sound 1;
  kind = refl;
  whole = refl;
  small = omega arith;
  full = λ p lt. absurd (omega arith);
}

dirlookup_lem_example :
    LooksUp small 1 name [] directory disk (dirlookup small 1 name [] directory disk)
dirlookup_lem_example = dirlookup_lem small 1 name [] directory disk directory-IsDir

dirlink_lem_example :
    LinksTo small name 7 [] directory disk (dirlink small 1 1 name 7 [] directory disk)
dirlink_lem_example =
    dirlink_lem small 1 1 name 7 [] directory disk directory-IsDir (inode-Foreign 1) (omega arith)
      (omega arith)
