-- ===== src/Blocks/Sample.antt =====
-- A disk of 64 blocks for the tests of HW3/fs.c, of which five are in use.
use operating_systems.Base.{◌+◌, ◌/◌, ◌≡◌, arith, ap}
use operating_systems.Str.{store, store_word}
use operating_systems.Log.Store.{put_at}
use operating_systems.Blocks.Bits.{has_bit}
use operating_systems.Blocks.Map.{Disk, Superblock, is_marked}
use operating_systems.Blocks.FreeMap.{in_use}
use operating_systems.Blocks.Effects.{MapInUse}

-- The superblock in block 1, the inodes in block 2, the map in block 3.
abbrev pub small : Superblock
small = record {
  size = 64;
  nblocks = 60;
  ninodes = 8;
  nlog = 0;
  logstart = 2;
  inodestart = 2;
  bmapstart = 3;
}

abbrev pub disk : Disk
disk = put_at (put_at (λ b x. 0) 3 (store (λ x. 0) 0 31)) 1 (
    store_word 0 64 (
      store_word 4 60 (
        store_word 8 8
          (store_word 12 0 (store_word 16 2 (store_word 20 2 (store_word 24 3 (λ x. 0))))))))

pub disk-MapInUse : MapInUse small disk
unfolding in_use is_marked has_bit
disk-MapInUse c lt =
    let first : c / 4096 ≡ 0 = omega arith in ap (λ b. in_use small disk (b + 3)) first
