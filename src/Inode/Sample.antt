-- ===== src/Inode/Sample.antt =====
-- An empty file on the small disk, for the tests of HW3/fs.c.
use operating_systems.Base.{ℕ, List, zero, suc, ◌≡◌, refl, replicate, get_or, arith}
use operating_systems.Blocks.Bits.{has_bit}
use operating_systems.Blocks.Map.{is_marked}
use operating_systems.Blocks.FreeMap.{in_use}
use operating_systems.Blocks.Sample.{small, disk, disk-MapInUse}
use operating_systems.Inode.Cache.{Dinode}
use operating_systems.Inode.Owned.{owned, Sound}
use operating_systems.Inode.Kept.{Foreign}

abbrev zeros : ℕ → List ℕ
zeros n = replicate n 0

abbrev pub empty_file : ℕ → Dinode
empty_file kind = record {
  kind = kind;
  major = 0;
  minor = 0;
  nlink = 1;
  size = 0;
  addrs = zeros 13;
}

zeroes : (n k : ℕ) → get_or (zeros n) k 0 ≡ 0
zeroes zero k = refl
zeroes (suc n) zero = refl
zeroes (suc n) (suc k) = zeroes n k

owns_none : (kind k : ℕ) → owned (empty_file kind) disk k ≡ 0
owns_none kind k = rw (zeroes 13 k) (ground arith)

pub empty_file-Sound : (kind : ℕ) → Sound small (empty_file kind) disk
unfolding in_use is_marked has_bit
empty_file-Sound kind = record {
  map_used = disk-MapInUse;
  map_fits = λ c lt. omega arith;
  boot_used = refl;
  slots = refl;
  nonempty = omega arith;
  words = omega arith;
  used = λ k le nz. absurd (nz (owns_none kind k));
  off_map = λ k c le nz. absurd (nz (owns_none kind k));
  once = λ j k lj lk nz. absurd (nz (owns_none kind j));
}

pub inode-Foreign : (kind : ℕ) → Foreign small (empty_file kind) disk 2
unfolding in_use is_marked has_bit
inode-Foreign kind = record {
  foreign_used = refl;
  exists = omega arith;
  not_map = λ c lt. omega arith;
  not_owned = λ k le q. absurd (let z = owns_none kind k in omega arith);
}
