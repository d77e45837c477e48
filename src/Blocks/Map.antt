-- ===== src/Blocks/Map.antt =====
-- HW3/fs.c: the superblock, `bzero`, `balloc` and `bfree`. A block is read and written within a
-- transaction: what `log_write` got is what a later `bread` gives.
use operating_systems.Base.{
  ℕ, zero, suc, ◌+◌, ◌/◌, ◌%◌, Bool, not, Option, none, some, ltb, if◌then◌else◌,
}
use operating_systems.Str.{Bytes, memset, store}
use operating_systems.Kalloc.{load_word}
use operating_systems.Log.Store.{put_at}
use operating_systems.Blocks.Bits.{has_bit, set_bit, clear_bit}

-- BSIZE
abbrev pub bsize : ℕ
bsize = 512

-- BPB
abbrev pub bpb : ℕ
bpb = 4096

-- The blocks as the transaction sees them, byte by byte.
abbrev pub Disk : Type 0
Disk = ℕ → Bytes

-- `struct superblock`
pub record Superblock : Type 0 where
  pub size : ℕ
  pub nblocks : ℕ
  pub ninodes : ℕ
  pub nlog : ℕ
  pub logstart : ℕ
  pub inodestart : ℕ
  pub bmapstart : ℕ

unfoldable pub readsb : Disk → Superblock
readsb d = record {
  size = load_word 0 (d 1);
  nblocks = load_word 4 (d 1);
  ninodes = load_word 8 (d 1);
  nlog = load_word 12 (d 1);
  logstart = load_word 16 (d 1);
  inodestart = load_word 20 (d 1);
  bmapstart = load_word 24 (d 1);
}

-- BBLOCK
abbrev pub bblock : Superblock → ℕ → ℕ
bblock sb b = b / bpb + sb.bmapstart

unfoldable pub bzero : ℕ → Disk → Disk
bzero bno d = put_at d bno (memset 0 0 bsize (d bno))

-- Is bit `bi` of a block of the map set?
unfoldable pub is_marked : Bytes → ℕ → Bool
is_marked m bi = has_bit (bi % 8) (m (bi / 8))

abbrev pub mark : Bytes → ℕ → Bytes
mark m bi = store m (bi / 8) (set_bit (bi % 8) (m (bi / 8)))

abbrev pub unmark : Bytes → ℕ → Bytes
unmark m bi = store m (bi / 8) (clear_bit (bi % 8) (m (bi / 8)))

-- The inner loop of `balloc`, of `count` more rounds from `bi`: the first bit that is clear.
unfoldable pub clear_bit_from : ℕ → ℕ → ℕ → ℕ → Bytes → Option ℕ
clear_bit_from size b zero bi m = none
clear_bit_from size b (suc count) bi m =
    let rest = clear_bit_from size b count (bi + 1) m in
    if not (ltb (b + bi) size) then none else if not (is_marked m bi) then some bi else rest

-- What `balloc` does where block `b` has its bit `bi` clear.
abbrev pub take_block : Superblock → ℕ → ℕ → Disk → ℕ × Disk
take_block sb b bi d = (b + bi, bzero (b + bi) (put_at d (bblock sb b) (mark (d (bblock sb b)) bi)))

-- The outer loop of `balloc` from `b` on; none is the panic or the end of the fuel.
unfoldable pub balloc_from : Superblock → ℕ → ℕ → Disk → Option (ℕ × Disk)
balloc_from sb zero b d = none
balloc_from sb (suc fuel) b d =
    if ltb b sb.size
    then (elim (clear_bit_from sb.size b bpb 0 (d (bblock sb b))) [
      | some bi ↦ some (take_block sb b bi d)
      | none ↦ balloc_from sb fuel (b + bpb) d
    ])
    else none

-- A round for each block of the map.
unfoldable pub balloc : Superblock → Disk → Option (ℕ × Disk)
balloc sb d = balloc_from sb (sb.size / bpb + 1) 0 d

-- `bfree`, which reads the superblock again; none is its panic.
unfoldable pub bfree : ℕ → Disk → Option Disk
bfree b d =
    let block = bblock (readsb d) b in
    if not (is_marked (d block) (b % bpb))
    then none
    else some (put_at d block (unmark (d block) (b % bpb)))
