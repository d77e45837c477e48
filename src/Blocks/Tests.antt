-- ===== src/Blocks/Tests.antt =====
-- The theorems on the free map of HW3/fs.c on a disk of 64 blocks, of which five are in use.
use operating_systems.Base.{ℕ, ◌<◌, ◌≡◌, refl, some, arith}
use operating_systems.Str.{store, store_word}
use operating_systems.Kalloc.{load_word}
use operating_systems.Log.Store.{put_at}
use operating_systems.Blocks.Bits.{has_bit, set_bit}
use operating_systems.Blocks.Map.{
  Disk, readsb, is_marked, clear_bit_from, balloc_from, balloc, bfree, bzero,
}
use operating_systems.Blocks.FreeMap.{in_use}
use operating_systems.Blocks.Sample.{small, disk, disk-MapInUse}
use operating_systems.Blocks.Effects.{MapInUse, Allocates, balloc_lem, bfree-balloc}

readsb-disk : readsb disk ≡ small
unfolding readsb load_word store_word
readsb-disk = refl

pub disk-MapInUse-readsb : MapInUse (readsb disk) disk
unfolding readsb load_word store_word
disk-MapInUse-readsb = disk-MapInUse

balloc_lem_example : Allocates small disk (balloc small disk)
balloc_lem_example = balloc_lem small disk disk-MapInUse

bfree-balloc_example :
    (d'' : Disk) × (bfree 5 (bzero 5 (put_at disk 3 (store (disk 3) 0 (set_bit 5 31)))) ≡ some d'')
    × ((c : ℕ) → c < (readsb disk).size → in_use (readsb disk) d'' c ≡ in_use (readsb disk) disk c)
unfolding readsb load_word store_word balloc balloc_from clear_bit_from is_marked has_bit
bfree-balloc_example = bfree-balloc disk _ 5 disk-MapInUse-readsb refl (omega arith) (omega arith)
