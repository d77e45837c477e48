-- ===== src/Inode/Change.antt =====
-- A block of HW3/fs.c that gets other bytes, and is neither of the map nor the inode's table of
-- addresses.
use operating_systems.Base.{ℕ, ◌/◌, ◌%◌, ◌<◌, ◌≡◌, ◌≢◌, refl, ap, ◌∙◌, false, get_or, ◌==◌, arith}
use operating_systems.Str.{Bytes}
use operating_systems.Log.Store.{put_at}
use operating_systems.Blocks.Map.{Disk, Superblock, bblock}
use operating_systems.Blocks.FreeMap.{in_use}
use operating_systems.Inode.Cache.{Dinode}
use operating_systems.Inode.Owned.{owned, byte_at, read_block, Sound}
use operating_systems.Inode.Kept.{Foreign}

module _ (sb : Superblock) (ip : Dinode) (d : Disk) (b : ℕ) (m : Bytes) (ok : Sound sb ip d)
    (no_map : (c : ℕ) → c < sb.size → b ≢ bblock sb c) (no_table : b ≢ owned ip d 140) where
  pub owned_change : (j : ℕ) → owned ip (put_at d b m) j ≡ owned ip d j
  owned_change j = let other : (get_or ip.addrs 12 0 == b) ≡ false = ground arith in rw (other) refl

  in_use_change : (c : ℕ) → c < sb.size → in_use sb (put_at d b m) c ≡ in_use sb d c
  unfolding in_use
  in_use_change c lt =
      let n = no_map c lt in
      let other : (bblock sb c == b) ≡ false = ground arith in rw (other) refl

  pub Sound-change : Sound sb ip (put_at d b m)
  Sound-change = record {
    map_used = λ c lt. in_use_change _ (ok.map_fits c lt) ∙ ok.map_used c lt;
    map_fits = ok.map_fits;
    boot_used = in_use_change 0 ok.nonempty ∙ ok.boot_used;
    slots = ok.slots;
    nonempty = ok.nonempty;
    words = ok.words;
    used = λ k le.
        rw (owned_change k) (λ nz. let (lt, u) = ok.used k le nz in (lt, in_use_change _ lt ∙ u));
    off_map = λ k c le. rw (owned_change k) (ok.off_map k c le);
    once = λ j k lj lk. rw (owned_change j, owned_change k) (ok.once j k lj lk);
  }

  pub byte_change :
      (p : ℕ)
      → byte_at ip (put_at d b m) p ≡ read_block (owned ip d (p / 512)) (put_at d b m) (p % 512)
  byte_change p = ap (λ a. read_block a (put_at d b m) (p % 512)) (owned_change (p / 512))

  pub Foreign-change : (c : ℕ) → Foreign sb ip d c → Foreign sb ip (put_at d b m) c
  Foreign-change c f = record {
    foreign_used = in_use_change c f.exists ∙ f.foreign_used;
    exists = f.exists;
    not_map = f.not_map;
    not_owned = λ k le q. f.not_owned k le (q ∙ owned_change k);
  }
