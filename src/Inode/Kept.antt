-- ===== src/Inode/Kept.antt =====
-- What the calls that map blocks to an inode of HW3/fs.c keep.
use operating_systems.Base.{
  ℕ, List, ◌<◌, ◌≤◌, ◌≡◌, ◌≢◌, inl, inr, refl, sym, ap, ◌∙◌, true, Bool-cases, ◌==◌, arith,
}
use operating_systems.Blocks.Map.{Disk, Superblock, bblock}
use operating_systems.Blocks.FreeMap.{in_use}
use operating_systems.Inode.Cache.{Dinode}
use operating_systems.Inode.Owned.{
  owned, byte_at, Sound, Extends, Sound-extended, byte_kept, not_fresh, still_used,
}

abbrev pub with_addrs : List ℕ → Dinode → Dinode
with_addrs l ip = record ip { addrs = l }

-- A block in use that is neither of the map nor the file's own.
pub record Foreign (sb : Superblock) (ip : Dinode) (d : Disk) (b : ℕ) : Type 0 where
  pub foreign_used : in_use sb d b ≡ true
  pub exists : b < sb.size
  pub not_map : (c : ℕ) → c < sb.size → b ≢ bblock sb c
  pub not_owned : (k : ℕ) → k ≤ 140 → b ≢ owned ip d k

-- What a call that only maps blocks keeps: soundness, the bytes of the file, the blocks that it had,
-- all else of the inode, and the blocks that are not the file's.
pub record Kept (sb : Superblock) (ip : Dinode) (d : Disk) (ip' : Dinode) (d' : Disk) : Type 0 where
  pub sound : Sound sb ip' d'
  pub bytes : (p : ℕ) → p < 71680 → byte_at ip' d' p ≡ byte_at ip d p
  pub grows : (k : ℕ) → k ≤ 140 → owned ip d k ≢ 0 → owned ip' d' k ≡ owned ip d k
  pub rest : ip' ≡ with_addrs ip'.addrs ip
  pub frame : (b : ℕ) → Foreign sb ip d b → (d' b ≡ d b) × Foreign sb ip' d' b

pub Kept-refl : (sb : Superblock) (ip : Dinode) (d : Disk) → Sound sb ip d → Kept sb ip d ip d
Kept-refl sb ip d ok = record {
  sound = ok;
  bytes = λ p lt. refl;
  grows = λ k le nz. refl;
  rest = refl;
  frame = λ b f. (refl, f);
}

pub Kept-trans :
    (sb : Superblock) (ip ip' ip'' : Dinode) (d d' d'' : Disk)
    → Kept sb ip d ip' d'
    → Kept sb ip' d' ip'' d''
    → Kept sb ip d ip'' d''
Kept-trans sb ip ip' ip'' d d' d'' k k' = record {
  sound = k'.sound;
  bytes = λ p lt. k'.bytes p lt ∙ k.bytes p lt;
  grows = λ i le nz. k'.grows i le (λ z. nz (sym (k.grows i le nz) ∙ z)) ∙ k.grows i le nz;
  rest = k'.rest ∙ ap (with_addrs ip''.addrs) k.rest;
  frame = λ b f.
      let (same, f') = k.frame b f in let (same', f'') = k'.frame b f' in (same' ∙ same, f'');
}

pub Extends-Kept :
    (sb : Superblock) (ip ip' : Dinode) (d d' d'' : Disk) (k c : ℕ)
    → Sound sb ip d
    → Extends sb ip d k c ip' d' d''
    → ip' ≡ with_addrs ip'.addrs ip
    → Kept sb ip d ip' d''
Extends-Kept sb ip ip' d d' d'' k c ok e rest = record {
  sound = Sound-extended sb ip ip' d d' d'' k c ok e;
  bytes = byte_kept sb ip ip' d d' d'' k c ok e;
  grows = λ j le nz. e.owns j le ∙ elim (Bool-cases (j == k)) [
    | inl q ↦ absurd (nz (ap (owned ip d) (let s : j ≡ k = ground arith in s) ∙ e.hole))
    | inr q ↦ rw (q) refl
  ];
  rest = rest;
  frame = λ b f.
      let apart : b ≢ c = not_fresh sb ip ip' d d' d'' k c ok e b f.foreign_used in
      (
        e.keeps b (λ q. absurd (f.not_owned 140 (omega arith) q))
            ∙ e.fresh.others b apart (f.not_map c e.fresh.exists),
        record {
          foreign_used = still_used sb ip ip' d d' d'' k c ok e b f.exists f.foreign_used;
          exists = f.exists;
          not_map = f.not_map;
          not_owned = λ j le q. elim (Bool-cases (j == k)) [
            | inl s ↦ apart (q ∙ e.owns j le ∙ rw (s) refl)
            | inr s ↦ f.not_owned j le (q ∙ e.owns j le ∙ rw (s) refl)
          ];
        },
      );
}
