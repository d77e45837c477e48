-- ===== src/Inode/Mapping.antt =====
-- What `bmap` of HW3/fs.c gives.
use operating_systems.Base.{
  ℕ, List, ◌+◌, ◌-◌, ◌*◌, ◌^◌, ◌<◌, ◌≤◌, ◌≡◌, ◌≢◌, inl, inr, refl, sym, ap, ◌∙◌, true, Bool-cases,
  ltb, ◌==◌, if◌then◌else◌, arith, get_or, set, length, length-set, get_or-set_self, get_or-set_ne,
}
use mathlib.Core.Bool.{true≢false}
use operating_systems.Str.{Bytes, store_word}
use operating_systems.Kalloc.{load_word}
use operating_systems.Kalloc.Chain.{load_word-store_word}
use operating_systems.Log.Store.{put_at}
use operating_systems.Blocks.Map.{Disk, Superblock}
use operating_systems.Blocks.FreeMap.{in_use}
use operating_systems.Blocks.Effects.{Fresh}
use operating_systems.Inode.Cache.{Dinode}
use operating_systems.Inode.Owned.{owned, Sound, Extends}
use operating_systems.Inode.Kept.{with_addrs}

load_word-store_word_other :
    (i j w : ℕ) (m : Bytes)
    → i ≢ j
    → load_word (4 * i) (store_word (4 * j) w m) ≡ load_word (4 * i) m
unfolding load_word store_word
load_word-store_word_other i j w m ne = ground arith

load_word_zero :
    (i : ℕ) (m : Bytes) → i < 128 → ((x : ℕ) → x < 512 → m x ≡ 0) → load_word (4 * i) m ≡ 0
unfolding load_word
load_word_zero i m lt zero =
    rw
      (
        zero (4 * i) (omega arith),
        zero (4 * i + 1) (omega arith),
        zero (4 * i + 2) (omega arith),
        zero (4 * i + 3) (omega arith),
      )
      refl

get_or-set :
    (xs : List ℕ) (i j c : ℕ)
    → i < length xs
    → get_or (set xs i c) j 0 ≡ (if j == i then c else get_or xs j 0)
get_or-set xs i j c lt = elim (Bool-cases (j == i)) [
  | inl e ↦ let same : j ≡ i = ground arith in rw (e, same) (get_or-set_self xs i c 0 lt)
  | inr e ↦ rw (e) (get_or-set_ne xs i j c 0 (ground arith))
]

module _ (sb : Superblock) (ip : Dinode) (d d' : Disk) (c : ℕ) (ok : Sound sb ip d)
    (fresh : Fresh sb d c d') where
  pub c_some : c ≢ 0
  c_some q = true≢false (sym ok.boot_used ∙ ap (in_use sb d) (sym q) ∙ fresh.was_free)

  -- A block of the file is not changed by `balloc`.
  owned_same : (k : ℕ) → k ≤ 140 → owned ip d k ≢ 0 → d' (owned ip d k) ≡ d (owned ip d k)
  owned_same k le nz =
      let (lt, u) = ok.used k le nz in
      fresh.others _ (λ q. true≢false (sym u ∙ ap (in_use sb d) q ∙ fresh.was_free))
        (ok.off_map k c le nz fresh.exists)

  table_same : get_or ip.addrs 12 0 ≢ 0 → d' (get_or ip.addrs 12 0) ≡ d (get_or ip.addrs 12 0)
  table_same nz = owned_same 140 (omega arith) nz

  direct_owns :
      (i : ℕ)
      → i < 12
      → get_or ip.addrs i 0 ≡ 0
      → (j : ℕ) → j ≤ 140
      → owned (with_addrs (set ip.addrs i c) ip) d' j ≡ (if j == i then c else owned ip d j)
  direct_owns i lt z j le =
      let at_j = get_or-set ip.addrs i j c (let n = ok.slots in omega arith) in
      let at_12 : get_or (set ip.addrs i c) 12 0 ≡ get_or ip.addrs 12 0 =
        get_or-set_ne ip.addrs i 12 c 0 (omega arith) in
      elim (Bool-cases (get_or ip.addrs 12 0 == 0)) [
        | inl y ↦ rw (at_j, at_12, y) (ground arith)
        | inr n ↦ rw (at_j, at_12, n, table_same (ground arith)) (ground arith)
      ]

  table_owns :
      get_or ip.addrs 12 0 ≡ 0
      → (j : ℕ) → j ≤ 140
      → owned (with_addrs (set ip.addrs 12 c) ip) d' j ≡ (if j == 140 then c else owned ip d j)
  table_owns z j le =
      let at_j = get_or-set ip.addrs 12 j c (let n = ok.slots in omega arith) in
      let at_12 : get_or (set ip.addrs 12 c) 12 0 ≡ c =
        get_or-set_self ip.addrs 12 c 0 (let n = ok.slots in omega arith) in
      elim (Bool-cases (ltb j 12)) [
        | inl y ↦ rw (y, at_j) (ground arith)
        | inr n ↦ elim (Bool-cases (j == 140)) [
          | inl y ↦ rw (n, y, at_12) refl
          | inr m ↦
              rw (n, m, at_12, load_word_zero (j - 12) (d' c) (ground arith) fresh.zeroes)
                (ground arith)
        ]
      ]

  indirect_owns :
      (k : ℕ)
      → k < 128
      → get_or ip.addrs 12 0 ≢ 0
      → load_word (4 * k) (d (get_or ip.addrs 12 0)) ≡ 0
      → (j : ℕ) → j ≤ 140
      → owned ip
          (put_at d' (get_or ip.addrs 12 0) (store_word (4 * k) c (d' (get_or ip.addrs 12 0))))
          j
        ≡ (if j == k + 12 then c else owned ip d j)
  indirect_owns k lt nz z j le =
      let small : c < 2 ^ 32 = (let a = fresh.exists in let b = ok.words in omega arith) in
      let self : (get_or ip.addrs 12 0 == get_or ip.addrs 12 0) ≡ true = ground arith in
      elim (Bool-cases (ltb j 12)) [
        | inl y ↦ rw (y) (ground arith)
        | inr n ↦ elim (Bool-cases (j == 140)) [
          | inl y ↦ rw (n, y) (ground arith)
          | inr m ↦
              rw (n, m, self, table_same nz)
                (elim (Bool-cases (j == k + 12)) [
                  | inl y ↦
                      let is : j - 12 ≡ k = ground arith in
                      rw (y, is, load_word-store_word (4 * k) c (d (get_or ip.addrs 12 0)) small)
                        (ground arith)
                  | inr o ↦
                      rw
                        (
                          o,
                          load_word-store_word_other (j - 12) k c (d (get_or ip.addrs 12 0))
                              (ground arith),
                        )
                        refl
                ])
        ]
      ]

  pub direct-Extends :
      (i : ℕ)
      → i < 12
      → get_or ip.addrs i 0 ≡ 0
      → Extends sb ip d i c (with_addrs (set ip.addrs i c) ip) d' d'
  direct-Extends i lt z = record {
    bound = omega arith;
    hole = ground arith;
    fresh = fresh;
    length_kept = length-set ip.addrs i c ∙ ok.slots;
    owns = direct_owns i lt z;
    keeps = λ b q. refl;
  }

  pub table-Extends :
      get_or ip.addrs 12 0 ≡ 0 → Extends sb ip d 140 c (with_addrs (set ip.addrs 12 c) ip) d' d'
  table-Extends z = record {
    bound = omega arith;
    hole = z;
    fresh = fresh;
    length_kept = length-set ip.addrs 12 c ∙ ok.slots;
    owns = table_owns z;
    keeps = λ b q. refl;
  }

  pub indirect-Extends :
      (k : ℕ)
      → k < 128
      → get_or ip.addrs 12 0 ≢ 0
      → load_word (4 * k) (d (get_or ip.addrs 12 0)) ≡ 0
      → Extends sb ip d
          (k + 12)
          c
          ip
          d'
          (put_at d' (get_or ip.addrs 12 0) (store_word (4 * k) c (d' (get_or ip.addrs 12 0))))
  indirect-Extends k lt nz z = record {
    bound = omega arith;
    hole = ground arith;
    fresh = fresh;
    length_kept = ok.slots;
    owns = indirect_owns k lt nz z;
    keeps = λ b q. let ne : b ≢ get_or ip.addrs 12 0 = λ e. nz (sym e ∙ q e) in ground arith;
  }
