-- ===== src/Inode/Owned.antt =====
-- The blocks that an inode of HW3/fs.c owns, and what is true of them between calls.
use operating_systems.Base.{
  ℕ, ◌-◌, ◌*◌, ◌/◌, ◌%◌, ◌^◌, ◌<◌, ◌≤◌, ◌≡◌, ◌≢◌, inl, inr, refl, sym, ap, ◌∙◌, true, Bool-cases,
  get_or, length, ltb, ◌==◌, if◌then◌else◌, arith,
}
use mathlib.Core.Bool.{true≢false}
use operating_systems.Kalloc.{load_word}
use operating_systems.Blocks.Map.{Disk, Superblock, bblock, is_marked}
use operating_systems.Blocks.FreeMap.{in_use}
use operating_systems.Blocks.Effects.{MapInUse, Fresh}
use operating_systems.Inode.Cache.{Dinode}

-- The address of data block `k`, and for 140 that of the block of addresses; zero where there is none.
abbrev pub owned : Dinode → Disk → ℕ → ℕ
owned ip d k =
    if ltb k 12
    then get_or ip.addrs k 0
    else if k == 140
    then get_or ip.addrs 12 0
    else if get_or ip.addrs 12 0 == 0
    then 0
    else load_word (4 * (k - 12)) (d (get_or ip.addrs 12 0))

abbrev pub read_block : ℕ → Disk → ℕ → ℕ
read_block a d x = if a == 0 then 0 else d a x

-- The bytes of the file as `readi` and `writei` number them. A block that is not there reads as
-- zeroes.
abbrev pub byte_at : Dinode → Disk → ℕ → ℕ
byte_at ip d p = read_block (owned ip d (p / 512)) d (p % 512)

-- The map is sound for the file: its blocks are in use, each is owned once, none is of the map.
pub record Sound (sb : Superblock) (ip : Dinode) (d : Disk) : Type 0 where
  pub map_used : MapInUse sb d
  pub map_fits : (c : ℕ) → c < sb.size → bblock sb c < sb.size
  pub boot_used : in_use sb d 0 ≡ true
  pub slots : length ip.addrs ≡ 13
  pub nonempty : 0 < sb.size
  pub words : sb.size ≤ 2 ^ 32
  pub used :
      (k : ℕ)
      → k ≤ 140
      → owned ip d k ≢ 0
      → (owned ip d k < sb.size) × (in_use sb d (owned ip d k) ≡ true)
  pub off_map : (k c : ℕ) → k ≤ 140 → owned ip d k ≢ 0 → c < sb.size → owned ip d k ≢ bblock sb c
  pub once : (j k : ℕ) → j ≤ 140 → k ≤ 140 → owned ip d j ≢ 0 → owned ip d j ≡ owned ip d k → j ≡ k

-- Block `c` became the file's block `k`, which was not there, and the other blocks stay. Only the
-- block of addresses may differ from what `balloc` left.
pub record Extends (sb : Superblock) (ip : Dinode) (d : Disk) (k c : ℕ) (ip' : Dinode)
    (d' d'' : Disk) : Type 0 where
  pub bound : k ≤ 140
  pub hole : owned ip d k ≡ 0
  pub fresh : Fresh sb d c d'
  pub length_kept : length ip'.addrs ≡ 13
  pub owns : (j : ℕ) → j ≤ 140 → owned ip' d'' j ≡ (if j == k then c else owned ip d j)
  pub keeps : (b : ℕ) → (b ≡ owned ip d 140 → b ≡ 0) → d'' b ≡ d' b

module _ (sb : Superblock) (ip ip' : Dinode) (d d' d'' : Disk) (k c : ℕ) (ok : Sound sb ip d)
    (e : Extends sb ip d k c ip' d' d'') where
  -- A block in use is not the fresh one.
  pub not_fresh : (b : ℕ) → in_use sb d b ≡ true → b ≢ c
  not_fresh b u q = true≢false (sym u ∙ ap (in_use sb d) q ∙ e.fresh.was_free)

  map_kept : (b : ℕ) → b < sb.size → d'' (bblock sb b) ≡ d' (bblock sb b)
  map_kept b lt = e.keeps (bblock sb b) (λ q. elim (Bool-cases (owned ip d 140 == 0)) [
    | inl z ↦ q ∙ ground arith
    | inr n ↦ absurd (ok.off_map 140 b (omega arith) (ground arith) lt (sym q))
  ])

  pub marks_after :
      (b : ℕ) → b < sb.size → in_use sb d'' b ≡ (if b == c then true else in_use sb d b)
  unfolding in_use
  marks_after b lt = ap (λ m. is_marked m (b % 4096)) (map_kept b lt) ∙ e.fresh.marks b lt

  pub still_used : (b : ℕ) → b < sb.size → in_use sb d b ≡ true → in_use sb d'' b ≡ true
  still_used b lt u =
      marks_after b lt ∙ elim (Bool-cases (b == c)) [ inl q ↦ rw (q) refl | inr q ↦ rw (q) u ]

  c_nonzero : c ≢ 0
  c_nonzero q = not_fresh 0 ok.boot_used (sym q)

  used_after :
      (j : ℕ)
      → j ≤ 140
      → owned ip' d'' j ≢ 0
      → (owned ip' d'' j < sb.size) × (in_use sb d'' (owned ip' d'' j) ≡ true)
  used_after j le nz = elim (Bool-cases (j == k)) [
    | inl q ↦
        let new : owned ip' d'' j ≡ c = e.owns j le ∙ rw (q) refl in
        rw (new) (e.fresh.exists, marks_after c e.fresh.exists ∙ ground arith)
    | inr q ↦
        let old : owned ip' d'' j ≡ owned ip d j = e.owns j le ∙ rw (q) refl in
        let (lt, u) = ok.used j le (λ z. nz (old ∙ z)) in rw (old) (lt, still_used _ lt u)
  ]

  off_map_after :
      (j b : ℕ) → j ≤ 140 → owned ip' d'' j ≢ 0 → b < sb.size → owned ip' d'' j ≢ bblock sb b
  off_map_after j b le nz lt = elim (Bool-cases (j == k)) [
    | inl q ↦
        let new : owned ip' d'' j ≡ c = e.owns j le ∙ rw (q) refl in
        λ h. e.fresh.off_map b lt (sym new ∙ h)
    | inr q ↦
        let old : owned ip' d'' j ≡ owned ip d j = e.owns j le ∙ rw (q) refl in
        λ h. ok.off_map j b le (λ z. nz (old ∙ z)) lt (sym old ∙ h)
  ]

  -- The fresh block is none that was owned.
  apart : (j : ℕ) → j ≤ 140 → owned ip d j ≢ c
  apart j le q = elim (Bool-cases (owned ip d j == 0)) [
    | inl z ↦ c_nonzero (sym q ∙ ground arith)
    | inr n ↦ let (lt, u) = ok.used j le (ground arith) in not_fresh _ u q
  ]

  once_after :
      (i j : ℕ)
      → i ≤ 140
      → j ≤ 140
      → owned ip' d'' i ≢ 0
      → owned ip' d'' i ≡ owned ip' d'' j
      → i ≡ j
  once_after i j li lj nz q =
      let both : (if i == k then c else owned ip d i) ≡ (if j == k then c else owned ip d j) =
        sym (e.owns i li) ∙ q ∙ e.owns j lj in
      let some_block : (if i == k then c else owned ip d i) ≢ 0 = λ z. nz (e.owns i li ∙ z) in
      elim (Bool-cases (i == k)) [
        | inl a ↦ elim (Bool-cases (j == k)) [
          | inl b ↦ ground arith
          | inr b ↦ absurd (apart j lj (sym (rw (a, b) at both)))
        ]
        | inr a ↦ elim (Bool-cases (j == k)) [
          | inl b ↦ absurd (apart i li (rw (a, b) at both))
          | inr b ↦ ok.once i j li lj (rw (a) at some_block) (rw (a, b) at both)
        ]
      ]

  pub Sound-extended : Sound sb ip' d''
  Sound-extended = record {
    map_used = λ b lt. still_used _ (ok.map_fits b lt) (ok.map_used b lt);
    map_fits = ok.map_fits;
    boot_used = still_used 0 (let lt = e.fresh.exists in omega arith) ok.boot_used;
    slots = e.length_kept;
    nonempty = ok.nonempty;
    words = ok.words;
    used = used_after;
    off_map = off_map_after;
    once = once_after;
  }

  fresh_zero : (x : ℕ) → x < 512 → read_block c d'' x ≡ 0
  fresh_zero x lt =
      let same : d'' c ≡ d' c = e.keeps c (λ q. absurd (apart 140 (omega arith) (sym q))) in
      let zero : d'' c x ≡ 0 = ap (λ m. m x) same ∙ e.fresh.zeroes x lt in ground arith

  old_block : (j x : ℕ) → j < 140 → read_block (owned ip d j) d'' x ≡ read_block (owned ip d j) d x
  old_block j x lt = elim (Bool-cases (owned ip d j == 0)) [
    | inl z ↦ rw (z) refl
    | inr n ↦
        let nz : owned ip d j ≢ 0 = ground arith in
        let kept : d'' (owned ip d j) ≡ d' (owned ip d j) =
          e.keeps _
            (λ q. absurd (let i = ok.once j 140 (omega arith) (omega arith) nz q in omega arith)) in
        let other : d' (owned ip d j) ≡ d (owned ip d j) =
          e.fresh.others _ (apart j (omega arith))
            (ok.off_map j c (omega arith) nz e.fresh.exists) in
        rw (n) (ap (λ m. m x) (kept ∙ other))
  ]

  -- No byte of the file changes.
  pub byte_kept : (p : ℕ) → p < 71680 → byte_at ip' d'' p ≡ byte_at ip d p
  byte_kept p lt = elim (Bool-cases (p / 512 == k)) [
    | inl q ↦
        let k_is : p / 512 ≡ k = ground arith in
        let new : owned ip' d'' (p / 512) ≡ c = e.owns (p / 512) (omega arith) ∙ rw (q) refl in
        let old : owned ip d (p / 512) ≡ 0 = ap (owned ip d) k_is ∙ e.hole in
        ap (λ a. read_block a d'' (p % 512)) new
        ∙ fresh_zero (p % 512) (omega arith)
        ∙ sym (ap (λ a. read_block a d (p % 512)) old)
    | inr q ↦
        let same : owned ip' d'' (p / 512) ≡ owned ip d (p / 512) =
          e.owns (p / 512) (omega arith) ∙ rw (q) refl in
        ap (λ a. read_block a d'' (p % 512)) same ∙ old_block (p / 512) (p % 512) (omega arith)
  ]
