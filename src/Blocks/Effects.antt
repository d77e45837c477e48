-- ===== src/Blocks/Effects.antt =====
-- What the block allocator of HW3/fs.c promises: a zeroed block that no one uses, and back.
use operating_systems.Base.{
  ℕ, ◌+◌, ◌/◌, ◌%◌, ◌<◌, ◌≡◌, ◌≢◌, inl, inr, refl, sym, ◌∙◌, ap, subst, true, false, Option, none,
  some, ◌==◌, if◌then◌else◌, arith, Bool-cases,
}
use mathlib.Core.Bool.{true≢false}
use operating_systems.Str.{Bytes}
use operating_systems.Str.Move.{memset_lem}
use operating_systems.Log.Store.{put_at}
use operating_systems.Blocks.Map.{
  bpb, Disk, Superblock, readsb, bblock, bzero, is_marked, mark, unmark, balloc, bfree,
}
use operating_systems.Blocks.FreeMap.{
  in_use, AllUsed, Chosen, balloc_from-Chosen, is_marked-mark, is_marked-unmark,
}

-- The blocks of the map are in use themselves.
abbrev pub MapInUse : Superblock → Disk → Type 0
MapInUse sb d = (c : ℕ) → c < sb.size → in_use sb d (bblock sb c) ≡ true

balloc-Chosen : (sb : Superblock) (d : Disk) → Chosen sb d 0 (balloc sb d)
unfolding balloc
balloc-Chosen sb d = balloc_from-Chosen sb d (sb.size / 4096 + 1) 0 (omega arith)

-- The map after a block of it got its bit changed.
marked-other :
    (sb : Superblock) (d : Disk) (b c : ℕ) (m : Bytes)
    → bblock sb b ≢ bblock sb c
    → in_use sb (put_at d (bblock sb b) m) c ≡ in_use sb d c
unfolding in_use
marked-other sb d b c m ne = ground arith

pub in_use-mark :
    (sb : Superblock) (d : Disk) (b c : ℕ)
    → in_use sb (put_at d (bblock sb b) (mark (d (bblock sb b)) (b % bpb))) c
      ≡ (if c == b then true else in_use sb d c)
unfolding in_use
in_use-mark sb d b c = elim (Bool-cases (bblock sb c == bblock sb b)) [
  | inl e ↦
      let same : bblock sb c ≡ bblock sb b = ground arith in
      rw (e, is_marked-mark (d (bblock sb b)) (b % bpb) (c % bpb), same) (ground arith)
  | inr e ↦ rw (e) (ground arith)
]

pub in_use-unmark :
    (sb : Superblock) (d : Disk) (b c : ℕ)
    → in_use sb (put_at d (bblock sb b) (unmark (d (bblock sb b)) (b % bpb))) c
      ≡ (if c == b then false else in_use sb d c)
unfolding in_use
in_use-unmark sb d b c = elim (Bool-cases (bblock sb c == bblock sb b)) [
  | inl e ↦
      let same : bblock sb c ≡ bblock sb b = ground arith in
      rw (e, is_marked-unmark (d (bblock sb b)) (b % bpb) (c % bpb), same) (ground arith)
  | inr e ↦ rw (e) (ground arith)
]

-- Zeroing a block that is none of the map leaves the map.
in_use-bzero :
    (sb : Superblock) (d : Disk) (b c : ℕ)
    → b ≢ bblock sb c
    → in_use sb (bzero b d) c ≡ in_use sb d c
unfolding in_use bzero
in_use-bzero sb d b c ne = ground arith

zeroed : (b : ℕ) (d : Disk) (x : ℕ) → x < 512 → bzero b d b x ≡ 0
unfolding bzero
zeroed b d x lt =
    let self : (b == b) ≡ true = ground arith in
    rw (self, memset_lem 0 0 512 (d b) x) (ground arith)

-- Block `c` was free and is taken now: the first free one, zeroed, and nothing else changed but its
-- bit.
pub record Fresh (sb : Superblock) (d : Disk) (c : ℕ) (d' : Disk) : Type 0 where
  pub exists : c < sb.size
  pub was_free : in_use sb d c ≡ false
  pub first : AllUsed sb d 0 c
  pub off_map : (b : ℕ) → b < sb.size → c ≢ bblock sb b
  pub marks : (b : ℕ) → b < sb.size → in_use sb d' b ≡ (if b == c then true else in_use sb d b)
  pub zeroes : (x : ℕ) → x < 512 → d' c x ≡ 0
  pub others : (b : ℕ) → b ≢ c → b ≢ bblock sb c → d' b ≡ d b

-- What a call of `balloc` gives: a fresh block, or none where all are in use.
abbrev pub Allocates : Superblock → Disk → Option (ℕ × Disk) → Type 0
Allocates sb d none = AllUsed sb d 0 sb.size
Allocates sb d (some (c, d')) = Fresh sb d c d'

elsewhere :
    (sb : Superblock) (d : Disk) (c b : ℕ) (m : Bytes)
    → b ≢ c
    → b ≢ bblock sb c
    → bzero c (put_at d (bblock sb c) m) b ≡ d b
unfolding bzero
elsewhere sb d c b m n n' = ground arith

readsb_same : (d d' : Disk) → d' 1 ≡ d 1 → readsb d' ≡ readsb d
unfolding readsb
readsb_same d d' same = rw (same) refl

off_map_lem :
    (sb : Superblock) (d : Disk) (c : ℕ)
    → MapInUse sb d
    → in_use sb d c ≡ false
    → (b : ℕ) → b < sb.size
    → c ≢ bblock sb b
off_map_lem sb d c inv free b lt e =
    let used : in_use sb d c ≡ true = subst (λ x. in_use sb d x ≡ true) (sym e) (inv b lt) in
    true≢false (sym used ∙ free)

Chosen-Allocates :
    (sb : Superblock) (d : Disk) (o : Option (ℕ × Disk))
    → MapInUse sb d
    → Chosen sb d 0 o
    → Allocates sb d o
Chosen-Allocates sb d none inv used = used
Chosen-Allocates sb d (some (c, d')) inv (lt, free, first, out) =
    let off = off_map_lem sb d c inv free in
    record {
      exists = lt;
      was_free = free;
      first = first;
      off_map = off;
      marks = λ b l.
          ap (λ e. in_use sb e b) out ∙ in_use-bzero sb _ c b (off b l) ∙ in_use-mark sb d c b;
      zeroes = λ x l. ap (λ e. e c x) out ∙ zeroed c _ x l;
      others = λ b n m. ap (λ e. e b) out ∙ elsewhere sb d c b _ n m;
    }

-- Provided the blocks of the map are marked as in use, `balloc` panics only when every block is in
-- use, and otherwise gives the first free block, zeroed and marked, and changes nothing else.
pub balloc_lem : (sb : Superblock) (d : Disk) → MapInUse sb d → Allocates sb d (balloc sb d)
balloc_lem sb d inv = Chosen-Allocates sb d _ inv (balloc-Chosen sb d)

-- What a call of `bfree` gives: its panic where the block is free, or the map without its mark.
abbrev pub Frees : Disk → ℕ → Option Disk → Type 0
Frees d b none = in_use (readsb d) d b ≡ false
Frees d b (some d') =
    (in_use (readsb d) d b ≡ true)
    × ((c : ℕ) → in_use (readsb d) d' c ≡ (if c == b then false else in_use (readsb d) d c))
    × ((c : ℕ) → c ≢ bblock (readsb d) b → d' c ≡ d c)

-- `bfree` panics exactly when the map says that the block is free; otherwise it clears the block's
-- mark, keeps the marks of all others, and changes no block but the one of the map.
pub bfree_lem : (d : Disk) (b : ℕ) → Frees d b (bfree b d)
unfolding bfree in_use
bfree_lem d b = elim (Bool-cases (is_marked (d (bblock (readsb d) b)) (b % bpb))) [
  | inl e ↦ rw (e) (e, in_use-unmark (readsb d) d b, λ c n. ground arith)
  | inr e ↦ rw (e) e
]

mark_undone :
    (sb : Superblock) (d : Disk) (b c : ℕ)
    → in_use sb d b ≡ false
    → (if c == b then false else (if c == b then true else in_use sb d c)) ≡ in_use sb d c
mark_undone sb d b c free = elim (Bool-cases (c == b)) [
  | inl e ↦
      let same : b ≡ c = ground arith in rw (e) (subst (λ x. false ≡ in_use sb d x) same (sym free))
  | inr e ↦ rw (e) refl
]

-- A fresh block that is given back leaves the map as it was, provided the superblock is neither the
-- block nor its part of the map.
pub bfree-balloc :
    (d d' : Disk) (b : ℕ)
    → MapInUse (readsb d) d
    → balloc (readsb d) d ≡ some (b, d')
    → b ≢ 1
    → bblock (readsb d) b ≢ 1
    → (d'' : Disk) × (bfree b d' ≡ some d'')
      × ((c : ℕ) → c < (readsb d).size → in_use (readsb d) d'' c ≡ in_use (readsb d) d c)
bfree-balloc d d' b inv e n1 n2 =
    let fresh : Fresh (readsb d) d b d' =
      subst (Allocates (readsb d) d) e (balloc_lem (readsb d) d inv) in
    let super : readsb d' ≡ readsb d =
      readsb_same d d' (fresh.others 1 (λ q. n1 (sym q)) (λ q. n2 (sym q))) in
    freed fresh super (bfree b d') refl (bfree_lem d' b)
  where
    used : Fresh (readsb d) d b d' → readsb d' ≡ readsb d → in_use (readsb d') d' b ≡ true
    used fresh super = ap (λ sb. in_use sb d' b) super ∙ fresh.marks b fresh.exists ∙ ground arith

    freed :
        Fresh (readsb d) d b d'
        → readsb d' ≡ readsb d
        → (o : Option Disk) → bfree b d' ≡ o
        → Frees d' b o
        → (d'' : Disk) × (bfree b d' ≡ some d'')
          × ((c : ℕ) → c < (readsb d).size → in_use (readsb d) d'' c ≡ in_use (readsb d) d c)
    freed fresh super none eo free = absurd (true≢false (sym (used fresh super) ∙ free))
    freed fresh super (some d'') eo (was, marks, others) = (
      d'',
      eo,
      λ c lt.
          ap (λ sb. in_use sb d'' c) (sym super)
          ∙ marks c
          ∙ ap (λ sb. if c == b then false else in_use sb d' c) super
          ∙ ap (λ v. if c == b then false else v) (fresh.marks c lt)
          ∙ mark_undone (readsb d) d b c fresh.was_free,
    )
