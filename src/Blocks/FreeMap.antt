-- ===== src/Blocks/FreeMap.antt =====
-- What `balloc` and `bfree` of HW3/fs.c do to the map of the free blocks.
use operating_systems.Base.{
  ℕ, zero, suc, ◌+◌, ◌-◌, ◌*◌, ◌/◌, ◌%◌, ◌<◌, ◌≤◌, ◌≡◌, inl, inr, refl, subst, Bool, true, false,
  Option, none, some, ltb, ◌==◌, if◌then◌else◌, arith, Bool-cases, ltb→lt,
}
use operating_systems.Str.{Bytes}
use operating_systems.Log.Store.{put_at}
use operating_systems.Blocks.Bits.{has_bit-set_bit, has_bit-clear_bit}
use operating_systems.Blocks.Map.{
  bpb, Disk, Superblock, bblock, bzero, is_marked, mark, unmark, clear_bit_from, take_block,
  balloc_from,
}

-- Does the map say that block `b` is in use?
unfoldable pub in_use : Superblock → Disk → ℕ → Bool
in_use sb d b = is_marked (d (bblock sb b)) (b % bpb)

pub is_marked-mark :
    (m : Bytes) (bi j : ℕ) → is_marked (mark m bi) j ≡ (if j == bi then true else is_marked m j)
unfolding is_marked
is_marked-mark m bi j = ground (arith, has_bit-set_bit (j % 8) (bi % 8) (m (bi / 8)))

pub is_marked-unmark :
    (m : Bytes) (bi j : ℕ) → is_marked (unmark m bi) j ≡ (if j == bi then false else is_marked m j)
unfolding is_marked
is_marked-unmark m bi j = ground (arith, has_bit-clear_bit (j % 8) (bi % 8) (m (bi / 8)))

-- All bits from `bi` up to `top` are set, of those that stand for blocks below `size`.
abbrev pub AllSet : ℕ → ℕ → Bytes → ℕ → ℕ → Type 0
AllSet size b m bi top = (j : ℕ) → bi ≤ j → j < top → b + j < size → is_marked m j ≡ true

-- What the inner loop of `balloc` finds.
abbrev pub Scanned : ℕ → ℕ → ℕ → ℕ → Bytes → Option ℕ → Type 0
Scanned size b count bi m none = AllSet size b m bi (bi + count)
Scanned size b count bi m (some r) =
    (bi ≤ r) × (r < bi + count) × (b + r < size) × (is_marked m r ≡ false) × AllSet size b m bi r

AllSet-step :
    (size b bi top : ℕ) (m : Bytes)
    → is_marked m bi ≡ true
    → AllSet size b m (bi + 1) top
    → AllSet size b m bi top
AllSet-step size b bi top m here later j ge lt small = elim (Bool-cases (bi == j)) [
  | inl e ↦ let same : bi ≡ j = ground arith in subst (λ x. is_marked m x ≡ true) same here
  | inr e ↦ later j (ground arith) lt small
]

Scanned-step :
    (size b count bi : ℕ) (m : Bytes) (o : Option ℕ)
    → is_marked m bi ≡ true
    → Scanned size b count (bi + 1) m o
    → Scanned size b (suc count) bi m o
Scanned-step size b count bi m none here s = λ j ge lt small.
    AllSet-step size b bi (bi + suc count) m here (λ i g l. s i g (omega arith)) j ge lt small
Scanned-step size b count bi m (some r) here (ge, lt, small, clear, before) =
    (omega arith, omega arith, small, clear, AllSet-step size b bi r m here before)

clear_bit_from-Scanned :
    (size b count bi : ℕ) (m : Bytes) → Scanned size b count bi m (clear_bit_from size b count bi m)
unfolding clear_bit_from
clear_bit_from-Scanned size b zero bi m = λ j ge lt small. absurd (omega arith)
clear_bit_from-Scanned size b (suc count) bi m = elim (Bool-cases (ltb (b + bi) size)) [
  | inr e ↦ rw (e) (λ j ge lt small. absurd (ground arith))
  | inl e ↦ elim (Bool-cases (is_marked m bi)) [
    | inl f ↦
        rw (e, f)
          (Scanned-step size b count bi m _ f (clear_bit_from-Scanned size b count (bi + 1) m))
    | inr f ↦
        rw (e, f) (omega arith, omega arith, ltb→lt _ _ e, f, λ j ge lt small. absurd (omega arith))
  ]
]

abbrev pub AllUsed : Superblock → Disk → ℕ → ℕ → Type 0
AllUsed sb d bottom top = (c : ℕ) → bottom ≤ c → c < top → in_use sb d c ≡ true

-- What the loops of `balloc` from block `b` on come to.
abbrev pub Chosen : Superblock → Disk → ℕ → Option (ℕ × Disk) → Type 0
Chosen sb d b none = AllUsed sb d b sb.size
Chosen sb d b (some (c, d')) =
    (c < sb.size)
    × (in_use sb d c ≡ false)
    × AllUsed sb d b c
    × (d' ≡ bzero c (put_at d (bblock sb c) (mark (d (bblock sb c)) (c % bpb))))

-- The bits of one block of the map are those of its blocks.
group-used :
    (sb : Superblock) (d : Disk) (q top c : ℕ)
    → top ≤ 4096
    → AllSet sb.size (q * 4096) (d (bblock sb (q * 4096))) 0 top
    → q * 4096 ≤ c
    → c < q * 4096 + top
    → c < sb.size
    → in_use sb d c ≡ true
unfolding in_use
group-used sb d q top c le all ge lt small =
    let bi : ℕ = c - q * 4096 in
    let same : c ≡ q * 4096 + bi = omega arith in
    let block : c / 4096 ≡ q * 4096 / 4096 = omega arith in
    let bit : c % 4096 ≡ bi = omega arith in
    rw (block, bit) (all bi (omega arith) (omega arith) (omega arith))

Chosen-here :
    (sb : Superblock) (d : Disk) (q bi : ℕ)
    → Scanned sb.size (q * 4096) 4096 0 (d (bblock sb (q * 4096))) (some bi)
    → Chosen sb d (q * 4096) (some (take_block sb (q * 4096) bi d))
unfolding in_use
Chosen-here sb d q bi (ge, lt, small, clear, before) =
    let block : (q * 4096 + bi) / 4096 ≡ q * 4096 / 4096 = omega arith in
    let bit : (q * 4096 + bi) % 4096 ≡ bi = omega arith in
    (
      small,
      rw (block, bit) clear,
      (λ c g l. group-used sb d q bi c (omega arith) before g l (omega arith)),
      rw (block, bit) refl,
    )

Chosen-later :
    (sb : Superblock) (d : Disk) (q : ℕ) (o : Option (ℕ × Disk))
    → Scanned sb.size (q * 4096) 4096 0 (d (bblock sb (q * 4096))) none
    → Chosen sb d (suc q * 4096) o
    → Chosen sb d (q * 4096) o
Chosen-later sb d q none s later = λ c g l. elim (Bool-cases (ltb c (suc q * 4096))) [
  | inl e ↦ group-used sb d q 4096 c (omega arith) s g (ground arith) l
  | inr e ↦ later c (ground arith) l
]
Chosen-later sb d q (some (b, d')) s (small, clear, before, out) = (
  small,
  clear,
  (λ c g l. elim (Bool-cases (ltb c (suc q * 4096))) [
    | inl e ↦ group-used sb d q 4096 c (omega arith) s g (ground arith) (omega arith)
    | inr e ↦ before c (ground arith) l
  ]),
  out,
)

-- The fuel is enough for the blocks of the map that are left.
pub balloc_from-Chosen :
    (sb : Superblock) (d : Disk) (fuel q : ℕ)
    → sb.size ≤ (q + fuel) * 4096
    → Chosen sb d (q * 4096) (balloc_from sb fuel (q * 4096) d)
unfolding balloc_from
balloc_from-Chosen sb d zero q enough = λ c g l. absurd (omega arith)
balloc_from-Chosen sb d (suc fuel) q enough = elim (Bool-cases (ltb (q * 4096) sb.size)) [
  | inr e ↦ rw (e) (λ c g l. absurd (ground arith))
  | inl e ↦ rw (e) (
      scan
        (let next : suc q * 4096 ≡ q * 4096 + 4096 = omega arith in
          subst (λ b. Chosen sb d b (balloc_from sb fuel b d)) next
            (balloc_from-Chosen sb d fuel (suc q) (omega arith)))
        (clear_bit_from sb.size (q * 4096) bpb 0 (d (bblock sb (q * 4096))))
        (clear_bit_from-Scanned _ _ _ _ _))
]
  where
    scan :
        Chosen sb d (q * 4096 + 4096) (balloc_from sb fuel (q * 4096 + bpb) d)
        → (o : Option ℕ) → Scanned sb.size (q * 4096) 4096 0 (d (bblock sb (q * 4096))) o
        → Chosen sb d (q * 4096) (elim o [
          | some bi ↦ some (take_block sb (q * 4096) bi d)
          | none ↦ balloc_from sb fuel (q * 4096 + bpb) d
        ])
    scan later none s = Chosen-later sb d q _ s (
        let next : q * 4096 + 4096 ≡ suc q * 4096 = omega arith in
        subst (λ b. Chosen sb d b (balloc_from sb fuel (q * 4096 + bpb) d)) next later)
    scan later (some bi) s = Chosen-here sb d q bi s
