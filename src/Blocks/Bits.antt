-- ===== src/Blocks/Bits.antt =====
-- One-bit masks on a byte, as the free map of HW3/fs.c uses them.
use Prim.Native.Nat.{max}
use operating_systems.Base.{
  ℕ, zero, suc, ◌+◌, ◌*◌, ◌/◌, ◌%◌, ◌<◌, ◌≡◌, Bool, true, false, ◌==◌, if◌then◌else◌, arith,
}

-- `(x & (1 << k)) != 0`
unfoldable pub has_bit : ℕ → ℕ → Bool
has_bit zero x = x % 2 == 1
has_bit (suc k) x = has_bit k (x / 2)

-- `x | (1 << k)`
unfoldable pub set_bit : ℕ → ℕ → ℕ
set_bit zero x = x / 2 * 2 + 1
set_bit (suc k) x = set_bit k (x / 2) * 2 + x % 2

-- `x & ~(1 << k)`
unfoldable pub clear_bit : ℕ → ℕ → ℕ
clear_bit zero x = x / 2 * 2
clear_bit (suc k) x = clear_bit k (x / 2) * 2 + x % 2

-- `x | y`, for a number `y` of at most `width` bits.
unfoldable pub or_bits : ℕ → ℕ → ℕ → ℕ
or_bits zero x y = x
or_bits (suc width) x y = or_bits width (x / 2) (y / 2) * 2 + max (x % 2) (y % 2)

-- The number `x` doubled as often as said.
abbrev pub doubled : ℕ → ℕ → ℕ
doubled zero x = x
doubled (suc n) x = doubled n x * 2

pub or_bits-lt :
    (width x y bound : ℕ) → x < doubled width bound → or_bits width x y < doubled width bound
unfolding or_bits
or_bits-lt zero x y bound lt = lt
or_bits-lt (suc width) x y bound lt =
    let below = or_bits-lt width (x / 2) (y / 2) bound (omega arith) in omega arith

halves : (y x : ℕ) → (y * 2 + x % 2) / 2 ≡ y
halves y x = omega arith

halves_odd : (x : ℕ) → (x / 2 * 2 + 1) / 2 ≡ x / 2
halves_odd x = omega arith

halves_even : (x : ℕ) → x / 2 * 2 / 2 ≡ x / 2
halves_even x = omega arith

pub has_bit-set_bit : (j k x : ℕ) → has_bit j (set_bit k x) ≡ (if j == k then true else has_bit j x)
unfolding has_bit set_bit
has_bit-set_bit zero zero x = ground arith
has_bit-set_bit zero (suc k) x = ground arith
has_bit-set_bit (suc j) zero x = rw (halves_odd x) (ground arith)
has_bit-set_bit (suc j) (suc k) x =
    rw (halves (set_bit k (x / 2)) x) (ground (arith, has_bit-set_bit j k (x / 2)))

pub has_bit-clear_bit :
    (j k x : ℕ) → has_bit j (clear_bit k x) ≡ (if j == k then false else has_bit j x)
unfolding has_bit clear_bit
has_bit-clear_bit zero zero x = ground arith
has_bit-clear_bit zero (suc k) x = ground arith
has_bit-clear_bit (suc j) zero x = rw (halves_even x) (ground arith)
has_bit-clear_bit (suc j) (suc k) x =
    rw (halves (clear_bit k (x / 2)) x) (ground (arith, has_bit-clear_bit j k (x / 2)))

-- The mask of a bit that is clear is undone.
pub clear_bit-set_bit : (k x : ℕ) → has_bit k x ≡ false → clear_bit k (set_bit k x) ≡ x
unfolding has_bit set_bit clear_bit
clear_bit-set_bit zero x clear = ground arith
clear_bit-set_bit (suc k) x clear =
    rw (halves (set_bit k (x / 2)) x) (ground (arith, clear_bit-set_bit k (x / 2) clear))
