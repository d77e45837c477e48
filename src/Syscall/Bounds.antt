-- ===== src/Syscall/Bounds.antt =====
-- The strings that `fetchstr` of HW3/syscall.c lets through.
use operating_systems.Base.{
  ℕ, zero, suc, ◌+◌, ◌-◌, ◌<◌, ◌≤◌, ◌≡◌, ◌≢◌, inl, inr, false, Option, none, some, leb, ◌==◌, arith,
  Bool-cases,
}
use operating_systems.Str.{Bytes}
use operating_systems.Syscall.{find_zero, fetchstr}

-- What `fetchstr` answers: the length of a string that ends inside the memory, or -1 if no byte from
-- the address up to the end of the memory is zero.
abbrev pub StringSpec : ℕ → Bytes → ℕ → Option ℕ → Type 0
StringSpec sz m addr none = (x : ℕ) → addr ≤ x → x < sz → m x ≢ 0
StringSpec sz m addr (some n) =
    (addr + n < sz) × (m (addr + n) ≡ 0) × ((j : ℕ) → j < n → m (addr + j) ≢ 0)

find_zero_lem :
    (left n sz : ℕ) (m : Bytes) (addr : ℕ)
    → addr + n + left ≡ sz
    → ((j : ℕ) → j < n → m (addr + j) ≢ 0)
    → StringSpec sz m addr (find_zero left n m addr)
unfolding find_zero
find_zero_lem zero n sz m addr e before = λ x lo hi.
    let at : addr + (x - addr) ≡ x = omega arith in rw at at (before (x - addr) (omega arith))
find_zero_lem (suc left) n sz m addr e before = elim (Bool-cases (m (addr + n) == 0)) [
  | inl z ↦ rw z (omega arith, ground (arith, z), before)
  | inr nz ↦ rw nz (find_zero_lem left (n + 1) sz m addr (omega arith) (λ j lt. also j lt nz))
]
  where
    also : (j : ℕ) → j < n + 1 → (m (addr + n) == 0) ≡ false → m (addr + j) ≢ 0
    also j lt nz = elim (Bool-cases (j == n)) [
      | inl here ↦ let same : j ≡ n = ground (arith, here) in rw same (ground (arith, nz))
      | inr other ↦ before j (ground (arith, other))
    ]

-- `fetchstr` answers with the length of the string at the address if it ends inside the memory of the
-- process, and with -1 exactly if it does not.
pub fetchstr_lem : (sz : ℕ) (m : Bytes) (addr : ℕ) → StringSpec sz m addr (fetchstr sz m addr)
unfolding fetchstr
fetchstr_lem sz m addr = elim (Bool-cases (leb sz addr)) [
  | inl out ↦ rw out (λ x lo hi. absurd (ground (arith, out)))
  | inr inside ↦ rw inside (
      find_zero_lem (sz - addr) 0 sz m addr (ground (arith, inside)) (λ j lt. absurd (omega arith)))
]
