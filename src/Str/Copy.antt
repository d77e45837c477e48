-- ===== src/Str/Copy.antt =====
-- What `strncpy` and `safestrcpy` of HW3/string.c leave at the destination.
use operating_systems.Base.{
  ℕ, zero, suc, ◌+◌, ◌-◌, ◌<◌, ◌≤◌, ◌≡◌, ◌≢◌, ◌⊎◌, inl, inr, refl, ◌==◌, arith, Bool-cases,
  if◌then◌else◌, false,
}
use operating_systems.Str.{Bytes, store, pad_zero, strncpy, safestrcpy_loop, safestrcpy}
use operating_systems.Str.Move.{within}

pad_zero_lem : (s n : ℕ) (m : Bytes) (x : ℕ) → pad_zero s n m x ≡ (if within s n x then 0 else m x)
unfolding pad_zero
pad_zero_lem s zero m x = ground arith
pad_zero_lem s (suc n) m x = ground (arith, pad_zero_lem (s + 1) n (store m s 0) x)

-- Byte `i` of the string `t`, with zeros behind its first zero byte.
abbrev pub padded : Bytes → ℕ → ℕ
padded t zero = t 0
padded t (suc i) = if t 0 == 0 then 0 else padded (λ k. t (suc k)) i

strncpy_outside :
    (n s : ℕ) (t : Bytes) (m : Bytes) (x : ℕ) → (x < s) ⊎ (s + n ≤ x) → strncpy s t n m x ≡ m x
unfolding strncpy
strncpy_outside zero s t m x out = refl
strncpy_outside (suc n) s t m x out = ground (
  arith,
  pad_zero_lem (s + 1) n (store m s 0) x,
  strncpy_outside n (s + 1) (λ i. t (suc i)) (store m s (t 0)) x (ground arith),
)

strncpy_inside :
    (n s : ℕ) (t : Bytes) (m : Bytes) (i : ℕ) → i < n → strncpy s t n m (s + i) ≡ padded t i
unfolding strncpy
strncpy_inside zero s t m i lt = absurd (omega arith)
strncpy_inside (suc n) s t m zero lt = ground (
  arith,
  pad_zero_lem (s + 1) n (store m s 0) (s + 0),
  strncpy_outside n (s + 1) (λ i. t (suc i)) (store m s (t 0)) (s + 0) (inl (omega arith)),
)
strncpy_inside (suc n) s t m (suc i) lt = ground (
  arith,
  pad_zero_lem (s + 1) n (store m s 0) (s + suc i),
  strncpy_inside n (s + 1) (λ k. t (suc k)) (store m s (t 0)) i (omega arith),
)

-- `strncpy` writes the `n` bytes of the string padded with zeros, and nothing else.
pub strncpy_lem :
    (n s : ℕ) (t : Bytes) (m : Bytes)
    → ((i : ℕ) → i < n → strncpy s t n m (s + i) ≡ padded t i)
      × ((x : ℕ) → (x < s) ⊎ (s + n ≤ x) → strncpy s t n m x ≡ m x)
strncpy_lem n s t m = (strncpy_inside n s t m, strncpy_outside n s t m)

safestrcpy_loop_outside :
    (n s : ℕ) (t : Bytes) (m : Bytes) (x : ℕ)
    → (x < s) ⊎ (s + n < x)
    → safestrcpy_loop s t n m x ≡ m x
unfolding safestrcpy_loop
safestrcpy_loop_outside zero s t m x out = ground arith
safestrcpy_loop_outside (suc n) s t m x out =
    ground
      (arith, safestrcpy_loop_outside n (s + 1) (λ i. t (suc i)) (store m s (t 0)) x (ground arith))

-- The string at `s` after the copy: `k` nonzero bytes of `t` and a zero byte; the copy is cut short
-- only where `n` bytes are full.
pub record Copied (s : ℕ) (t : Bytes) (n : ℕ) (m : Bytes) (k : ℕ) : Type 0 where
  pub fits : k ≤ n
  pub ends : m (s + k) ≡ 0
  pub same : (j : ℕ) → j < k → (m (s + j) ≡ t j) × (t j ≢ 0)
  pub whole : (k ≡ n) ⊎ (t k ≡ 0)

Copied-cons_same :
    {s n k : ℕ} (t : Bytes) {m : Bytes}
    → Copied (s + 1) (λ i. t (suc i)) n m k
    → m s ≡ t 0
    → t 0 ≢ 0
    → (j : ℕ) → j < suc k
    → (m (s + j) ≡ t j) × (t j ≢ 0)
Copied-cons_same {s} t {m} c e nz zero lt = (let z : s + 0 ≡ s = omega arith in rw z e, nz)
Copied-cons_same {s} t {m} c e nz (suc j) lt =
    let z : s + 1 + j ≡ s + suc j = omega arith in rw z at (c.same j (omega arith))

Copied-cons :
    {s n k : ℕ} {t m : Bytes}
    → Copied (s + 1) (λ i. t (suc i)) n m k
    → m s ≡ t 0
    → t 0 ≢ 0
    → Copied s t (suc n) m (suc k)
Copied-cons {s} {n} {k} {t} c e nz = record {
  fits = omega arith;
  ends = let z : s + 1 + k ≡ s + suc k = omega arith in rw z at c.ends;
  same = Copied-cons_same t c e nz;
  whole = ground arith;
}

safestrcpy_loop_lem :
    (n s : ℕ) (t : Bytes) (m : Bytes) → (k : ℕ) × Copied s t n (safestrcpy_loop s t n m) k
unfolding safestrcpy_loop
safestrcpy_loop_lem zero s t m = (
  0,
  record {
    fits = omega arith;
    ends = ground arith;
    same = λ j lt. absurd (omega arith);
    whole = inl refl;
  },
)
safestrcpy_loop_lem (suc n) s t m = elim (Bool-cases (t 0 == 0)) [
  | inl z ↦ (
    0,
    record {
      fits = omega arith;
      ends = rw z (ground arith);
      same = λ j lt. absurd (omega arith);
      whole = inr (ground arith);
    },
  )
  | inr nz ↦
      let (k, c) = safestrcpy_loop_lem n (s + 1) (λ i. t (suc i)) (store m s (t 0)) in
      (suc k, rw nz (Copied-cons c (first nz) (ground arith)))
]
  where
    first :
        (t 0 == 0) ≡ false → safestrcpy_loop (s + 1) (λ i. t (suc i)) n (store m s (t 0)) s ≡ t 0
    first nz = ground (
      arith,
      safestrcpy_loop_outside n (s + 1) (λ i. t (suc i)) (store m s (t 0)) s (inl (omega arith)),
    )

-- With room for at least one byte `safestrcpy` leaves a zero-terminated string: the longest prefix
-- of `t` that fits; and it writes nowhere else.
pub safestrcpy_lem :
    (n s : ℕ) (t : Bytes) (m : Bytes)
    → 0 < n
    → ((k : ℕ) × Copied s t (n - 1) (safestrcpy s t n m) k)
      × ((x : ℕ) → (x < s) ⊎ (s + n ≤ x) → safestrcpy s t n m x ≡ m x)
unfolding safestrcpy
safestrcpy_lem n s t m pos = elim (Bool-cases (n == 0)) [
  | inl z ↦ absurd (ground arith)
  | inr nz ↦ rw nz (
    safestrcpy_loop_lem (n - 1) s t m,
    λ x out. safestrcpy_loop_outside (n - 1) s t m x (ground arith),
  )
]
