-- ===== src/Str/Compare.antt =====
-- What the results of `memcmp`, `strncmp` and `strlen` of HW3/string.c say of the strings.
use operating_systems.Base.{
  ℕ, zero, suc, ◌+◌, ◌<◌, ◌≡◌, ◌≢◌, ◌↔◌, inl, inr, refl, ◌==◌, ◌∙◌, arith, Bool-cases, some, ◌&&◌,
  not,
}
use operating_systems.Base.Int.{pos, sub_ℕ-eq_zero}
use operating_systems.Str.{Bytes, memcmp, strncmp, strlen_from, strlen}

-- The first `n` bytes agree.
abbrev pub Agree : Bytes → Bytes → ℕ → Type 0
Agree p q n = (i : ℕ) → i < n → p i ≡ q i

memcmp-Agree : (n : ℕ) (p q : Bytes) → memcmp p q n ≡ pos 0 → Agree p q n
unfolding memcmp
memcmp-Agree zero p q h i lt = absurd (omega arith)
memcmp-Agree (suc n) p q h zero lt = ground (arith, sub_ℕ-eq_zero (p 0) (q 0))
memcmp-Agree (suc n) p q h (suc i) lt = elim (Bool-cases (p 0 == q 0)) [
  | inl e ↦ memcmp-Agree n (λ k. p (suc k)) (λ k. q (suc k)) (rw e at h) i (omega arith)
  | inr ne ↦ absurd (ground (arith, sub_ℕ-eq_zero (p 0) (q 0)))
]

Agree-memcmp : (n : ℕ) (p q : Bytes) → Agree p q n → memcmp p q n ≡ pos 0
unfolding memcmp
Agree-memcmp zero p q h = refl
Agree-memcmp (suc n) p q h = ground (
  arith,
  h 0 (omega arith),
  Agree-memcmp n (λ i. p (suc i)) (λ i. q (suc i)) (λ i lt. h (suc i) (omega arith)),
)

-- `memcmp` returns zero exactly when the blocks hold the same bytes.
pub memcmp-zero_iff : (p q : Bytes) (n : ℕ) → (memcmp p q n ≡ pos 0) ↔ Agree p q n
memcmp-zero_iff p q n = (memcmp-Agree n p q, Agree-memcmp n p q)

-- The strings agree up to the first zero byte, and to `n` bytes at most.
abbrev pub SameStr : Bytes → Bytes → ℕ → Type 0
SameStr p q n = (i : ℕ) → i < n → ((j : ℕ) → j < i → p j ≢ 0) → p i ≡ q i

strncmp-SameStr : (n : ℕ) (p q : Bytes) → strncmp p q n ≡ pos 0 → SameStr p q n
unfolding strncmp
strncmp-SameStr zero p q h i lt before = absurd (omega arith)
strncmp-SameStr (suc n) p q h zero lt before = ground (arith, sub_ℕ-eq_zero (p 0) (q 0))
strncmp-SameStr (suc n) p q h (suc i) lt before = elim (Bool-cases (not (p 0 == 0) && p 0 == q 0)) [
  | inl e ↦
      strncmp-SameStr n (λ k. p (suc k)) (λ k. q (suc k)) (rw e at h) i (omega arith)
        (λ j lt'. before (suc j) (omega arith))
  | inr ne ↦ absurd (ground (arith, sub_ℕ-eq_zero (p 0) (q 0), before 0 (omega arith)))
]

not_zero_before :
    (p : Bytes) (i j : ℕ) → p 0 ≢ 0 → ((k : ℕ) → k < i → p (suc k) ≢ 0) → j < suc i → p j ≢ 0
not_zero_before p i zero nz before lt = nz
not_zero_before p i (suc j) nz before lt = before j (omega arith)

SameStr-tail :
    (p q : Bytes) (n : ℕ)
    → SameStr p q (suc n)
    → p 0 ≢ 0
    → SameStr (λ i. p (suc i)) (λ i. q (suc i)) n
SameStr-tail p q n h nz i lt before =
    h (suc i) (omega arith) (λ j lt'. not_zero_before p i j nz before lt')

SameStr-head : (p q : Bytes) (n : ℕ) → SameStr p q (suc n) → p 0 ≡ q 0
SameStr-head p q n h = h 0 (omega arith) (λ j lt. absurd (omega arith))

SameStr-strncmp : (n : ℕ) (p q : Bytes) → SameStr p q n → strncmp p q n ≡ pos 0
unfolding strncmp
SameStr-strncmp zero p q h = refl
SameStr-strncmp (suc n) p q h = elim (Bool-cases (p 0 == 0)) [
  | inl z ↦ ground (arith, SameStr-head p q n h)
  | inr nz ↦ ground (
    arith,
    SameStr-head p q n h,
    SameStr-strncmp n (λ i. p (suc i)) (λ i. q (suc i)) (SameStr-tail p q n h (ground arith)),
  )
]

-- `strncmp` returns zero exactly when the strings agree up to their first zero byte or to `n` bytes.
pub strncmp-zero_iff : (p q : Bytes) (n : ℕ) → (strncmp p q n ≡ pos 0) ↔ SameStr p q n
strncmp-zero_iff p q n = (strncmp-SameStr n p q, SameStr-strncmp n p q)

strlen_from_lem :
    (fuel : ℕ) (s : Bytes) (n k : ℕ)
    → k < fuel
    → s (n + k) ≡ 0
    → ((j : ℕ) → j < k → s (n + j) ≢ 0)
    → strlen_from fuel s n ≡ some (n + k)
unfolding strlen_from
strlen_from_lem zero s n k lt z before = absurd (omega arith)
strlen_from_lem (suc fuel) s n zero lt z before =
    let e : n + 0 ≡ n = omega arith in rw e (ground (arith, (rw e at z)))
strlen_from_lem (suc fuel) s n (suc k) lt z before = rw (← shift k) (
    ground (
      arith,
      (rw (let e : n + 0 ≡ n = omega arith in e) at (before 0 (omega arith))),
      strlen_from_lem fuel s (n + 1) k (omega arith) (rw (shift k) z)
          (λ j lt'. rw (shift j) (before (suc j) (omega arith))),
    ))
  where
    shift : (j : ℕ) → n + 1 + j ≡ n + suc j
    shift j = omega arith

-- `strlen` ends at the first zero byte, with its position, when the fuel reaches that far.
pub strlen_lem :
    (fuel : ℕ) (s : Bytes) (k : ℕ)
    → k < fuel
    → s k ≡ 0
    → ((j : ℕ) → j < k → s j ≢ 0)
    → strlen fuel s ≡ some k
unfolding strlen
strlen_lem fuel s k lt z before =
    strlen_from_lem fuel s 0 k lt (ground arith) (λ j lt'. ground (arith, before j lt'))
    ∙ ground arith
