-- ===== src/UserLib/Printed.antt =====
-- What `printint` prints is what `atoi` reads, and fits its buffer.
use operating_systems.Base.{
  ℕ, zero, suc, ◌+◌, ◌-◌, ◌*◌, ◌/◌, ◌%◌, ◌^◌, ◌<◌, ◌≤◌, ◌≡◌, ◌⊎◌, inl, inr, refl, ◌∙◌, Bool, true,
  false, ◌&&◌, Bool-cases, List, [], ◌∷◌, length, length-append, sub32, leb, ◌==◌, arith,
}
use operating_systems.UserLib.Numbers.{
  digits_of, put_back, number_buf, printint, console_printint, atoi_from, atoi,
}

-- The number of a list of decimal digits, the last one first.
value : List ℕ → ℕ
value [] = 0
value (c ∷ cs) = c - 48 + 10 * value cs

-- Are all of them digits?
Digits : List ℕ → Type 0
Digits [] = Unit
Digits (c ∷ cs) = (48 ≤ c) × (c ≤ 57) × Digits cs

digits_of-Digits : (letter fuel x : ℕ) → Digits (digits_of letter 10 fuel x)
unfolding digits_of Digits
digits_of-Digits letter zero x = tt
digits_of-Digits letter (suc fuel) x = elim (Bool-cases (x / 10 == 0)) [
  | inl y ↦ rw (y) (ground arith, ground arith, tt)
  | inr n ↦ rw (n) (ground arith, ground arith, digits_of-Digits letter fuel (x / 10))
]

-- The number doubled `n` times.
twice : ℕ → ℕ
twice zero = 1
twice (suc n) = twice n * 2

value-digits_of : (letter fuel x : ℕ) → x < twice fuel → value (digits_of letter 10 fuel x) ≡ x
unfolding digits_of value twice
value-digits_of letter zero x lt = omega arith
value-digits_of letter (suc fuel) x lt = elim (Bool-cases (x / 10 == 0)) [
  | inl y ↦ rw (y) (ground arith)
  | inr n ↦ rw (n, value-digits_of letter fuel (x / 10) (omega arith)) (ground arith)
]

-- `atoi` of the digits, of a number below 2^32, and then of what is behind them.
atoi_from-put_back :
    (buf out : List ℕ)
    → Digits buf
    → value buf < 2 ^ 32
    → atoi_from 0 (put_back buf out) ≡ atoi_from (value buf) out
unfolding atoi_from put_back value Digits
atoi_from-put_back [] out d lt = refl
atoi_from-put_back (c ∷ buf) out (lo, hi, d) lt =
    let is_digit : leb 48 c && leb c 57 ≡ true = ground arith in
    let wrap : (value buf * 10 + (c - 48)) % 2 ^ 32 ≡ c - 48 + 10 * value buf = omega arith in
    atoi_from-put_back buf (c ∷ out) d (omega arith) ∙ rw (is_digit, wrap) refl

-- `atoi` reads what `printint` prints in base ten of an unsigned number of 32 bits, or of a signed one
-- that is not negative, and the same holds for the console's `printint`.
pub atoi-printint :
    (xx : ℕ) (sgn : Bool)
    → xx < 2 ^ 32
    → (sgn && leb (2 ^ 31) xx) ≡ false
    → (atoi (printint xx 10 sgn) ≡ xx) × (atoi (console_printint xx 10 sgn) ≡ xx)
unfolding printint console_printint atoi atoi_from twice
atoi-printint xx sgn lt plus = (rw (plus) (read b'A'), rw (plus) (read b'a'))
  where
    read : (letter : ℕ) → atoi_from 0 (put_back (digits_of letter 10 32 xx) []) ≡ xx
    read letter =
        let small : xx < twice 32 = lt in
        let is = value-digits_of letter 32 xx small in
        atoi_from-put_back (digits_of letter 10 32 xx) [] (digits_of-Digits letter 32 xx)
          (omega arith)
        ∙ rw (is) refl

-- Ten to the power `n`.
tens : ℕ → ℕ
tens zero = 1
tens (suc n) = tens n * 10

digits_of-fit :
    (base : ℕ)
    → ((x : ℕ) → x / base ≤ x / 10)
    → (letter fuel n x : ℕ) → x < tens (suc n)
    → length (digits_of letter base fuel x) ≤ suc n
unfolding digits_of tens
digits_of-fit base shrinks letter zero n x lt = omega arith
digits_of-fit base shrinks letter (suc fuel) zero x lt =
    let last : (x / base == 0) ≡ true = (let le = shrinks x in ground arith) in
    rw (last) (omega arith)
digits_of-fit base shrinks letter (suc fuel) (suc n) x lt = elim (Bool-cases (x / base == 0)) [
  | inl y ↦ rw (y) (omega arith)
  | inr m ↦ rw (m) (
      let le =
        digits_of-fit base shrinks letter fuel n (x / base) (let le = shrinks x in omega arith) in
      omega arith)
]

-- In the bases ten and sixteen, the only ones asked for, `printint` puts at most 11 characters into its
-- buffer of 16, for every number of 32 bits.
pub number_buf-fits :
    (letter xx base : ℕ) (sgn : Bool)
    → xx < 2 ^ 32
    → (base ≡ 10) ⊎ (base ≡ 16)
    → length (number_buf letter xx base sgn) ≤ 11
unfolding tens
number_buf-fits letter xx base sgn lt which = elim (Bool-cases (sgn && leb (2 ^ 31) xx)) [
  | inl y ↦
      rw (y, length-append (digits_of letter base 32 (sub32 0 xx)) (b'-' ∷ []))
        (let le = digits_of-fit base shrinks letter 32 9 (sub32 0 xx) (omega arith) in omega arith)
  | inr n ↦ rw (n) (let le = digits_of-fit base shrinks letter 32 9 xx (omega arith) in omega arith)
]
  where
    shrinks : (x : ℕ) → x / base ≤ x / 10
    shrinks x = elim which [ inl e ↦ rw (e) (omega arith) | inr e ↦ rw (e) (omega arith) ]
