-- ===== src/UserLib/Numbers.antt =====
-- HW3/printf.c and HW3/console.c: the digits of a number; HW3/ulib.c: `atoi`. A number is given by its
-- 32 bits, and what is printed is a list of bytes.
use operating_systems.Base.{
  ℕ, zero, suc, ◌+◌, ◌-◌, ◌*◌, ◌/◌, ◌%◌, ◌^◌, ◌&&◌, Bool, List, [], ◌∷◌, ◌++◌, sub32, ltb, leb,
  ◌==◌, if◌then◌else◌,
}

-- `digits[d]`, with the letters of the table from `letter` on.
abbrev pub digit : ℕ → ℕ → ℕ
digit letter d = if ltb d 10 then b'0' + d else letter + (d - 10)

-- The `do` loop of `printint`: what it puts into `buf`, the last digit first. The fuel is 32, the bits
-- of the number.
unfoldable pub digits_of : ℕ → ℕ → ℕ → ℕ → List ℕ
digits_of letter base zero x = []
digits_of letter base (suc fuel) x =
    let rest = digits_of letter base fuel (x / base) in
    digit letter (x % base) ∷ (if x / base == 0 then [] else rest)

-- `while(--i >= 0) putc(fd, buf[i]);`, with `out` for what is printed behind it.
unfoldable pub put_back : List ℕ → List ℕ → List ℕ
put_back [] out = out
put_back (c ∷ buf) out = put_back buf (c ∷ out)

-- The content of `buf`.
abbrev pub number_buf : ℕ → ℕ → ℕ → Bool → List ℕ
number_buf letter xx base sgn =
    if sgn && leb (2 ^ 31) xx
    then digits_of letter base 32 (sub32 0 xx) ++ (b'-' ∷ [])
    else digits_of letter base 32 xx

-- `printint` of HW3/printf.c
unfoldable pub printint : ℕ → ℕ → Bool → List ℕ
printint xx base sgn = put_back (number_buf b'A' xx base sgn) []

-- `printint` of HW3/console.c
unfoldable pub console_printint : ℕ → ℕ → Bool → List ℕ
console_printint xx base sgn = put_back (number_buf b'a' xx base sgn) []

-- The loop of `atoi`, with an `int` that wraps.
unfoldable pub atoi_from : ℕ → List ℕ → ℕ
atoi_from n [] = n
atoi_from n (c ∷ s) =
    let rest = atoi_from ((n * 10 + (c - b'0')) % 2 ^ 32) s in
    if leb b'0' c && leb c b'9' then rest else n

-- `atoi`; the end of the list is the zero byte.
unfoldable pub atoi : List ℕ → ℕ
atoi s = atoi_from 0 s
