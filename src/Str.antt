-- ===== src/Str.antt =====
-- HW3/string.c: the kernel's memory and string routines. Memory is a function from addresses to
-- bytes; a `char *` that is only read is the function of the bytes behind it. Address sums do not
-- wrap. `memset` and `memmove` return their first argument, which is left out.
pub mod Move
pub mod Compare
pub mod Copy
mod Tests
use operating_systems.Base.Int.{ℤ, pos, sub_ℕ}
use operating_systems.Base.{
  ℕ, zero, suc, ◌+◌, ◌-◌, ◌*◌, ◌/◌, ◌%◌, ◌&&◌, not, ltb, ◌==◌, if◌then◌else◌, Option, none, some,
}

abbrev pub Bytes : Type 0
Bytes = ℕ → ℕ

-- `*a = v`
abbrev pub store : Bytes → ℕ → ℕ → Bytes
store m a v x = if a == x then v else m x

-- The `rep stosb` of x86.h: n bytes from `a` up.
unfoldable pub stosb : ℕ → ℕ → ℕ → Bytes → Bytes
stosb a c zero m = m
stosb a c (suc n) m = stosb (a + 1) c n (store m a (c % 256))

-- A word, low byte first.
unfoldable pub store_word : ℕ → ℕ → Bytes → Bytes
store_word a w m =
    store (store (store (store m a (w % 256)) (a + 1) (w / 256 % 256)) (a + 2) (w / 65536 % 256))
      (a + 3) (w / 16777216 % 256)

-- The `rep stosl` of x86.h: n words from `a` up.
unfoldable pub stosl : ℕ → ℕ → ℕ → Bytes → Bytes
stosl a w zero m = m
stosl a w (suc n) m = stosl (a + 4) w n (store_word a w m)

-- `memset`. The four bytes that are or-ed together do not overlap, so the word is their sum.
unfoldable pub memset : ℕ → ℕ → ℕ → Bytes → Bytes
memset dst c n m =
    if dst % 4 == 0 && n % 4 == 0
    then stosl dst (c % 256 * 16777216 + c % 256 * 65536 + c % 256 * 256 + c % 256) (n / 4) m
    else stosb dst c n m

-- `while(n-- > 0) *--d = *--s;`
unfoldable pub copy_down : ℕ → ℕ → ℕ → Bytes → Bytes
copy_down d s zero m = m
copy_down d s (suc n) m = copy_down (d - 1) (s - 1) n (store m (d - 1) (m (s - 1)))

-- `while(n-- > 0) *d++ = *s++;`
unfoldable pub copy_up : ℕ → ℕ → ℕ → Bytes → Bytes
copy_up d s zero m = m
copy_up d s (suc n) m = copy_up (d + 1) (s + 1) n (store m d (m s))

unfoldable pub memmove : ℕ → ℕ → ℕ → Bytes → Bytes
memmove dst src n m =
    if ltb src dst && ltb dst (src + n)
    then copy_down (dst + n) (src + n) n m
    else copy_up dst src n m

unfoldable pub memcmp : Bytes → Bytes → ℕ → ℤ
memcmp s1 s2 zero = pos 0
memcmp s1 s2 (suc n) =
    if s1 0 == s2 0 then memcmp (λ i. s1 (suc i)) (λ i. s2 (suc i)) n else sub_ℕ (s1 0) (s2 0)

-- The loop of `strncmp` and the test behind it.
unfoldable pub strncmp : Bytes → Bytes → ℕ → ℤ
strncmp p q zero = pos 0
strncmp p q (suc n) =
    if not (p 0 == 0) && p 0 == q 0
    then strncmp (λ i. p (suc i)) (λ i. q (suc i)) n
    else sub_ℕ (p 0) (q 0)

-- `while(n-- > 0) *s++ = 0;`
unfoldable pub pad_zero : ℕ → ℕ → Bytes → Bytes
pad_zero s zero m = m
pad_zero s (suc n) m = pad_zero (s + 1) n (store m s 0)

-- `strncpy` of the string `t` to the address `s`; a negative count, which does nothing, is zero here.
unfoldable pub strncpy : ℕ → Bytes → ℕ → Bytes → Bytes
strncpy s t zero m = m
strncpy s t (suc n) m =
    if t 0 == 0
    then pad_zero (s + 1) n (store m s 0)
    else strncpy (s + 1) (λ i. t (suc i)) n (store m s (t 0))

-- The loop of `safestrcpy` with `n` counting what `--n` leaves, and the last write behind it.
unfoldable pub safestrcpy_loop : ℕ → Bytes → ℕ → Bytes → Bytes
safestrcpy_loop s t zero m = store m s 0
safestrcpy_loop s t (suc n) m =
    if t 0 == 0
    then store (store m s 0) (s + 1) 0
    else safestrcpy_loop (s + 1) (λ i. t (suc i)) n (store m s (t 0))

unfoldable pub safestrcpy : ℕ → Bytes → ℕ → Bytes → Bytes
safestrcpy s t n m = if n == 0 then m else safestrcpy_loop s t (n - 1) m

-- `strlen` from position `n` on; none means that no zero byte was seen within the fuel.
unfoldable pub strlen_from : ℕ → Bytes → ℕ → Option ℕ
strlen_from zero s n = none
strlen_from (suc fuel) s n =
    let rest = strlen_from fuel s (n + 1) in if s n == 0 then some n else rest

unfoldable pub strlen : ℕ → Bytes → Option ℕ
strlen fuel s = strlen_from fuel s 0
