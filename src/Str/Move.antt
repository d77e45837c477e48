-- ===== src/Str/Move.antt =====
-- What `memmove` and `memset` of HW3/string.c leave in memory.
use operating_systems.Base.{
  ℕ, zero, suc, ◌+◌, ◌-◌, ◌*◌, ◌/◌, ◌%◌, ◌<◌, ◌≤◌, ◌≡◌, ◌⊎◌, ◌&&◌, ltb, leb, arith, if◌then◌else◌,
  Bool,
}
use operating_systems.Str.{
  Bytes, store, stosb, store_word, stosl, memset, copy_down, copy_up, memmove,
}

-- Is `x` one of the `n` addresses from `a` up?
abbrev pub within : ℕ → ℕ → ℕ → Bool
within a n x = leb a x && ltb x (a + n)

copy_up_lem :
    (d s n : ℕ) (m : Bytes) (x : ℕ)
    → (d ≤ s) ⊎ (s + n ≤ d)
    → copy_up d s n m x ≡ (if within d n x then m (s + (x - d)) else m x)
unfolding copy_up
copy_up_lem d s zero m x h = ground arith
copy_up_lem d s (suc n) m x h =
    ground (arith, copy_up_lem (d + 1) (s + 1) n (store m d (m s)) x (omega arith))

copy_down_lem :
    (d s n : ℕ) (m : Bytes) (x : ℕ)
    → s < d
    → copy_down (d + n) (s + n) n m x ≡ (if within d n x then m (s + (x - d)) else m x)
unfolding copy_down
copy_down_lem d s zero m x h = ground arith
copy_down_lem d s (suc n) m x h =
    rw (down d, down s) (ground (arith, copy_down_lem d s n (store m (d + n) (m (s + n))) x h))
  where
    down : (a : ℕ) → a + suc n - 1 ≡ a + n
    down a = omega arith

-- `memmove` copies the `n` source bytes as they were before the call, also where the two blocks
-- overlap, and changes no other byte.
pub memmove_lem :
    (dst src n : ℕ) (m : Bytes) (x : ℕ)
    → memmove dst src n m x ≡ (if within dst n x then m (src + (x - dst)) else m x)
unfolding memmove
memmove_lem dst src n m x = ground (arith, copy_up_lem dst src n m x, copy_down_lem dst src n m x)

stosb_lem :
    (a c n : ℕ) (m : Bytes) (x : ℕ) → stosb a c n m x ≡ (if within a n x then c % 256 else m x)
unfolding stosb
stosb_lem a c zero m x = ground arith
stosb_lem a c (suc n) m x = ground (arith, stosb_lem (a + 1) c n (store m a (c % 256)) x)

store_word_lem :
    (a b : ℕ) (m : Bytes) (x : ℕ)
    → b < 256
    → store_word a (b * 16777216 + b * 65536 + b * 256 + b) m x ≡ (if within a 4 x then b else m x)
unfolding store_word
store_word_lem a b m x h = ground arith

-- The word that `memset` builds holds the byte four times.
stosl_lem :
    (a b n : ℕ) (m : Bytes) (x : ℕ)
    → b < 256
    → stosl a (b * 16777216 + b * 65536 + b * 256 + b) n m x
      ≡ (if within a (4 * n) x then b else m x)
unfolding stosl
stosl_lem a b zero m x h = ground arith
stosl_lem a b (suc n) m x h = ground (
  arith,
  store_word_lem a b m x h,
  stosl_lem (a + 4) b n (store_word a (b * 16777216 + b * 65536 + b * 256 + b) m) x h,
)

-- `memset` writes the low byte of `c` to each of the `n` addresses and nothing elsewhere, whether
-- it stores words or bytes.
pub memset_lem :
    (dst c n : ℕ) (m : Bytes) (x : ℕ)
    → memset dst c n m x ≡ (if within dst n x then c % 256 else m x)
unfolding memset
memset_lem dst c n m x = ground (arith, stosb_lem dst c n m x, stosl_lem dst (c % 256) (n / 4) m x)
