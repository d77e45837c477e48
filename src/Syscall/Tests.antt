-- ===== src/Syscall/Tests.antt =====
-- The theorems on HW3/syscall.c at a process of 64 bytes, and a block of negative size.
use operating_systems.Base.{◌≡◌, refl, some, [], ◌∷◌, get_or}
use operating_systems.Str.{Bytes}
use operating_systems.Kalloc.{load_word}
use operating_systems.Syscall.{fetchstr, fetchint, argint, argptr}
use operating_systems.Syscall.Bounds.{StringSpec, fetchstr_lem}

-- The second argument, at 8, is the pointer 16.
abbrev memory : Bytes
memory x = get_or (1 ∷ 1 ∷ 1 ∷ 1 ∷ 1 ∷ 1 ∷ 1 ∷ 1 ∷ 16 ∷ 0 ∷ 0 ∷ 0 ∷ []) x 0

pointer : argptr 64 memory 0 1 20 ≡ some 16
unfolding argptr argint fetchint load_word
pointer = refl

-- The size -1 is accepted.
negative_size : argptr 64 memory 0 1 4294967295 ≡ some 16
unfolding argptr argint fetchint load_word
negative_size = refl

fetchstr_lem_example : StringSpec 64 memory 2 (fetchstr 64 memory 2)
fetchstr_lem_example = fetchstr_lem 64 memory 2
