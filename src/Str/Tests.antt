-- ===== src/Str/Tests.antt =====
-- The theorems on HW3/string.c at concrete memories, and runs of its functions.
use operating_systems.Base.{ℕ, ◌+◌, ◌-◌, ◌≡◌, refl, List, [], ◌∷◌, get_or, if◌then◌else◌}
use operating_systems.Base.Int.{negsuc}
use operating_systems.Str.{Bytes, memmove, copy_down, copy_up, memcmp}
use operating_systems.Str.Move.{within, memmove_lem}

abbrev text : List ℕ → Bytes
text bs i = get_or bs i 0

abbrev hello : Bytes
hello = text (104 ∷ 101 ∷ 108 ∷ 108 ∷ 111 ∷ [])

abbrev help : Bytes
help = text (104 ∷ 101 ∷ 108 ∷ 112 ∷ [])

-- Blocks that overlap, in both directions.
memmove_down : memmove 2 0 4 hello 5 ≡ 108
unfolding memmove copy_down
memmove_down = refl

memmove_up : memmove 0 1 4 hello 3 ≡ 111
unfolding memmove copy_up
memmove_up = refl

memmove_lem_example :
    memmove 2 0 4 hello 5 ≡ (if within 2 4 5 then hello (0 + (5 - 2)) else hello 5)
memmove_lem_example = memmove_lem 2 0 4 hello 5

memcmp-help : memcmp hello help 4 ≡ negsuc 3
unfolding memcmp
memcmp-help = refl
