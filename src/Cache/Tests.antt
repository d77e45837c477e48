-- ===== src/Cache/Tests.antt =====
-- The theorems on HW3/bio.c at a list of three buffers.
use operating_systems.Base.{◌≡◌, refl, true, false, List, [], ◌∷◌, arith, find_index}
use operating_systems.Cache.Buffers.{Buf, got, sleeps_on, bget, find_last}
use operating_systems.Cache.Unique.{Unique}
use operating_systems.Cache.Calls.{GetSpec, bget_lem}

abbrev in_use : Buf
in_use = record { dev = 1; blockno = 7; busy = true; valid = true; dirty = false }

abbrev pinned : Buf
pinned = record { dev = 1; blockno = 8; busy = false; valid = true; dirty = true }

abbrev fresh : Buf
fresh = record { dev = 4294967295; blockno = 0; busy = false; valid = false; dirty = false }

abbrev buffers : List Buf
buffers = in_use ∷ fresh ∷ pinned ∷ []

buffers-Unique : Unique buffers
buffers-Unique = (
  ((λ n same. absurd (ground arith)), ((λ n same. ground arith), _)),
  (((λ n. absurd (ground (arith, n))), _), (_, _)),
)

bget-in_use : (bget 1 7 buffers).0 ≡ sleeps_on 0
unfolding bget find_index
bget-in_use = refl

bget-pinned : (bget 1 8 buffers).0 ≡ got 2
unfolding bget find_index
bget-pinned = refl

bget-new : (bget 1 9 buffers).0 ≡ got 1
unfolding bget find_index find_last
bget-new = refl

bget_lem_example : Unique (bget 1 9 buffers).1 × GetSpec 1 9 buffers (bget 1 9 buffers)
bget_lem_example = bget_lem 1 9 buffers (ground arith) buffers-Unique

abbrev released : Buf
released = record { dev = 1; blockno = 7; busy = false; valid = true; dirty = false }

abbrev after_release : List Buf
after_release = released ∷ fresh ∷ pinned ∷ []
