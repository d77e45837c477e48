-- ===== src/File/Tests.antt =====
-- The theorems on HW3/file.c at a table of two entries.
use operating_systems.Base.{ℕ, zero, suc, ◌≡◌, refl, true, false, some, List, [], ◌∷◌, arith}
use operating_systems.File.Table.{File, fd_none, fd_pipe, fileclose, closes_pipe}
use operating_systems.File.Holders.{Counted}

abbrev end_of_pipe : File
end_of_pipe = record {
  kind = fd_pipe;
  ref = 2;
  readable = true;
  writable = false;
  pipe = 7;
  ip = 0;
  off = 0;
}

abbrev free : File
free = record {
  kind = fd_none;
  ref = 0;
  readable = false;
  writable = false;
  pipe = 0;
  ip = 0;
  off = 0;
}

abbrev table : List File
table = end_of_pipe ∷ free ∷ []

abbrev held : List ℕ
held = 0 ∷ 0 ∷ []

table-Counted : Counted table held
table-Counted zero f e = ground (arith, e)
table-Counted (suc zero) f e = ground (arith, e)
table-Counted (suc (suc i)) f e = absurd (ground (arith, e))

fileclose-last :
    fileclose 0 (record end_of_pipe { ref = 1 } ∷ [])
    ≡ some (closes_pipe 7 false, record end_of_pipe { ref = 0; kind = fd_none } ∷ [])
unfolding fileclose
fileclose-last = refl
