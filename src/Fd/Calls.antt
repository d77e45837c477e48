-- ===== src/Fd/Calls.antt =====
-- HW3/sysfile.c: `argfd`, `fdalloc`, `sys_dup` and `sys_close` on the descriptors of the caller and the
-- table of files. `w` is the 32 bits of the argument; where `argint` fails the calls answer -1.
use operating_systems.Base.{
  ℕ, ◌^◌, ◌||◌, Bool, true, false, List, Option, none, some, ◌>>=◌, get_elem?, set, find_index, leb,
  if◌then◌else◌,
}
use operating_systems.Base.Int.{ℤ, pos, negsuc}
use operating_systems.File.Table.{File, filedup, fileclose, Closing, still_open}

-- NOFILE
abbrev pub nofile : ℕ
nofile = 16

-- The entry of `proc->ofile`, none where it is null or out of range.
abbrev pub open_file : Option (Option ℕ) → Option ℕ
open_file none = none
open_file (some o) = o

unfoldable pub argfd : ℕ → List (Option ℕ) → Option ℕ
argfd w ofile = if leb (2 ^ 31) w || leb nofile w then none else open_file (get_elem? ofile w)

abbrev pub is_closed : Option ℕ → Bool
is_closed none = true
is_closed (some f) = false

unfoldable pub fdalloc : ℕ → List (Option ℕ) → Option (ℕ × List (Option ℕ))
fdalloc f ofile = elim (find_index is_closed ofile) [
  | none ↦ none
  | some fd ↦ some (fd, set ofile fd (some f))
]

-- `sys_dup` behind `fdalloc`, and behind `argfd`; the outer none is the panic of `filedup`.
abbrev pub dup_at :
    ℕ
    → List (Option ℕ)
    → List File
    → Option (ℕ × List (Option ℕ))
    → Option (ℤ × List (Option ℕ) × List File)
dup_at f ofile fs none = some (negsuc 0, ofile, fs)
dup_at f ofile fs (some (fd, ofile')) = filedup f fs >>= λ fs'. some (pos fd, ofile', fs')

abbrev pub dup_file :
    List (Option ℕ) → List File → Option ℕ → Option (ℤ × List (Option ℕ) × List File)
dup_file ofile fs none = some (negsuc 0, ofile, fs)
dup_file ofile fs (some f) = dup_at f ofile fs (fdalloc f ofile)

unfoldable pub sys_dup : ℕ → List (Option ℕ) → List File → Option (ℤ × List (Option ℕ) × List File)
sys_dup w ofile fs = dup_file ofile fs (argfd w ofile)

-- `sys_close` behind `argfd`, with what `fileclose` has to release.
abbrev pub close_file :
    ℕ → List (Option ℕ) → List File → Option ℕ → Option (ℤ × Closing × List (Option ℕ) × List File)
close_file w ofile fs none = some (negsuc 0, still_open, ofile, fs)
close_file w ofile fs (some f) =
    fileclose f fs >>= λ (c, fs'). some (pos 0, c, set ofile w none, fs')

unfoldable pub sys_close :
    ℕ → List (Option ℕ) → List File → Option (ℤ × Closing × List (Option ℕ) × List File)
sys_close w ofile fs = close_file w ofile fs (argfd w ofile)
