-- ===== src/Fd/Tests.antt =====
-- The theorems on `sys_dup` and `sys_close` of HW3/sysfile.c for a process with one open file.
use operating_systems.Base.{
  ℕ, zero, suc, ◌≡◌, refl, sym, ap, subst, true, false, List, [], ◌∷◌, Option, none, some,
  get_elem?, find_index,
}
use operating_systems.Base.Int.{pos}
use operating_systems.File.Holders.{Counted}
use operating_systems.File.Table.{File, fd_inode, filedup}
use operating_systems.Fd.Calls.{sys_dup, sys_close, argfd, fdalloc}
use operating_systems.Fd.Counts.{Held, DupsTo, ClosesTo, sys_dup_lem, sys_close_lem}

abbrev table : List File
table =
    record {
      kind = fd_inode;
      ref = 2;
      readable = true;
      writable = false;
      pipe = 0;
      ip = 5;
      off = 0;
    }
    ∷ []

abbrev open_files : List (Option ℕ)
open_files = some 0 ∷ none ∷ none ∷ []

-- The other reference is a child's.
abbrev ref_of : Option File → ℕ
ref_of none = 0
ref_of (some f) = f.ref

table-Counted : Counted table (0 ∷ 0 ∷ [])
table-Counted zero f e = sym (ap ref_of e)
table-Counted (suc i) f e = absurd (cc)

table-known :
    (fd f : ℕ)
    → get_elem? open_files fd ≡ some (some f)
    → (file : File) × (get_elem? table f ≡ some file)
table-known zero f e =
    let same : 0 ≡ f = cc in
    subst (λ i. (file : File) × (get_elem? table i ≡ some file)) same (_, refl)
table-known (suc zero) f e = absurd (cc)
table-known (suc (suc zero)) f e = absurd (cc)
table-known (suc (suc (suc k))) f e = absurd (cc)

table-Held : Held table open_files (0 ∷ [])
table-Held = record { counted = table-Counted; known = table-known }

sys_dup-first :
    sys_dup 0 open_files table
    ≡ some (
      pos 1,
      some 0 ∷ some 0 ∷ none ∷ [],
      record {
        kind = fd_inode;
        ref = 3;
        readable = true;
        writable = false;
        pipe = 0;
        ip = 5;
        off = 0;
      }
          ∷ [],
    )
unfolding sys_dup argfd fdalloc filedup find_index
sys_dup-first = refl

sys_dup_lem_example : DupsTo 0 table open_files (0 ∷ []) (sys_dup 0 open_files table)
sys_dup_lem_example = sys_dup_lem 0 table open_files (0 ∷ []) table-Held

sys_close_lem_example : ClosesTo 0 table open_files (0 ∷ []) (sys_close 0 open_files table)
sys_close_lem_example = sys_close_lem 0 table open_files (0 ∷ []) table-Held
