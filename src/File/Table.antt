-- ===== src/File/Table.antt =====
-- HW3/file.c: `filealloc`, `filedup` and `fileclose`. The lock of the table is held in each of them up
-- to the release of what the file stands for.
use operating_systems.Base.{
  ℕ, ◌+◌, ◌-◌, Bool, Option, none, some, List, modify, get_elem?, find_index, ◌==◌, ltb,
  if◌then◌else◌,
}

pub data FileKind : Type 0 where
  fd_none : FileKind
  fd_pipe : FileKind
  fd_inode : FileKind

-- `struct file`; the pipe and the inode as numbers.
pub record File : Type 0 where
  pub kind : FileKind
  pub ref : ℕ
  pub readable : Bool
  pub writable : Bool
  pub pipe : ℕ
  pub ip : ℕ
  pub off : ℕ

abbrev pub set_ref : ℕ → File → File
set_ref n f = record f { ref = n }

unfoldable pub filealloc : List File → Option ℕ × List File
filealloc fs = elim (find_index (λ f. f.ref == 0) fs) [
  | none ↦ (none, fs)
  | some i ↦ (some i, modify fs i (set_ref 1))
]

-- `filedup`; none is its panic.
unfoldable pub filedup : ℕ → List File → Option (List File)
filedup i fs = elim (get_elem? fs i) [
  | none ↦ none
  | some f ↦ if ltb f.ref 1 then none else some (modify fs i (λ g. record g { ref = g.ref + 1 }))
]

-- What `fileclose` does behind the table: nothing, `pipeclose`, or `iput` in a transaction.
pub data Closing : Type 0 where
  still_open : Closing
  nothing_open : Closing
  closes_pipe : ℕ → Bool → Closing
  puts_inode : ℕ → Closing

abbrev pub closing : File → Closing
closing f = elim f.kind [
  | fd_none ↦ nothing_open
  | fd_pipe ↦ closes_pipe f.pipe f.writable
  | fd_inode ↦ puts_inode f.ip
]

-- `fileclose`; none is its panic.
unfoldable pub fileclose : ℕ → List File → Option (Closing × List File)
fileclose i fs = elim (get_elem? fs i) [
  | none ↦ none
  | some f ↦
      if ltb f.ref 1
      then none
      else if ltb 0 (f.ref - 1)
      then some (still_open, modify fs i (set_ref (f.ref - 1)))
      else some (closing f, modify fs i (λ g. record g { ref = 0; kind = fd_none }))
]
