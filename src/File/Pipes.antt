-- ===== src/File/Pipes.antt =====
-- HW3/pipe.c: `pipealloc`, which takes two entries of the table of HW3/file.c and a page.
use operating_systems.Base.{ℕ, Bool, true, false, Option, none, some, List, modify}
use operating_systems.File.Table.{File, fd_pipe, filealloc, fileclose, Closing}

-- The table after `fileclose`, which does nothing else for an entry that is still FD_NONE.
abbrev pub closed : List File → Option (Closing × List File) → List File
closed fs none = fs
closed fs (some (c, fs')) = fs'

-- An end of the pipe in its entry.
abbrev pub pipe_end : ℕ → Bool → Bool → File → File
pipe_end page readable writable f = record f {
  kind = fd_pipe;
  readable = readable;
  writable = writable;
  pipe = page;
}

-- `pipealloc` behind its calls; the page is what `kalloc` gave.
abbrev pub pipe_page : Option ℕ → ℕ → ℕ → List File → Option (ℕ × ℕ) × List File
pipe_page (some page) i j fs =
    (some (i, j), modify (modify fs i (pipe_end page true false)) j (pipe_end page false true))
pipe_page none i j fs = let fs1 = closed fs (fileclose i fs) in (none, closed fs1 (fileclose j fs1))

abbrev pub second_file : Option ℕ → ℕ → Option ℕ × List File → Option (ℕ × ℕ) × List File
second_file page i (none, fs) = (none, closed fs (fileclose i fs))
second_file page i (some j, fs) = pipe_page page i j fs

abbrev pub first_file : Option ℕ → Option ℕ × List File → Option (ℕ × ℕ) × List File
first_file page (none, fs) = (none, fs)
first_file page (some i, fs) = second_file page i (filealloc fs)

-- `pipealloc`: the entries of the two ends, or -1 with what it took given back.
unfoldable pub pipealloc : Option ℕ → List File → Option (ℕ × ℕ) × List File
pipealloc page fs = first_file page (filealloc fs)
