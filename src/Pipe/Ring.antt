-- ===== src/Pipe/Ring.antt =====
-- HW3/pipe.c: the byte ring of a pipe, and `pipewrite`, `piperead` and `pipeclose` over it. The lock
-- of the pipe is held between two sleeps, so the code between them is one step.
use operating_systems.Base.{
  ℕ, zero, suc, ◌%◌, ◌&&◌, ◌||◌, not, Bool, true, false, List, [], ◌∷◌, get_or, set, add32, ◌==◌,
  if◌then◌else◌,
}

-- PIPESIZE
abbrev pub pipe_size : ℕ
pipe_size = 512

-- `struct pipe` but for its lock.
pub record Pipe : Type 0 where
  pub buf : List ℕ
  pub nread : ℕ
  pub nwrite : ℕ
  pub readopen : Bool
  pub writeopen : Bool

-- What the test of a loop in `pipewrite` and `piperead` compares.
abbrev pub is_full : Pipe → Bool
is_full p = p.nwrite == add32 p.nread pipe_size

abbrev pub is_empty : Pipe → Bool
is_empty p = p.nread == p.nwrite

-- `p->data[p->nwrite++ % PIPESIZE] = b`
unfoldable pub put : Pipe → ℕ → Pipe
put p b = record p { buf = set p.buf (p.nwrite % pipe_size) b; nwrite = add32 p.nwrite 1 }

-- `p->data[p->nread++ % PIPESIZE]`
unfoldable pub take_byte : Pipe → ℕ × Pipe
take_byte p = (get_or p.buf (p.nread % pipe_size) 0, record p { nread = add32 p.nread 1 })

-- Where the loop of `pipewrite` stops: it has written all and wakes the readers, it returns -1, or it
-- wakes the readers and sleeps with what is left to write.
pub data WriteEnd : Type 0 where
  written : WriteEnd
  broken : WriteEnd
  full : List ℕ → WriteEnd

-- The loop of `pipewrite` from byte `i` on, for a process that is or is not killed.
unfoldable pub write_loop : Bool → Pipe → List ℕ → WriteEnd × Pipe
write_loop killed p [] = (written, p)
write_loop killed p (b ∷ bs) = elim (is_full p) [
  | true ↦ (if not p.readopen || killed then broken else full (b ∷ bs), p)
  | false ↦ write_loop killed (put p b) bs
]

-- The loop `piperead-copy`: at most `n` bytes, in the order in which they are read.
unfoldable pub read_loop : ℕ → Pipe → List ℕ × Pipe
read_loop zero p = ([], p)
read_loop (suc n) p = elim (is_empty p) [
  | true ↦ ([], p)
  | false ↦ let (b, p1) = take_byte p in let (bs, p2) = read_loop n p1 in (b ∷ bs, p2)
]

-- `piperead` from its first test on: -1, asleep, or the bytes that it copies, and then it wakes the
-- writers.
pub data ReadEnd : Type 0 where
  killed_empty : ReadEnd
  waiting : ReadEnd
  bytes : List ℕ → ReadEnd

unfoldable pub piperead : Bool → ℕ → Pipe → ReadEnd × Pipe
piperead killed n p =
    let (bs, p') = read_loop n p in
    if is_empty p && p.writeopen
    then (if killed then killed_empty else waiting, p)
    else (bytes bs, p')

-- `pipeclose`, which wakes the other end; true means that the page of the pipe is freed.
unfoldable pub pipeclose : Bool → Pipe → Bool × Pipe
pipeclose writable p =
    let p' = if writable then record p { writeopen = false } else record p { readopen = false } in
    (not p'.readopen && not p'.writeopen, p')

-- What `pipealloc` writes into the page that it gets, which holds anything.
unfoldable pub fresh_pipe : List ℕ → Pipe
fresh_pipe page = record { buf = page; nread = 0; nwrite = 0; readopen = true; writeopen = true }
