-- ===== src/Pipe/Calls.antt =====
-- `piperead` and `pipeclose` of HW3/pipe.c as calls, and a pipe at its start.
use operating_systems.Base.{
  ℕ, zero, suc, if◌then◌else◌, ◌≡◌, ◌&&◌, not, refl, Bool, true, false, List, [], length, arith,
  Bool-cases, inl, inr, ◌⊎◌,
}
use operating_systems.Pipe.Ring.{
  Pipe, pipe_size, is_empty, take_byte, read_loop, ReadEnd, killed_empty, waiting, bytes, piperead,
  pipeclose, fresh_pipe,
}
use operating_systems.Pipe.Queue.{pop_all}
use operating_systems.Pipe.Refine.{IsValid, contents, contents-empty, read_loop_refines}

writeopen-read_loop : (n : ℕ) (p : Pipe) → (read_loop n p).1.writeopen ≡ p.writeopen
unfolding read_loop take_byte
writeopen-read_loop zero p = refl
writeopen-read_loop (suc n) p = elim (Bool-cases (is_empty p)) [
  | inl e ↦ rw (e, read_loop)
  | inr more ↦ rw (more, read_loop) (writeopen-read_loop n (take_byte p).1)
]

-- What `piperead` owes. It sleeps or fails only while the queue is empty and a writer has the pipe
-- open, by whether the reader is killed, and then changes nothing; otherwise it takes what the queue
-- gives, which is nothing at the end of the stream.
abbrev pub ReadSpec : Bool → ℕ → Pipe → ReadEnd × Pipe → Type 0
ReadSpec killed n p (killed_empty, p') =
    (contents p ≡ []) × (p.writeopen ≡ true) × (killed ≡ true) × (p' ≡ p)
ReadSpec killed n p (waiting, p') =
    (contents p ≡ []) × (p.writeopen ≡ true) × (killed ≡ false) × (p' ≡ p)
ReadSpec killed n p (bytes bs, p') =
    (((is_empty p) ≡ false) ⊎ (p.writeopen ≡ false))
    × (pop_all n (contents p) ≡ (bs, contents p'))
    × (p'.writeopen ≡ p.writeopen)

-- `piperead` of a valid pipe keeps it valid and does what it owes.
pub piperead_lem :
    (killed : Bool) (n : ℕ) (p : Pipe)
    → IsValid p
    → IsValid (piperead killed n p).1 × ReadSpec killed n p (piperead killed n p)
unfolding piperead
piperead_lem killed n p v = elim (Bool-cases (is_empty p && p.writeopen)) [
  | inl t ↦ rw t (v, held t killed)
  | inr f ↦
      let (v', e) = read_loop_refines n p v in rw f (v', (ground arith, e, writeopen-read_loop n p))
]
  where
    held :
        (is_empty p && p.writeopen) ≡ true
        → (killed : Bool) → ReadSpec killed n p (if killed then killed_empty else waiting, p)
    held t true = (contents-empty p v (ground arith), ground arith, refl, refl)
    held t false = (contents-empty p v (ground arith), ground arith, refl, refl)

-- A pipe as `pipealloc` makes it is valid and holds nothing, whatever its page held.
pub fresh_pipe-IsValid :
    (page : List ℕ)
    → length page ≡ pipe_size
    → IsValid (fresh_pipe page) × (contents (fresh_pipe page) ≡ [])
unfolding fresh_pipe
fresh_pipe-IsValid page e = (record { storage = e; small = omega arith; room = omega arith }, refl)

-- `pipeclose` frees the page exactly when the other end is closed already, and leaves the bytes.
pub pipeclose_lem :
    (writable : Bool) (p : Pipe)
    → ((pipeclose writable p).0 ≡ not (if writable then p.readopen else p.writeopen))
      × (contents (pipeclose writable p).1 ≡ contents p)
unfolding pipeclose
pipeclose_lem true p = ground arith
pipeclose_lem false p = ground arith
