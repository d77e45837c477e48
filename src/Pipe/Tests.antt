-- ===== src/Pipe/Tests.antt =====
-- The theorems on HW3/pipe.c at a pipe whose counters wrap around, and runs of its operations.
use operating_systems.Base.{ℕ, ◌≡◌, refl, true, false, List, [], ◌∷◌, replicate, arith}
use operating_systems.Pipe.Ring.{
  Pipe, put, take_byte, write_loop, read_loop, bytes, piperead, fresh_pipe,
}
use operating_systems.Pipe.Refine.{IsValid, contents, WriteSpec, write_loop_refines}
use operating_systems.Pipe.Calls.{ReadSpec, piperead_lem, fresh_pipe-IsValid}

abbrev page : List ℕ
page = replicate 512 7

-- The next byte goes to the last cell, and the counter of writes then wraps around.
abbrev wrapping : Pipe
wrapping = record {
  buf = page;
  nread = 4294967295;
  nwrite = 4294967295;
  readopen = true;
  writeopen = true;
}

wrapping-IsValid : IsValid wrapping
wrapping-IsValid = record {
  storage = refl;
  small = (omega arith, omega arith);
  room = ground arith;
}

piperead-wrapped :
    (piperead false 9 (write_loop false wrapping (1 ∷ 2 ∷ 3 ∷ [])).1).0 ≡ bytes (1 ∷ 2 ∷ 3 ∷ [])
unfolding write_loop put piperead read_loop take_byte
piperead-wrapped = refl

write_loop_refines_example :
    IsValid (write_loop false wrapping (1 ∷ 2 ∷ [])).1
    × WriteSpec wrapping false (1 ∷ 2 ∷ []) (write_loop false wrapping (1 ∷ 2 ∷ []))
write_loop_refines_example = write_loop_refines false (1 ∷ 2 ∷ []) wrapping wrapping-IsValid

piperead_lem_example :
    IsValid (piperead true 4 wrapping).1 × ReadSpec true 4 wrapping (piperead true 4 wrapping)
piperead_lem_example = piperead_lem true 4 wrapping wrapping-IsValid

fresh_pipe-IsValid_example : IsValid (fresh_pipe page) × (contents (fresh_pipe page) ≡ [])
fresh_pipe-IsValid_example = fresh_pipe-IsValid page refl
