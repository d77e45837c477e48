-- ===== src/Console/Input.antt =====
-- HW3/console.c: the buffer `input`, the loop body of `consoleintr` and the loop of `consoleread`. What
-- is echoed on the screen is left out.
use operating_systems.Base.{
  ℕ, zero, suc, ◌%◌, Bool, true, List, [], ◌∷◌, get_or, set, add32, sub32, ◌==◌, ltb, not, ◌&&◌,
  ◌||◌, if◌then◌else◌,
}

-- INPUT_BUF
abbrev pub input_buf : ℕ
input_buf = 128

-- `input`: the read, write and edit index count on for ever.
pub record Input : Type 0 where
  pub buf : List ℕ
  pub r : ℕ
  pub w : ℕ
  pub e : ℕ

-- `input.e--`
abbrev pub back : Input → Input
back s = record s { e = sub32 s.e 1 }

-- The loop of kill line.
unfoldable pub kill_line : ℕ → Input → Input
kill_line zero s = s
kill_line (suc fuel) s =
    let rest = kill_line fuel (back s) in
    if not (s.e == s.w) && not (get_or s.buf (sub32 s.e 1 % input_buf) 0 == b'\n') then rest else s

-- A byte goes to the line, and a full line or its end makes it readable.
abbrev pub store_byte : ℕ → Input → Input
store_byte c s =
    let put = record s { buf = set s.buf (s.e % input_buf) c; e = add32 s.e 1 } in
    if c == b'\n' || c == 4 || put.e == add32 s.r input_buf then record put { w = put.e } else put

abbrev pub newline : ℕ → ℕ
newline c = if c == b'\r' then b'\n' else c

-- One round of the loop of `consoleintr`, for the byte `c`: ^P, ^U, ^H or delete, or any other. Where
-- it moves `w` it wakes the readers.
unfoldable pub type_byte : ℕ → Input → Input
type_byte c s =
    if c == 16
    then s
    else if c == 21
    then kill_line (sub32 s.e s.w) s
    else if c == 8 || c == 127
    then (if s.e == s.w then s else back s)
    else if not (c == 0) && ltb (sub32 s.e s.r) input_buf
    then store_byte (newline c) s
    else s

-- The loop of `consoleintr`.
unfoldable pub consoleintr : List ℕ → Input → Input
consoleintr [] s = s
consoleintr (c ∷ cs) s = consoleintr cs (type_byte c s)

-- Where the loop of `consoleread` stops: it returns what it has copied, or it waits for input, and -1 is
-- returned if the process is killed.
pub data ReadStop : Type 0 where
  returns : ReadStop
  waits : ReadStop

abbrev pub and_byte : ℕ → List ℕ × ReadStop × Input → List ℕ × ReadStop × Input
and_byte c (bs, stop, s) = (c ∷ bs, stop, s)

-- The loop of `consoleread` with `n` bytes to copy; `some_read` says that a byte was copied before.
unfoldable pub consoleread : ℕ → Bool → Input → List ℕ × ReadStop × Input
consoleread zero some_read s = ([], returns, s)
consoleread (suc n) some_read s =
    let c = get_or s.buf (s.r % input_buf) 0 in
    let next = record s { r = add32 s.r 1 } in
    let rest = consoleread n true next in
    if s.r == s.w
    then ([], waits, s)
    else if c == 4
    then ([], returns, if some_read then s else next)
    else if c == b'\n'
    then (c ∷ [], returns, next)
    else and_byte c rest
