-- ===== src/Console/Tests.antt =====
-- The theorems on HW3/console.c at a line whose indices are about to wrap around.
use operating_systems.Base.{ℕ, ◌≡◌, refl, false, List, [], ◌∷◌, replicate, arith}
use operating_systems.Console.Input.{Input, type_byte, kill_line, consoleintr, consoleread}
use operating_systems.Console.Editing.{IsValid, Extends, consoleintr_lem}

abbrev empty_line : Input
empty_line = record { buf = replicate 128 0; r = 4294967295; w = 4294967295; e = 4294967295 }

empty_line-IsValid : IsValid empty_line
empty_line-IsValid = record {
  storage = refl;
  words = (omega arith, omega arith, omega arith);
  ordered = ground arith;
  room = ground arith;
}

-- "lx", backspace, "s" and the line end.
abbrev keys : List ℕ
keys = b'l' ∷ b'x' ∷ 8 ∷ b's' ∷ b'\r' ∷ []

read-typed : (consoleread 9 false (consoleintr keys empty_line)).0 ≡ b'l' ∷ b's' ∷ b'\n' ∷ []
unfolding consoleintr type_byte consoleread
read-typed = refl

read-killed :
    (consoleread 9 false (consoleintr (b'l' ∷ b'x' ∷ 21 ∷ b's' ∷ 10 ∷ []) empty_line)).0
    ≡ b's' ∷ b'\n' ∷ []
unfolding consoleintr type_byte consoleread kill_line
read-killed = refl

consoleintr_lem_example : Extends empty_line (consoleintr keys empty_line)
consoleintr_lem_example = consoleintr_lem keys empty_line empty_line-IsValid
