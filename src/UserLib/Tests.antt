-- ===== src/UserLib/Tests.antt =====
-- The theorems on `printint` and `atoi` for the number 2026.
use operating_systems.Base.{◌-◌, ◌≤◌, ◌≡◌, refl, inl, true, [], ◌∷◌, length, arith}
use operating_systems.UserLib.Numbers.{
  digits_of, put_back, printint, console_printint, atoi, number_buf,
}
use operating_systems.UserLib.Printed.{atoi-printint, number_buf-fits}

printint-negative : printint (4294967295 - 6) 10 true ≡ b'-' ∷ b'7' ∷ []
unfolding printint put_back digits_of
printint-negative = refl

atoi-printint_example :
    (atoi (printint 2026 10 true) ≡ 2026) × (atoi (console_printint 2026 10 true) ≡ 2026)
atoi-printint_example = atoi-printint 2026 true (omega arith) refl

number_buf-fits_example : length (number_buf b'A' 2026 10 true) ≤ 11
number_buf-fits_example = number_buf-fits b'A' 2026 10 true (omega arith) (inl refl)
