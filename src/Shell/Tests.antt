-- ===== src/Shell/Tests.antt =====
-- The parser of HW3/sh.c on a line with a pipe, a redirection and two commands.
use operating_systems.Base.{ℕ, List, [], ◌∷◌, ◌≡◌, refl, inr, arith}
use operating_systems.Shell.Tokens.{is_in, skip_space, is_plain, word, token_at, gettoken, peek}
use operating_systems.Shell.Parser.{
  ok, Cmd, execcmd, redircmd, pipecmd, listcmd, backcmd, add_arg, parseredirs, parseargs,
  parsebacks, parseline, parsepipe, parseexec, parseblock, parsecmd,
}
use operating_systems.Shell.Loops.{Ensures, WellFormed}
use operating_systems.Shell.Total.{parsecmd_lem}
use operating_systems.Shell.Print.{print}
use operating_systems.Shell.RoundTrip.{parsecmd-print}

-- a <f|(b;c)&
abbrev line : List ℕ
line = b'a' ∷ 32 ∷ b'<' ∷ b'f' ∷ b'|' ∷ b'(' ∷ b'b' ∷ b';' ∷ b'c' ∷ b')' ∷ b'&' ∷ 10 ∷ []

parsecmd-line :
    parsecmd line
    ≡ ok (
        backcmd (
          pipecmd
            (redircmd (execcmd ((b'a' ∷ []) ∷ [])) (b'f' ∷ []) 0 0)
            (listcmd (execcmd ((b'b' ∷ []) ∷ [])) (execcmd ((b'c' ∷ []) ∷ [])))))
unfolding parsecmd parseline parsepipe parseexec parseblock parsebacks parseargs parseredirs add_arg
    gettoken token_at peek word is_plain skip_space is_in
parsecmd-line = refl

parsecmd_lem_example : Ensures WellFormed (parsecmd line)
parsecmd_lem_example = parsecmd_lem line

-- (a b )>f &
abbrev writes : Cmd
writes = backcmd (redircmd (execcmd ((b'a' ∷ []) ∷ (b'b' ∷ []) ∷ [])) (b'f' ∷ []) 0x201 1)

parsecmd-print_example : parsecmd (print writes []) ≡ ok writes
unfolding WellFormed is_plain is_in
parsecmd-print_example =
    parsecmd-print writes
      ((omega arith, ((refl, tt), ((refl, tt), tt))), ((refl, tt), inr (refl, refl)))
