-- ===== src/Shell/Brackets.antt =====
-- The parser of HW3/sh.c on a command in brackets, and behind a whole command.
use operating_systems.Base.{ℕ, suc, ◌≡◌, refl, ap, ◌∙◌, false, List, [], ◌∷◌, length}
use operating_systems.Shell.Tokens.{is_in, skip_space, token_at, gettoken, peek}
use operating_systems.Shell.Parser.{
  ok, Cmd, execcmd, redircmd, pipecmd, listcmd, backcmd, parseredirs, parsebacks, parseline,
  parsepipe, parseexec, parseblock,
}
use operating_systems.Shell.Loops.{WellFormed}
use operating_systems.Shell.Print.{print, AtEnd, skip-AtEnd}
use operating_systems.Shell.Args.{skip-args, peek-AtEnd, parseredirs-none}

-- `parseline` reads the command back, with enough fuel and whatever stands behind.
abbrev pub Reads : ℕ → Cmd → Type 0
Reads n c = (t : List ℕ) → AtEnd t → parseline n (print c t) ≡ ok (c, t)

skip-print : (c : Cmd) (t : List ℕ) → WellFormed c → AtEnd t → skip_space (print c t) ≡ print c t
unfolding print skip_space is_in WellFormed
skip-print (execcmd argv) t (few, all) h = skip-args argv t all h
skip-print (redircmd c file mode fd) t w h = refl
skip-print (pipecmd l r) t w h = refl
skip-print (listcmd l r) t w h = refl
skip-print (backcmd c) t w h = refl

pub peek-symbol :
    (c : ℕ) (s toks : List ℕ)
    → is_in c (32 ∷ 9 ∷ 13 ∷ 10 ∷ 11 ∷ []) ≡ false
    → peek (c ∷ s) toks ≡ is_in c toks
unfolding peek skip_space
peek-symbol c s toks out = rw (out) refl

-- A command in brackets.
pub parseblock-print :
    (n : ℕ) (c : Cmd) (u : List ℕ)
    → WellFormed c
    → Reads n c
    → parseexec (suc (suc n)) (b'(' ∷ print c (b')' ∷ u))
      ≡ parseredirs (suc (suc (length u))) c (skip_space u)
unfolding parseexec parseblock peek gettoken token_at skip_space is_in
parseblock-print n c u w reads = rw (skip-print c (b')' ∷ u) w refl, reads (b')' ∷ u) refl) refl

pub parseexec-print :
    (n : ℕ) (c : Cmd) (u : List ℕ)
    → WellFormed c
    → Reads n c
    → skip_space u ≡ u
    → peek u (b'<' ∷ b'>' ∷ []) ≡ false
    → parseexec (suc (suc n)) (b'(' ∷ print c (b')' ∷ u)) ≡ ok (c, u)
parseexec-print n c u w reads skip none_here =
    parseblock-print n c u w reads
    ∙ rw (skip) (parseredirs-none (suc (length u)) c u none_here ∙ ap (λ s. ok (c, s)) skip)

-- After a whole command nothing more is taken from the line.
pub pipe_end :
    (n : ℕ) (c : Cmd) (s u : List ℕ)
    → skip_space u ≡ u
    → peek u (b'|' ∷ []) ≡ false
    → parseexec n s ≡ ok (c, u)
    → parsepipe (suc n) s ≡ ok (c, u)
unfolding parsepipe
pipe_end n c s u skip no_pipe e = rw (e, no_pipe, skip) refl

pub rest_end :
    (n : ℕ) (c : Cmd) (s t : List ℕ)
    → AtEnd t
    → parsepipe n s ≡ ok (c, t)
    → parseline (suc n) s ≡ ok (c, t)
unfolding parseline parsebacks is_in
rest_end n c s t h e =
    rw
      (
        e,
        peek-AtEnd t (b'&' ∷ []) h refl,
        skip-AtEnd t h,
        peek-AtEnd t (b';' ∷ []) h refl,
        skip-AtEnd t h,
      )
      refl

pub line_end :
    (n : ℕ) (c : Cmd) (s t : List ℕ)
    → AtEnd t
    → parseexec n s ≡ ok (c, t)
    → parseline (suc (suc n)) s ≡ ok (c, t)
unfolding is_in
line_end n c s t h e =
    rest_end (suc n) c s t h (pipe_end n c s t (skip-AtEnd t h) (peek-AtEnd t (b'|' ∷ []) h refl) e)

pub skip-symbol :
    (c : ℕ) (s : List ℕ) → is_in c (32 ∷ 9 ∷ 13 ∷ 10 ∷ 11 ∷ []) ≡ false → skip_space (c ∷ s) ≡ c ∷ s
unfolding skip_space
skip-symbol c s out = rw (out) refl
