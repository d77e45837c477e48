-- ===== src/Shell/Commands.antt =====
-- The parser of HW3/sh.c on each kind of command, where the parts are read already.
use operating_systems.Base.{
  ℕ, suc, ◌+◌, ◌<◌, ◌≤◌, ◌≡◌, ◌⊎◌, inl, inr, refl, ◌∙◌, true, false, List, [], ◌∷◌, ◌++◌, All,
  length, length-append, arith, ◌==◌,
}
use operating_systems.Shell.Tokens.{is_in, skip_space, is_plain, token_at, gettoken, peek}
use operating_systems.Shell.Words.{IsWord}
use operating_systems.Shell.Parser.{
  ok, Cmd, execcmd, redircmd, pipecmd, listcmd, backcmd, redirect, parseredirs, parsebacks,
  parseline, parsepipe, parseexec,
}
use operating_systems.Shell.Loops.{IsRedirect, WellFormed}
use operating_systems.Shell.Print.{print_args, print, AtEnd, gettoken-word, skip-AtEnd}
use operating_systems.Shell.Args.{
  skip-args, peek-AtEnd, peek-args, plain-no_redirect, plain-no_block, parseredirs-none,
  parseargs-print,
}
use operating_systems.Shell.Brackets.{
  Reads, peek-symbol, parseblock-print, parseexec-print, pipe_end, rest_end, line_end, skip-symbol,
}

pub execcmd-print :
    (n : ℕ) (argv : List (List ℕ))
    → length argv < 10
    → All IsWord argv
    → Reads (suc (suc (suc n))) (execcmd argv)
unfolding parseexec print is_in
execcmd-print n argv few all t h =
    let no_block = peek-args argv t (b'(' ∷ []) all h refl plain-no_block in
    let first =
      parseredirs-none (length (print_args argv t)) (execcmd []) (print_args argv t)
        (peek-args argv t (b'<' ∷ b'>' ∷ []) all h refl plain-no_redirect) in
    let args =
      parseargs-print argv (length (print_args argv t)) 0 [] t all h (omega arith)
        (length-print_args argv t) in
    line_end (suc n) (execcmd argv) (print_args argv t) t h
      (rw (no_block, first, skip-args argv t all h) args)
  where
    length-print_args : (ws : List (List ℕ)) (t : List ℕ) → length ws ≤ length (print_args ws t)
    length-print_args [] t = omega arith
    length-print_args (w ∷ ws) t =
        let ih = length-print_args ws t in
        let whole : length (w ++ (32 ∷ print_args ws t))
            ≡ length w + suc (length (print_args ws t)) =
          length-append w (32 ∷ print_args ws t) in
        omega arith

gettoken-pipe : (s : List ℕ) → (gettoken (b'|' ∷ b'(' ∷ s)).rest ≡ b'(' ∷ s
unfolding gettoken token_at skip_space is_in
gettoken-pipe s = refl

gettoken-semicolon : (s : List ℕ) → (gettoken (b';' ∷ b'(' ∷ s)).rest ≡ b'(' ∷ s
unfolding gettoken token_at skip_space is_in
gettoken-semicolon s = refl

gettoken-ampersand : (s : List ℕ) → (gettoken (b'&' ∷ s)).rest ≡ skip_space s
unfolding gettoken token_at skip_space is_in
gettoken-ampersand s = refl

pub pipecmd-print :
    (n : ℕ) (l r : Cmd)
    → WellFormed l
    → WellFormed r
    → Reads (suc n) l
    → Reads n r
    → Reads (suc (suc (suc (suc (suc n))))) (pipecmd l r)
unfolding print parsepipe is_in
pipecmd-print n l r wl wr readl readr t h =
    let u : List ℕ = b'|' ∷ b'(' ∷ print r (b')' ∷ t) in
    let left =
      parseexec-print (suc n) l u wl readl (skip-symbol b'|' _ refl) (peek-symbol b'|' _ _ refl) in
    let right =
      pipe_end (suc (suc n)) r (b'(' ∷ print r (b')' ∷ t)) t (skip-AtEnd t h)
        (peek-AtEnd t (b'|' ∷ []) h refl)
        (parseexec-print n r t wr readr (skip-AtEnd t h) (peek-AtEnd t _ h refl)) in
    let more : peek u (b'|' ∷ []) ≡ true = peek-symbol b'|' _ _ refl in
    rest_end (suc (suc (suc (suc n)))) (pipecmd l r) (b'(' ∷ print l (b')' ∷ u)) t h
      (rw (left, more, gettoken-pipe (print r (b')' ∷ t)), right) refl)

pub listcmd-print :
    (n : ℕ) (l r : Cmd)
    → WellFormed l
    → WellFormed r
    → Reads (suc n) l
    → Reads n r
    → Reads (suc (suc (suc (suc (suc n))))) (listcmd l r)
unfolding print parseline parsebacks is_in
listcmd-print n l r wl wr readl readr t h =
    let u : List ℕ = b';' ∷ b'(' ∷ print r (b')' ∷ t) in
    let skip : skip_space u ≡ u = skip-symbol b';' _ refl in
    let left =
      pipe_end (suc (suc (suc n))) l (b'(' ∷ print l (b')' ∷ u)) u skip (peek-symbol b';' _ _ refl)
        (parseexec-print (suc n) l u wl readl skip (peek-symbol b';' _ _ refl)) in
    let right =
      line_end (suc (suc n)) r (b'(' ∷ print r (b')' ∷ t)) t h
        (parseexec-print n r t wr readr (skip-AtEnd t h) (peek-AtEnd t _ h refl)) in
    let no_back : peek u (b'&' ∷ []) ≡ false = peek-symbol b';' _ _ refl in
    let more : peek u (b';' ∷ []) ≡ true = peek-symbol b';' _ _ refl in
    rw (left, no_back, skip, more, gettoken-semicolon (print r (b')' ∷ t)), right) refl

pub backcmd-print :
    (n : ℕ) (c : Cmd) → WellFormed c → Reads n c → Reads (suc (suc (suc (suc n)))) (backcmd c)
unfolding print parseline parsebacks is_in
backcmd-print n c w reads t h =
    let u : List ℕ = b'&' ∷ t in
    let skip : skip_space u ≡ u = skip-symbol b'&' _ refl in
    let left =
      pipe_end (suc (suc n)) c (b'(' ∷ print c (b')' ∷ u)) u skip (peek-symbol b'&' _ _ refl)
        (parseexec-print n c u w reads skip (peek-symbol b'&' _ _ refl)) in
    let more : peek u (b'&' ∷ []) ≡ true = peek-symbol b'&' _ _ refl in
    rw
      (
        left,
        more,
        gettoken-ampersand t,
        skip-AtEnd t h,
        peek-AtEnd t (b'&' ∷ []) h refl,
        skip-AtEnd t h,
        peek-AtEnd t (b';' ∷ []) h refl,
        skip-AtEnd t h,
      )
      refl

gettoken-redirect :
    (file t : List ℕ)
    → IsWord file
    → (c : ℕ) → (c ≡ b'<') ⊎ (c ≡ b'>')
    → ((gettoken (c ∷ (file ++ (32 ∷ t)))).kind ≡ c)
      × ((gettoken (c ∷ (file ++ (32 ∷ t)))).rest ≡ file ++ (32 ∷ t))
unfolding gettoken token_at skip_space is_in is_plain
gettoken-redirect [] t h c e = absurd h
gettoken-redirect (x ∷ xs) t (p, all) c (inl e) =
    let out : is_in x (32 ∷ 9 ∷ 13 ∷ 10 ∷ 11 ∷ []) ≡ false = ground arith in
    rw (e, out) (refl, refl)
gettoken-redirect (x ∷ xs) t (p, all) c (inr e) =
    let out : is_in x (32 ∷ 9 ∷ 13 ∷ 10 ∷ 11 ∷ []) ≡ false = ground arith in
    let other : (x == b'>') ≡ false = ground arith in rw (e, other, out) (refl, refl)

parseredirs-print :
    (n : ℕ) (c : Cmd) (file : List ℕ) (tok : ℕ) (t : List ℕ)
    → IsWord file
    → (tok ≡ b'<') ⊎ (tok ≡ b'>')
    → AtEnd t
    → parseredirs (suc (suc n)) c (tok ∷ (file ++ (32 ∷ t))) ≡ ok (redirect tok c file, t)
unfolding parseredirs is_in
parseredirs-print n c file tok t w which h =
    let (kind, rest) = gettoken-redirect file t w tok which in
    let here : peek (tok ∷ (file ++ (32 ∷ t))) (b'<' ∷ b'>' ∷ []) ≡ true =
      peek-symbol tok _ _ (ground arith) ∙ ground arith in
    let after = parseredirs-none n (redirect tok c file) t (peek-AtEnd t _ h refl) in
    rw
      (
        here,
        kind,
        rest,
        gettoken-word file t w,
        skip-AtEnd t h,
        peek-AtEnd t (b'<' ∷ b'>' ∷ []) h refl,
        skip-AtEnd t h,
      )
      refl

redirect-print :
    (n : ℕ) (c : Cmd) (file : List ℕ) (tok : ℕ) (t : List ℕ)
    → WellFormed c
    → Reads n c
    → IsWord file
    → (tok ≡ b'<') ⊎ (tok ≡ b'>')
    → AtEnd t
    → parseline (suc (suc (suc (suc n)))) (b'(' ∷ print c (b')' ∷ tok ∷ (file ++ (32 ∷ t))))
      ≡ ok (redirect tok c file, t)
unfolding is_in
redirect-print n c file tok t w reads word which h =
    let u : List ℕ = tok ∷ (file ++ (32 ∷ t)) in
    line_end (suc (suc n)) (redirect tok c file) (b'(' ∷ print c (b')' ∷ u)) t h (
      parseblock-print n c u w reads
      ∙ rw (skip-symbol tok (file ++ (32 ∷ t)) (ground arith))
          (parseredirs-print (length u) c file tok t word which h))

pub redircmd-print :
    (n : ℕ) (c : Cmd) (file : List ℕ) (mode fd : ℕ)
    → WellFormed c
    → IsRedirect file mode fd
    → Reads n c
    → Reads (suc (suc (suc (suc n)))) (redircmd c file mode fd)
unfolding print
redircmd-print n c file mode fd w (word, inl (e, f)) reads t h =
    rw (e, f) (redirect-print n c file b'<' t w reads word (inl refl) h)
redircmd-print n c file mode fd w (word, inr (e, f)) reads t h =
    rw (e, f) (redirect-print n c file b'>' t w reads word (inr refl) h)
