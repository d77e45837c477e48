-- ===== src/Shell/Args.antt =====
-- The parser of HW3/sh.c on a simple command written out.
use operating_systems.Base.{
  ℕ, zero, suc, ◌+◌, ◌<◌, ◌≤◌, ◌≡◌, refl, sym, ap, ◌∙◌, true, false, leb, List, [], ◌∷◌, ◌++◌,
  append_assoc, append-nil, All, length, arith,
}
use operating_systems.Shell.Tokens.{is_in, skip_space, is_plain, token_at, gettoken, peek}
use operating_systems.Shell.Words.{IsWord}
use operating_systems.Shell.Parser.{ok, Cmd, execcmd, add_arg, parseredirs, parseargs}
use operating_systems.Shell.Print.{print_args, AtEnd, gettoken-word, skip-AtEnd, peek-word}

pub skip-args :
    (ws : List (List ℕ)) (t : List ℕ)
    → All IsWord ws
    → AtEnd t
    → skip_space (print_args ws t) ≡ print_args ws t
unfolding skip_space is_in is_plain
skip-args [] t all h = skip-AtEnd t h
skip-args ([] ∷ ws) t (w, all) h = absurd w
skip-args ((c ∷ cs) ∷ ws) t ((p, plain), all) h =
    let out : is_in c (32 ∷ 9 ∷ 13 ∷ 10 ∷ 11 ∷ []) ≡ false = ground arith in rw (out) refl

pub plain-no_redirect : (c : ℕ) → is_plain c ≡ true → is_in c (b'<' ∷ b'>' ∷ []) ≡ false
unfolding is_plain is_in
plain-no_redirect c h = ground arith

plain-no_stop : (c : ℕ) → is_plain c ≡ true → is_in c (b'|' ∷ b')' ∷ b'&' ∷ b';' ∷ []) ≡ false
unfolding is_plain is_in
plain-no_stop c h = ground arith

pub plain-no_block : (c : ℕ) → is_plain c ≡ true → is_in c (b'(' ∷ []) ≡ false
unfolding is_plain is_in
plain-no_block c h = ground arith

-- Where a command may end none of these tokens stands.
pub peek-AtEnd : (t toks : List ℕ) → AtEnd t → is_in b')' toks ≡ false → peek t toks ≡ false
unfolding peek skip_space is_in
peek-AtEnd [] toks h no_tok = refl
peek-AtEnd (c ∷ cs) toks h no_tok = rw (h) no_tok

pub peek-args :
    (ws : List (List ℕ)) (t toks : List ℕ)
    → All IsWord ws
    → AtEnd t
    → is_in b')' toks ≡ false
    → ((c : ℕ) → is_plain c ≡ true → is_in c toks ≡ false)
    → peek (print_args ws t) toks ≡ false
peek-args [] t toks all h no_tok no_word = peek-AtEnd t toks h no_tok
peek-args (w ∷ ws) t toks (p, all) h no_tok no_word = peek-word w (print_args ws t) toks p no_word

pub parseredirs-none :
    (n : ℕ) (c : Cmd) (s : List ℕ)
    → peek s (b'<' ∷ b'>' ∷ []) ≡ false
    → parseredirs (suc n) c s ≡ ok (c, skip_space s)
unfolding parseredirs
parseredirs-none n c s h = rw (h) refl

parseargs-end :
    (n argc : ℕ) (ret : Cmd) (t : List ℕ) → AtEnd t → parseargs (suc n) argc ret t ≡ ok (ret, t)
unfolding parseargs peek gettoken token_at skip_space is_in
parseargs-end n argc ret [] h = refl
parseargs-end n argc ret (c ∷ cs) h = rw (h) refl

pub parseargs-print :
    (ws : List (List ℕ)) (n argc : ℕ) (argv : List (List ℕ)) (t : List ℕ)
    → All IsWord ws
    → AtEnd t
    → argc + length ws < 10
    → length ws ≤ n
    → parseargs (suc n) argc (execcmd argv) (print_args ws t) ≡ ok (execcmd (argv ++ ws), t)
unfolding parseargs add_arg is_in
parseargs-print [] n argc argv t all h few enough =
    parseargs-end n argc (execcmd argv) t h ∙ ap (λ l. ok (execcmd l, t)) (sym (append-nil argv))
parseargs-print (w ∷ ws) zero argc argv t (p, all) h few enough = absurd (omega arith)
parseargs-print (w ∷ ws) (suc n) argc argv t (p, all) h few enough =
    let go_on = peek-word w (print_args ws t) (b'|' ∷ b')' ∷ b'&' ∷ b';' ∷ []) p plain-no_stop in
    let more : leb 10 (argc + 1) ≡ false = ground arith in
    let no_redirect =
      parseredirs-none (suc n) (execcmd (argv ++ (w ∷ []))) (print_args ws t)
        (peek-args ws t (b'<' ∷ b'>' ∷ []) all h refl plain-no_redirect) in
    rw
      (
        go_on,
        gettoken-word w (print_args ws t) p,
        more,
        skip-args ws t all h,
        no_redirect,
        skip-args ws t all h,
      )
      (parseargs-print ws n (argc + 1) (argv ++ (w ∷ [])) t all h (omega arith) (omega arith)
        ∙ ap (λ l. ok (execcmd l, t)) (append_assoc argv (w ∷ []) ws))
