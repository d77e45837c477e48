-- ===== src/Shell/Print.antt =====
-- Commands written out in full, for the parser of HW3/sh.c to read: each part of a command stands in
-- brackets.
use operating_systems.Base.{
  ℕ, ◌≡◌, refl, true, false, List, [], ◌∷◌, ◌++◌, All, arith, ◌==◌, if◌then◌else◌,
}
use operating_systems.Shell.Tokens.{
  is_in, whitespace, skip_space, is_plain, word, token_at, gettoken, peek,
}
use operating_systems.Shell.Words.{IsWord}
use operating_systems.Shell.Parser.{Cmd, execcmd, redircmd, pipecmd, listcmd, backcmd}

-- The words, each with a space behind it, and then `t`.
abbrev pub print_args : List (List ℕ) → List ℕ → List ℕ
print_args [] t = t
print_args (w ∷ ws) t = w ++ (32 ∷ print_args ws t)

-- The command and then `t`.
unfoldable pub print : Cmd → List ℕ → List ℕ
print (execcmd argv) t = print_args argv t
print (redircmd c file mode fd) t =
    b'(' ∷ print c (b')' ∷ (if mode == 0 then b'<' else b'>') ∷ (file ++ (32 ∷ t)))
print (pipecmd l r) t = b'(' ∷ print l (b')' ∷ b'|' ∷ b'(' ∷ print r (b')' ∷ t))
print (listcmd l r) t = b'(' ∷ print l (b')' ∷ b';' ∷ b'(' ∷ print r (b')' ∷ t))
print (backcmd c) t = b'(' ∷ print c (b')' ∷ b'&' ∷ t)

-- Where a command may end: at the end of the line or a closing bracket.
abbrev pub AtEnd : List ℕ → Type 0
AtEnd [] = Unit
AtEnd (c ∷ cs) = c ≡ b')'

-- A word behind which there is a space.
pub word-print :
    (w t : List ℕ) → All (λ x. is_plain x ≡ true) w → word (w ++ (32 ∷ t)) ≡ (w, 32 ∷ t)
unfolding word is_plain is_in
word-print [] t all = refl
word-print (c ∷ w) t (h, all) = rw (h, word-print w t all) refl

plain_space :
    (c : ℕ)
    → is_plain c ≡ true
    → (is_in c whitespace ≡ false)
      × (is_in c (b'|' ∷ b'(' ∷ b')' ∷ b';' ∷ b'&' ∷ b'<' ∷ []) ≡ false)
      × ((c == b'>') ≡ false)
unfolding is_plain is_in
plain_space c h = (ground arith, ground arith, ground arith)

-- A word is taken as a token of kind `a`.
pub gettoken-word :
    (w t : List ℕ)
    → IsWord w
    → gettoken (w ++ (32 ∷ t)) ≡ record { kind = b'a'; text = w; rest = skip_space t }
unfolding gettoken token_at skip_space is_in
gettoken-word [] t h = absurd h
gettoken-word (c ∷ w) t (h, all) =
    let (a, b, d) = plain_space c h in
    let parts = word-print (c ∷ w) t (h, all) in rw (a, b, d, parts) refl

pub skip-AtEnd : (t : List ℕ) → AtEnd t → skip_space t ≡ t
unfolding skip_space is_in
skip-AtEnd [] h = refl
skip-AtEnd (c ∷ cs) h = rw (h) refl

-- What `peek` sees at a word.
pub peek-word :
    (w t toks : List ℕ)
    → IsWord w
    → ((c : ℕ) → is_plain c ≡ true → is_in c toks ≡ false)
    → peek (w ++ (32 ∷ t)) toks ≡ false
unfolding peek skip_space
peek-word [] t toks h no_tok = absurd h
peek-word (c ∷ w) t toks (h, all) no_tok = let (a, b, d) = plain_space c h in rw (a) (no_tok c h)
