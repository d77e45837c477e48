-- ===== src/Shell/Tokens.antt =====
-- HW3/sh.c: `gettoken` and `peek` on the bytes from `*ps` to `es`, none of which is zero.
use operating_systems.Base.{ℕ, ◌&&◌, ◌||◌, not, Bool, false, List, [], ◌∷◌, ◌==◌, if◌then◌else◌}

-- Does `strchr` find the character?
unfoldable pub is_in : ℕ → List ℕ → Bool
is_in c [] = false
is_in c (x ∷ xs) = (c == x) || is_in c xs

-- `whitespace`
abbrev pub whitespace : List ℕ
whitespace = 32 ∷ 9 ∷ 13 ∷ 10 ∷ 11 ∷ []

-- `symbols`
abbrev pub symbols : List ℕ
symbols = b'<' ∷ b'|' ∷ b'>' ∷ b'&' ∷ b';' ∷ b'(' ∷ b')' ∷ []

-- `while(s < es && strchr(whitespace, *s)) s++;`
unfoldable pub skip_space : List ℕ → List ℕ
skip_space [] = []
skip_space (c ∷ cs) = let rest = skip_space cs in if is_in c whitespace then rest else c ∷ cs

-- May the character stand in a word?
unfoldable pub is_plain : ℕ → Bool
is_plain c = not (is_in c whitespace) && not (is_in c symbols)

-- The characters of a word, and what is behind them.
unfoldable pub word : List ℕ → List ℕ × List ℕ
word [] = ([], [])
word (c ∷ cs) = let (w, rest) = word cs in if is_plain c then (c ∷ w, rest) else ([], c ∷ cs)

-- What `gettoken` returns, the bytes from `*q` to `*eq`, and the bytes from the new `*ps` on.
pub record Token : Type 0 where
  pub kind : ℕ
  pub text : List ℕ
  pub rest : List ℕ

-- The character behind a `>`.
abbrev pub after_greater : List ℕ → Token
after_greater [] = record { kind = b'>'; text = b'>' ∷ []; rest = [] }
after_greater (d ∷ ds) =
    if d == b'>'
    then record { kind = b'+'; text = b'>' ∷ b'>' ∷ []; rest = skip_space ds }
    else record { kind = b'>'; text = b'>' ∷ []; rest = skip_space (d ∷ ds) }

-- The `switch` of `gettoken`.
unfoldable pub token_at : List ℕ → Token
token_at [] = record { kind = 0; text = []; rest = [] }
token_at (c ∷ cs) =
    if is_in c (b'|' ∷ b'(' ∷ b')' ∷ b';' ∷ b'&' ∷ b'<' ∷ [])
    then record { kind = c; text = c ∷ []; rest = skip_space cs }
    else if c == b'>'
    then after_greater cs
    else (let (w, rest) = word (c ∷ cs) in record { kind = b'a'; text = w; rest = skip_space rest })

unfoldable pub gettoken : List ℕ → Token
gettoken s = token_at (skip_space s)

-- The answer of `peek`; the new `*ps` is `skip_space s`.
abbrev pub starts : List ℕ → List ℕ → Bool
starts [] toks = false
starts (c ∷ cs) toks = is_in c toks

unfoldable pub peek : List ℕ → List ℕ → Bool
peek s toks = starts (skip_space s) toks
