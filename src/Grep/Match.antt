-- ===== src/Grep/Match.antt =====
-- HW3/grep.c: `match`, `matchhere` and `matchstar`. A string is the list of its bytes before the zero byte.
use operating_systems.Base.{ℕ, Bool, true, false, List, [], ◌∷◌, ◌==◌, ◌||◌, if◌then◌else◌}

-- `*text == '\0'`
abbrev pub at_end : List ℕ → Bool
at_end [] = true
at_end (t ∷ ts) = false

-- The test of one byte, with the rest of the pattern as a function of the rest of the text.
unfoldable pub one_byte : ℕ → (List ℕ → Bool) → List ℕ → Bool
one_byte c re [] = false
one_byte c re (t ∷ ts) = let rest = re ts in if c == b'.' || c == t then rest else false

-- `matchstar`, with the rest of the pattern as a function.
unfoldable pub matchstar : ℕ → (List ℕ → Bool) → List ℕ → Bool
matchstar c re [] = re []
matchstar c re (t ∷ ts) =
    let rest = matchstar c re ts in
    if re (t ∷ ts) then true else if t == c || c == b'.' then rest else false

unfoldable pub matchhere : List ℕ → List ℕ → Bool
matchhere [] text = true
matchhere (c ∷ []) text = if c == b'$' then at_end text else one_byte c (matchhere []) text
matchhere (c ∷ d ∷ re) text =
    let star = matchstar c (matchhere re) text in
    let next = one_byte c (matchhere (d ∷ re)) text in if d == b'*' then star else next

-- The loop of `match` over the ends of the text, the empty one included.
unfoldable pub match_ends : List ℕ → List ℕ → Bool
match_ends re [] = matchhere re []
match_ends re (t ∷ ts) = let rest = match_ends re ts in if matchhere re (t ∷ ts) then true else rest

unfoldable pub match : List ℕ → List ℕ → Bool
match [] text = match_ends [] text
match (c ∷ re) text = if c == b'^' then matchhere re text else match_ends (c ∷ re) text
