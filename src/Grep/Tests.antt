-- ===== src/Grep/Tests.antt =====
-- The theorems on HW3/grep.c at a pattern and a text.
use operating_systems.Base.{ℕ, true, false, List, [], ◌∷◌, ◌≡◌, ◌↔◌, refl}
use operating_systems.Grep.Match.{matchhere, matchstar, one_byte, match_ends, match}
use operating_systems.Grep.Meaning.{Found, match_iff}

-- a*b$
abbrev as_then_b : List ℕ
as_then_b = b'a' ∷ b'*' ∷ b'b' ∷ b'$' ∷ []

match-aab : match as_then_b (b'x' ∷ b'a' ∷ b'a' ∷ b'b' ∷ []) ≡ true
unfolding match match_ends matchhere matchstar one_byte
match-aab = refl

match-aba : match as_then_b (b'a' ∷ b'b' ∷ b'a' ∷ []) ≡ false
unfolding match match_ends matchhere matchstar one_byte
match-aba = refl

match_iff_example : (match as_then_b (b'a' ∷ b'b' ∷ []) ≡ true) ↔ Found as_then_b (b'a' ∷ b'b' ∷ [])
match_iff_example = match_iff as_then_b (b'a' ∷ b'b' ∷ [])
