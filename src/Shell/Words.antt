-- ===== src/Shell/Words.antt =====
-- What the tokens of HW3/sh.c are, and how much of the line they leave.
use operating_systems.Base.{
  ℕ, ◌<◌, ◌≤◌, ◌≡◌, ◌≢◌, inl, inr, refl, sym, true, false, Bool-cases, List, [], ◌∷◌, All, length,
  arith, ◌==◌,
}
use mathlib.Core.Bool.{true≢false}
use operating_systems.Shell.Tokens.{
  is_in, whitespace, skip_space, is_plain, word, Token, after_greater, token_at, gettoken, starts,
  peek,
}

-- A word is not empty and has neither white space nor symbols.
abbrev pub IsWord : List ℕ → Type 0
IsWord [] = ⊥
IsWord (c ∷ cs) = All (λ x. is_plain x ≡ true) (c ∷ cs)

pub length-skip_space : (s : List ℕ) → length (skip_space s) ≤ length s
unfolding skip_space
length-skip_space [] = omega arith
length-skip_space (c ∷ cs) = elim (Bool-cases (is_in c whitespace)) [
  | inl y ↦ rw (y) (let le = length-skip_space cs in omega arith)
  | inr n ↦ rw (n) (omega arith)
]

pub starts-skip_space : (s : List ℕ) → starts (skip_space s) whitespace ≡ false
unfolding skip_space
starts-skip_space [] = refl
starts-skip_space (c ∷ cs) = elim (Bool-cases (is_in c whitespace)) [
  | inl y ↦ rw (y) (starts-skip_space cs)
  | inr n ↦ rw (n) n
]

-- What `word` gives.
abbrev WordOf : List ℕ → List ℕ × List ℕ → Type 0
WordOf s (w, rest) = All (λ x. is_plain x ≡ true) w × (length rest ≤ length s)

word_lem : (s : List ℕ) → WordOf s (word s)
unfolding word
word_lem [] = (tt, omega arith)
word_lem (c ∷ cs) = elim (Bool-cases (is_plain c)) [
  | inl y ↦ rw (y) (let (all, le) = word_lem cs in ((y, all), omega arith))
  | inr n ↦ rw (n) (tt, omega arith)
]

-- What a token of the line `s` is: it takes something of the line unless that is at its end, and a
-- token of kind `a` is a word.
abbrev pub TokenOf : List ℕ → Token → Type 0
TokenOf s tok =
    (length tok.rest ≤ length s)
    × (s ≢ [] → length tok.rest < length s)
    × (tok.kind ≡ b'a' → IsWord tok.text)

after_greater_lem : (c : ℕ) (cs : List ℕ) → TokenOf (c ∷ cs) (after_greater cs)
after_greater_lem c [] = (omega arith, (λ ne. omega arith), λ h. absurd (omega arith))
after_greater_lem c (d ∷ ds) = elim (Bool-cases (d == b'>')) [
  | inl y ↦ rw (y) (
      let le = length-skip_space ds in
      (omega arith, (λ ne. omega arith), λ h. absurd (omega arith)))
  | inr n ↦ rw (n) (
      let le = length-skip_space (d ∷ ds) in
      (omega arith, (λ ne. omega arith), λ h. absurd (omega arith)))
]

symbol-no_word : (c : ℕ) → is_in c (b'|' ∷ b'(' ∷ b')' ∷ b';' ∷ b'&' ∷ b'<' ∷ []) ≡ true → c ≢ b'a'
unfolding is_in
symbol-no_word c y e = absurd (ground arith)

other-is_plain :
    (c : ℕ)
    → is_in c whitespace ≡ false
    → is_in c (b'|' ∷ b'(' ∷ b')' ∷ b';' ∷ b'&' ∷ b'<' ∷ []) ≡ false
    → (c == b'>') ≡ false
    → is_plain c ≡ true
unfolding is_in is_plain
other-is_plain c a b d = ground arith

plain-TokenOf :
    (c : ℕ) (cs : List ℕ)
    → is_plain c ≡ true
    → TokenOf
        (c ∷ cs)
        (let (w, rest) = word (c ∷ cs) in record { kind = b'a'; text = w; rest = skip_space rest })
unfolding word
plain-TokenOf c cs y = rw (y) (
    let (all, le) = word_lem cs in
    let le' = length-skip_space ((word cs).1) in (omega arith, (λ ne. omega arith), λ h. (y, all)))

token_at_lem : (s : List ℕ) → starts s whitespace ≡ false → TokenOf s (token_at s)
unfolding token_at
token_at_lem [] out = (omega arith, (λ ne. absurd (ne refl)), λ h. absurd (omega arith))
token_at_lem (c ∷ cs) out =
    elim (Bool-cases (is_in c (b'|' ∷ b'(' ∷ b')' ∷ b';' ∷ b'&' ∷ b'<' ∷ []))) [
      | inl y ↦ rw (y) (
          let le = length-skip_space cs in
          (omega arith, (λ ne. omega arith), λ h. absurd (symbol-no_word c y h)))
      | inr n ↦ elim (Bool-cases (c == b'>')) [
        | inl z ↦ rw (n, z) (after_greater_lem c cs)
        | inr z ↦ rw (n, z) (plain-TokenOf c cs (other-is_plain c out n z))
      ]
    ]

pub gettoken_lem : (s : List ℕ) → TokenOf (skip_space s) (gettoken s)
unfolding gettoken
gettoken_lem s = token_at_lem (skip_space s) (starts-skip_space s)

pub gettoken-le : (s : List ℕ) → length (gettoken s).rest ≤ length s
gettoken-le s = let (le, lt, w) = gettoken_lem s in let le' = length-skip_space s in omega arith

starts-some : (s toks : List ℕ) → starts s toks ≡ true → s ≢ []
starts-some [] toks h e = absurd (true≢false (sym h))
starts-some (c ∷ cs) toks h e = cc

-- Where `peek` found a token, taking it shortens the line.
pub gettoken-peek : (s toks : List ℕ) → peek s toks ≡ true → length (gettoken s).rest < length s
unfolding peek
gettoken-peek s toks h =
    let (le, lt, w) = gettoken_lem s in
    let le' = length-skip_space s in
    let less = lt (starts-some (skip_space s) toks h) in omega arith

-- A word is one.
pub gettoken-IsWord : (s : List ℕ) → (gettoken s).kind ≡ b'a' → IsWord (gettoken s).text
gettoken-IsWord s = let (le, lt, w) = gettoken_lem s in w

kind_zero : (s : List ℕ) → s ≡ [] → (token_at s).kind ≡ 0
unfolding token_at
kind_zero s e = rw (e) refl

-- So does taking a token where the line is not at its end.
pub gettoken-kind : (s : List ℕ) → (gettoken s).kind ≢ 0 → length (gettoken s).rest < length s
unfolding gettoken
gettoken-kind s ne =
    let (le, lt, w) = gettoken_lem s in
    let le' = length-skip_space s in
    let less = lt (λ e. ne (kind_zero (skip_space s) e)) in omega arith
