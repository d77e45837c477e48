-- ===== src/Grep/Meaning.antt =====
-- What the patterns of HW3/grep.c mean, and that its matcher decides it.
use operating_systems.Base.{
  ℕ, Bool, true, List, [], ◌∷◌, ◌++◌, ◌≡◌, ◌≢◌, ◌↔◌, ◌⊎◌, inl, inr, refl, ◌==◌, if◌then◌else◌, All,
  Bool-cases, arith, ap,
}
use operating_systems.Grep.Match.{at_end, one_byte, matchstar, matchhere, match_ends, match}

pub data Item : Type 0 where
  one : ℕ → Item
  star : ℕ → Item
  end_of_text : Item

-- The items of a pattern behind a leading ^.
abbrev pub parse : List ℕ → List Item
parse [] = []
parse (c ∷ []) = if c == b'$' then end_of_text ∷ [] else one c ∷ []
parse (c ∷ d ∷ re) =
    let stars = star c ∷ parse re in
    let ones = one c ∷ parse (d ∷ re) in if d == b'*' then stars else ones

abbrev pub Fits : ℕ → ℕ → Type 0
Fits c t = (c ≡ b'.') ⊎ (c ≡ t)

-- The text begins with what the items describe.
abbrev pub Begins : List Item → List ℕ → Type 0
Begins [] text = Unit
Begins (end_of_text ∷ items) text = (text ≡ []) × Begins items text
Begins (one c ∷ items) text = (t : ℕ) × (ts : List ℕ) × (text ≡ t ∷ ts) × Fits c t × Begins items ts
Begins (star c ∷ items) text =
    (us : List ℕ) × (ts : List ℕ) × (text ≡ us ++ ts) × All (Fits c) us × Begins items ts

module _ (m : List ℕ → Bool) (P : List ℕ → Type 0)
    (dec : (ts : List ℕ) → (m ts ≡ true) ↔ P ts) where
  one_byte_sound :
      (c : ℕ) (text : List ℕ)
      → one_byte c m text ≡ true
      → (t : ℕ) × (ts : List ℕ) × (text ≡ t ∷ ts) × Fits c t × P ts
  unfolding one_byte
  one_byte_sound c [] e = absurd (ground (arith, e))
  one_byte_sound c (t ∷ ts) e = (t, ts, refl, ground (arith, e), (dec ts).0 (ground (arith, e)))

  one_byte_complete : (c t : ℕ) (ts : List ℕ) → Fits c t → P ts → one_byte c m (t ∷ ts) ≡ true
  unfolding one_byte
  one_byte_complete c t ts f p = ground (arith, f, (dec ts).1 p)

  matchstar_sound :
      (c : ℕ) (text : List ℕ)
      → matchstar c m text ≡ true
      → (us : List ℕ) × (ts : List ℕ) × (text ≡ us ++ ts) × All (Fits c) us × P ts
  unfolding matchstar
  matchstar_sound c [] e = ([], [], refl, _, (dec []).0 e)
  matchstar_sound c (t ∷ ts) e = elim (Bool-cases (m (t ∷ ts))) [
    | inl here ↦ ([], t ∷ ts, refl, _, (dec (t ∷ ts)).0 here)
    | inr later ↦
        let (us, vs, split, fits, p) = matchstar_sound c ts (ground (arith, e)) in
        (t ∷ us, vs, ap (λ l. t ∷ l) split, (ground (arith, e), fits), p)
  ]

  matchstar_complete :
      (c : ℕ) (us ts : List ℕ) → All (Fits c) us → P ts → matchstar c m (us ++ ts) ≡ true
  unfolding matchstar
  matchstar_complete c [] [] fits p = (dec []).1 p
  matchstar_complete c [] (t ∷ ts) fits p = ground (arith, (dec (t ∷ ts)).1 p)
  matchstar_complete c (u ∷ us) ts (f, fits) p =
      ground (arith, f, matchstar_complete c us ts fits p)

matchhere_dec : (re text : List ℕ) → (matchhere re text ≡ true) ↔ Begins (parse re) text
unfolding matchhere
matchhere_dec [] text = (λ e. _, λ b. refl)
matchhere_dec (c ∷ []) text = elim (Bool-cases (c == b'$')) [
  | inl dollar ↦ rw dollar (λ e. (ended text e, _), λ (e, _). rw e refl)
  | inr other ↦ rw other (
    one_byte_sound (matchhere []) (Begins []) (matchhere_dec []) c text,
    λ (t, ts, e, f, b).
        rw e (one_byte_complete (matchhere []) (Begins []) (matchhere_dec []) c t ts f b),
  )
]
  where
    ended : (text : List ℕ) → at_end text ≡ true → text ≡ []
    ended [] e = refl
    ended (t ∷ ts) e = absurd (ground (arith, e))
matchhere_dec (c ∷ d ∷ re) text = elim (Bool-cases (d == b'*')) [
  | inl starred ↦ rw starred (
    matchstar_sound (matchhere re) (Begins (parse re)) (matchhere_dec re) c text,
    λ (us, ts, e, f, b).
        rw e (matchstar_complete (matchhere re) (Begins (parse re)) (matchhere_dec re) c us ts f b),
  )
  | inr plain ↦ rw plain (
    one_byte_sound (matchhere (d ∷ re)) (Begins (parse (d ∷ re))) (matchhere_dec (d ∷ re)) c text,
    λ (t, ts, e, f, b). rw e (
        one_byte_complete (matchhere (d ∷ re)) (Begins (parse (d ∷ re))) (matchhere_dec (d ∷ re)) c
          t ts f b),
  )
]

-- Some end of the text begins with what the pattern means.
abbrev pub Occurs : List ℕ → List ℕ → Type 0
Occurs re text = (us : List ℕ) × (ts : List ℕ) × (text ≡ us ++ ts) × Begins (parse re) ts

-- The pattern without its leading ^ at the beginning, or the pattern anywhere.
abbrev pub Found : List ℕ → List ℕ → Type 0
Found [] text = Occurs [] text
Found (c ∷ re) text = (c ≡ b'^' → Begins (parse re) text) × (c ≢ b'^' → Occurs (c ∷ re) text)

match_ends_sound : (re text : List ℕ) → match_ends re text ≡ true → Occurs re text
unfolding match_ends
match_ends_sound re [] e = ([], [], refl, (matchhere_dec re []).0 e)
match_ends_sound re (t ∷ ts) e = elim (Bool-cases (matchhere re (t ∷ ts))) [
  | inl here ↦ ([], t ∷ ts, refl, (matchhere_dec re (t ∷ ts)).0 here)
  | inr later ↦
      let (us, vs, split, b) = match_ends_sound re ts (ground (arith, e)) in
      (t ∷ us, vs, ap (λ l. t ∷ l) split, b)
]

match_ends_complete : (re us ts : List ℕ) → Begins (parse re) ts → match_ends re (us ++ ts) ≡ true
unfolding match_ends
match_ends_complete re [] [] b = (matchhere_dec re []).1 b
match_ends_complete re [] (t ∷ ts) b = ground (arith, (matchhere_dec re (t ∷ ts)).1 b)
match_ends_complete re (u ∷ us) ts b = ground (arith, match_ends_complete re us ts b)

match_ends_dec : (re text : List ℕ) → (match_ends re text ≡ true) ↔ Occurs re text
match_ends_dec re text =
    (match_ends_sound re text, λ (us, ts, e, b). rw e (match_ends_complete re us ts b))

-- `match` answers 1 exactly when the text has what the pattern means: at its beginning behind a
-- leading ^, anywhere otherwise.
pub match_iff : (re text : List ℕ) → (match re text ≡ true) ↔ Found re text
unfolding match
match_iff [] text = match_ends_dec [] text
match_iff (c ∷ re) text = elim (Bool-cases (c == b'^')) [
  | inl caret ↦ rw caret (
    λ e. (λ _. (matchhere_dec re text).0 e, λ ne. absurd (ground (arith, caret, ne))),
    λ (b, _). (matchhere_dec re text).1 (b (ground (arith, caret))),
  )
  | inr plain ↦ rw plain (
    λ e. (λ same. absurd (ground (arith, plain, same)), λ _. (match_ends_dec (c ∷ re) text).0 e),
    λ (_, o). (match_ends_dec (c ∷ re) text).1 (o (ground (arith, plain))),
  )
]
