-- ===== src/Path/Skip.antt =====
-- What `skipelem` of HW3/fs.c takes from a path.
use operating_systems.Base.{
  ℕ, ◌≡◌, ◌≢◌, refl, Option, none, some, List, [], ◌∷◌, ◌++◌, take, All, arith, ap, Bool-cases, inl,
  inr, false, ◌==◌, ◌∙◌, sym, subst, append-nil,
}
use operating_systems.Path.Elements.{dirsiz, skip_slashes, element, skipelem}

abbrev pub Slashes : List ℕ → Type 0
Slashes = All (λ c. c ≡ b'/')

abbrev pub StartsPlain : List ℕ → Type 0
StartsPlain [] = Unit
StartsPlain (c ∷ cs) = c ≢ b'/'

abbrev pub StartsSlash : List ℕ → Type 0
StartsSlash [] = Unit
StartsSlash (c ∷ cs) = c ≡ b'/'

skip_slashes_lem :
    (cs : List ℕ)
    → (ss : List ℕ) × (cs ≡ ss ++ skip_slashes cs) × Slashes ss × StartsPlain (skip_slashes cs)
unfolding skip_slashes
skip_slashes_lem [] = ([], refl, _, _)
skip_slashes_lem (c ∷ cs) = elim (Bool-cases (c == b'/')) [
  | inl slash ↦
      let (ss, e, all, plain) = skip_slashes_lem cs in
      rw slash (c ∷ ss, ap (λ l. c ∷ l) e, (ground (arith, slash), all), plain)
  | inr other ↦ rw other ([], refl, _, ground (arith, other))
]

element_lem :
    (cs : List ℕ)
    → (cs ≡ (element cs).0 ++ (element cs).1)
      × All (λ c. c ≢ b'/') (element cs).0
      × StartsSlash (element cs).1
unfolding element
element_lem [] = (refl, tt, tt)
element_lem (c ∷ cs) = elim (Bool-cases (c == b'/')) [
  | inl slash ↦ rw slash (refl, tt, ground (arith, slash))
  | inr other ↦
      let (e, all, stops) = element_lem cs in
      rw other (ap (λ l. c ∷ l) e, (ground (arith, other), all), stops)
]

-- The element that does not begin with a slash is not empty.
element-nonempty : (c : ℕ) (cs : List ℕ) → c ≢ b'/' → (element (c ∷ cs)).0 ≢ []
unfolding element
element-nonempty c cs plain =
    let other : (c == b'/') ≡ false = ground (arith, plain) in rw other (λ e. cc)

-- What `skipelem` owes: none exactly for a path of slashes; otherwise slashes, an element that is not
-- empty and without a slash, up to the next slash or the end, more slashes and the rest make up the
-- path, and it gives the first DIRSIZ bytes of the element, and the rest, which does not begin with a
-- slash.
abbrev pub SkipSpec : List ℕ → Option (List ℕ × List ℕ) → Type 0
SkipSpec path none = Slashes path
SkipSpec path (some (name, rest)) =
    (ss : List ℕ) × (whole : List ℕ) × (ts : List ℕ) × (path ≡ ss ++ (whole ++ (ts ++ rest)))
    × Slashes ss
    × All (λ c. c ≢ b'/') whole
    × (whole ≢ [])
    × StartsSlash (ts ++ rest)
    × Slashes ts
    × (name ≡ take dirsiz whole)
    × StartsPlain rest

-- For a path of slashes only `skipelem` gives none. Of any other it passes over slashes, then the element
-- up to the next slash or the end, which is not empty, then more slashes; it gives the first DIRSIZ
-- bytes of the element, and the rest, which does not begin with a slash.
pub skipelem_lem : (path : List ℕ) → SkipSpec path (skipelem path)
unfolding skipelem
skipelem_lem path = at (skip_slashes path) refl (skip_slashes_lem path)
  where
    at :
        (cs : List ℕ)
        → skip_slashes path ≡ cs
        → (ss : List ℕ) × (path ≡ ss ++ skip_slashes path)
          × Slashes ss
          × StartsPlain (skip_slashes path)
        → SkipSpec path (skipelem path)
    at [] e (ss, split, slashes, plain) =
        rw (e, skipelem) (subst Slashes (sym (split ∙ ap (λ l. ss ++ l) e ∙ append-nil ss)) slashes)
    at (c ∷ cs) e (ss, split, slashes, plain) =
        let (parts, all, stops) = element_lem (c ∷ cs) in
        let head : StartsPlain (c ∷ cs) = subst StartsPlain e plain in
        let (ts, more, slashes', plain') = skip_slashes_lem (element (c ∷ cs)).1 in
        rw (e, skipelem)
          (
            ss,
            (element (c ∷ cs)).0,
            ts,
            split ∙ ap (λ l. ss ++ l) (e ∙ parts ∙ ap (λ l. (element (c ∷ cs)).0 ++ l) more),
            slashes,
            all,
            element-nonempty c cs head,
            subst StartsSlash more stops,
            slashes',
            refl,
            plain',
          )
