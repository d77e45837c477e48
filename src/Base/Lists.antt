-- ===== src/Base/Lists.antt =====
-- Lists measured and indexed by native numbers; C arrays are such lists.
use Prim.Native.Nat.{ℕ, zero, suc, ◌+◌, ◌<◌, min}
use mathlib.Core.Path.{sym, ◌≡◌, refl, ap, subst}
use mathlib.Core.Logic.{◌≢◌, ◌⊎◌, inl, inr}
use mathlib.Core.Bool.{Bool, true, false}
use mathlib.Core.List.{List, [], ◌∷◌, ◌++◌, map}
use mathlib.Core.Option
use mathlib.Core.Option.{Option, none, some}
use native.Mathlib.Omega.{arith}
use operating_systems.Base.Tests.{if◌then◌else◌, Bool-cases}

module _ {ℓ} {A : Type ℓ} where
  abbrev pub length : List A → ℕ
  length [] = 0
  length (x ∷ xs) = suc (length xs)

  abbrev pub get_elem? : List A → ℕ → Option A
  get_elem? [] i = none
  get_elem? (x ∷ xs) zero = some x
  get_elem? (x ∷ xs) (suc i) = get_elem? xs i

  abbrev pub get_or : List A → ℕ → A → A
  get_or [] i d = d
  get_or (x ∷ xs) zero d = x
  get_or (x ∷ xs) (suc i) d = get_or xs i d

  -- A write out of bounds changes nothing.
  abbrev pub set : List A → ℕ → A → List A
  set [] i v = []
  set (x ∷ xs) zero v = v ∷ xs
  set (x ∷ xs) (suc i) v = x ∷ set xs i v

  -- `a[i] = f(a[i])`, with the same convention.
  abbrev pub modify : List A → ℕ → (A → A) → List A
  modify [] i f = []
  modify (x ∷ xs) zero f = f x ∷ xs
  modify (x ∷ xs) (suc i) f = x ∷ modify xs i f

  abbrev pub take : ℕ → List A → List A
  take zero xs = []
  take (suc n) [] = []
  take (suc n) (x ∷ xs) = x ∷ take n xs

  abbrev pub drop : ℕ → List A → List A
  drop zero xs = xs
  drop (suc n) [] = []
  drop (suc n) (x ∷ xs) = drop n xs

  abbrev pub replicate : ℕ → A → List A
  replicate zero a = []
  replicate (suc n) a = a ∷ replicate n a

  abbrev pub All {κ} : (A → Type κ) → List A → Type κ
  All P [] = Unit
  All P (x ∷ xs) = P x × All P xs

module _ {ℓ} {A : Type ℓ} where
  pub length-append : (xs ys : List A) → length (xs ++ ys) ≡ length xs + length ys
  length-append [] ys = omega arith
  length-append (x ∷ xs) ys = omega (arith, length-append xs ys)

  pub length-set : (xs : List A) (i : ℕ) (v : A) → length (set xs i v) ≡ length xs
  length-set [] i v = refl
  length-set (x ∷ xs) zero v = refl
  length-set (x ∷ xs) (suc i) v = ap suc (length-set xs i v)

  pub length-modify : (xs : List A) (i : ℕ) (f : A → A) → length (modify xs i f) ≡ length xs
  length-modify [] i f = refl
  length-modify (x ∷ xs) zero f = refl
  length-modify (x ∷ xs) (suc i) f = ap suc (length-modify xs i f)

  pub length-take : (n : ℕ) (xs : List A) → length (take n xs) ≡ min n (length xs)
  length-take zero xs = omega arith
  length-take (suc n) [] = omega arith
  length-take (suc n) (x ∷ xs) = omega (arith, length-take n xs)

  pub length-replicate : (n : ℕ) (a : A) → length (replicate n a) ≡ n
  length-replicate zero a = refl
  length-replicate (suc n) a = ap suc (length-replicate n a)

  pub length-map {κ} : {B : Type κ} (f : A → B) (xs : List A) → length (map f xs) ≡ length xs
  length-map f [] = refl
  length-map f (x ∷ xs) = ap suc (length-map f xs)

  pub get_elem?-map {κ} :
      {B : Type κ} (f : A → B) (xs : List A) (i : ℕ)
      → get_elem? (map f xs) i ≡ Option.map f (get_elem? xs i)
  get_elem?-map f [] i = refl
  get_elem?-map f (x ∷ xs) zero = refl
  get_elem?-map f (x ∷ xs) (suc i) = get_elem?-map f xs i

  pub get_elem?-modify_self :
      (xs : List A) (i : ℕ) (f : A → A)
      → get_elem? (modify xs i f) i ≡ Option.map f (get_elem? xs i)
  get_elem?-modify_self [] i f = refl
  get_elem?-modify_self (x ∷ xs) zero f = refl
  get_elem?-modify_self (x ∷ xs) (suc i) f = get_elem?-modify_self xs i f

  pub get_elem?-modify_ne :
      (xs : List A) (i j : ℕ) (f : A → A) → i ≢ j → get_elem? (modify xs i f) j ≡ get_elem? xs j
  get_elem?-modify_ne [] i j f h = refl
  get_elem?-modify_ne (x ∷ xs) zero zero f h = absurd (h refl)
  get_elem?-modify_ne (x ∷ xs) zero (suc j) f h = refl
  get_elem?-modify_ne (x ∷ xs) (suc i) zero f h = refl
  get_elem?-modify_ne (x ∷ xs) (suc i) (suc j) f h =
      get_elem?-modify_ne xs i j f (λ e. h (ap suc e))

  pub get_or-set_self :
      (xs : List A) (i : ℕ) (v d : A) → i < length xs → get_or (set xs i v) i d ≡ v
  get_or-set_self [] i v d h = absurd (omega arith)
  get_or-set_self (x ∷ xs) zero v d h = refl
  get_or-set_self (x ∷ xs) (suc i) v d h = get_or-set_self xs i v d (omega arith)

  pub get_or-set_ne :
      (xs : List A) (i j : ℕ) (v d : A) → i ≢ j → get_or (set xs i v) j d ≡ get_or xs j d
  get_or-set_ne [] i j v d h = refl
  get_or-set_ne (x ∷ xs) zero zero v d h = absurd (h refl)
  get_or-set_ne (x ∷ xs) zero (suc j) v d h = refl
  get_or-set_ne (x ∷ xs) (suc i) zero v d h = refl
  get_or-set_ne (x ∷ xs) (suc i) (suc j) v d h = get_or-set_ne xs i j v d (λ e. h (ap suc e))

  pub All-map {κ μ} :
      {B : Type μ} (P : B → Type κ) (f : A → B) (xs : List A)
      → All (λ x. P (f x)) xs
      → All P (map f xs)
  All-map P f [] h = tt
  All-map P f (x ∷ xs) h = (h.0, All-map P f xs h.1)

  pub All-imp {κ μ} :
      (P : A → Type κ) (Q : A → Type μ)
      → ((x : A) → P x → Q x)
      → (xs : List A) → All P xs
      → All Q xs
  All-imp P Q g [] h = tt
  All-imp P Q g (x ∷ xs) h = (g x h.0, All-imp P Q g xs h.1)

  pub All-modify {κ} :
      (P : A → Type κ) (xs : List A) (i : ℕ) (f : A → A)
      → ((x : A) → get_elem? xs i ≡ some x → P x → P (f x))
      → All P xs
      → All P (modify xs i f)
  All-modify P [] i f g h = tt
  All-modify P (x ∷ xs) zero f g h = (g x refl h.0, h.1)
  All-modify P (x ∷ xs) (suc i) f g h = (h.0, All-modify P xs i f g h.1)

  pub All-get {κ} :
      (P : A → Type κ) (xs : List A) (i : ℕ) (x : A) → get_elem? xs i ≡ some x → All P xs → P x
  All-get P [] i x e h = absurd (ground arith)
  All-get P (y ∷ xs) zero x e h = subst P (Option.some-injective y x e) h.0
  All-get P (y ∷ xs) (suc i) x e h = All-get P xs i x e h.1

-- `for(i = 0; i < n; i++) if(test(a[i])) goto found;`
unfoldable pub find_index {ℓ} : {A : Type ℓ} → (A → Bool) → List A → Option ℕ
find_index p [] = none
find_index p (x ∷ xs) = if p x then some zero else Option.map suc (find_index p xs)

module _ {ℓ} {A : Type ℓ} (p : A → Bool) where
  -- The index that is found holds an element that passes the test.
  pub find_index-some :
      (xs : List A) (i : ℕ)
      → find_index p xs ≡ some i
      → (a : A) × (get_elem? xs i ≡ some a) × (p a ≡ true)
  unfolding find_index
  find_index-some [] i e = absurd (ground arith)
  find_index-some (x ∷ xs) zero e = elim (Bool-cases (p x)) [
    | inl t ↦ (x, refl, t)
    | inr f ↦ absurd (ground arith)
  ]
  find_index-some (x ∷ xs) (suc i) e = find_index-some xs i (ground arith)

  -- Nothing before the index that is found passes the test.
  pub find_index-first :
      (xs : List A) (i j : ℕ) (b : A)
      → find_index p xs ≡ some i
      → j < i
      → get_elem? xs j ≡ some b
      → p b ≡ false
  unfolding find_index
  find_index-first [] i j b e lt g = absurd (ground arith)
  find_index-first (x ∷ xs) zero j b e lt g = absurd (omega arith)
  find_index-first (x ∷ xs) (suc i) zero b e lt g = ground arith
  find_index-first (x ∷ xs) (suc i) (suc j) b e lt g =
      find_index-first xs i j b (ground arith) (omega arith) g

  pub find_index-none :
      (xs : List A) (i : ℕ) (a : A) → find_index p xs ≡ none → get_elem? xs i ≡ some a → p a ≡ false
  unfolding find_index
  find_index-none [] i a e g = absurd (ground arith)
  find_index-none (x ∷ xs) zero a e g = ground arith
  find_index-none (x ∷ xs) (suc i) a e g = find_index-none xs i a (ground arith) g

pub find_index-modify {ℓ} :
    {A : Type ℓ} (p : A → Bool) (f : A → A) (xs : List A) (i : ℕ)
    → ((x : A) → p (f x) ≡ p x)
    → find_index p (modify xs i f) ≡ find_index p xs
unfolding find_index
find_index-modify p f [] i h = refl
find_index-modify p f (x ∷ xs) zero h = rw (h x)
find_index-modify p f (x ∷ xs) (suc i) h = rw (find_index-modify p f xs i h)

pub modify-modify {ℓ} :
    {A : Type ℓ} (xs : List A) (i : ℕ) (f g : A → A)
    → modify (modify xs i f) i g ≡ modify xs i (λ x. g (f x))
modify-modify [] i f g = refl
modify-modify (x ∷ xs) zero f g = refl
modify-modify (x ∷ xs) (suc i) f g = ap (λ r. x ∷ r) (modify-modify xs i f g)

pub get_elem?-some_lt {ℓ} :
    {A : Type ℓ} (xs : List A) (i : ℕ) (x : A) → get_elem? xs i ≡ some x → i < length xs
get_elem?-some_lt [] i x e = absurd (ground arith)
get_elem?-some_lt (y ∷ xs) zero x e = omega arith
get_elem?-some_lt (y ∷ xs) (suc i) x e = omega (arith, get_elem?-some_lt xs i x e)

-- An element after an assignment to slot `i`.
pub get_elem?-modify {ℓ} :
    {A : Type ℓ} (xs : List A) (i j : ℕ) (f : A → A) (x : A)
    → get_elem? xs j ≡ some x
    → ((i ≡ j) × (get_elem? (modify xs i f) j ≡ some (f x)))
      ⊎ ((i ≢ j) × (get_elem? (modify xs i f) j ≡ some x))
get_elem?-modify [] i j f x e = absurd (ground arith)
get_elem?-modify (y ∷ xs) zero zero f x e =
    inl (refl, ap (λ a. some (f a)) (Option.some-injective y x e))
get_elem?-modify (y ∷ xs) zero (suc j) f x e = inr (omega arith, e)
get_elem?-modify (y ∷ xs) (suc i) zero f x e = inr (omega arith, e)
get_elem?-modify (y ∷ xs) (suc i) (suc j) f x e = shift (get_elem?-modify xs i j f x e)
  where
    shift :
        ((i ≡ j) × (get_elem? (modify xs i f) j ≡ some (f x)))
          ⊎ ((i ≢ j) × (get_elem? (modify xs i f) j ≡ some x))
        → ((suc i ≡ suc j) × (get_elem? (modify xs i f) j ≡ some (f x)))
          ⊎ ((suc i ≢ suc j) × (get_elem? (modify xs i f) j ≡ some x))
    shift (inl (a, b)) = inl (ap suc a, b)
    shift (inr (a, b)) = inr (λ s. a (omega arith), b)

-- Where an element behind an assignment to slot `i` comes from.
pub modify-inverse {ℓ} :
    {A : Type ℓ} (xs : List A) (i j : ℕ) (f : A → A) (y : A)
    → get_elem? (modify xs i f) j ≡ some y
    → ((i ≡ j) × (x : A) × (get_elem? xs j ≡ some x) × (y ≡ f x))
      ⊎ ((i ≢ j) × (get_elem? xs j ≡ some y))
modify-inverse [] i j f y e = absurd (ground arith)
modify-inverse (x ∷ xs) zero zero f y e = inl (refl, x, refl, sym (Option.some-injective (f x) y e))
modify-inverse (x ∷ xs) zero (suc j) f y e = inr (omega arith, e)
modify-inverse (x ∷ xs) (suc i) zero f y e = inr (omega arith, e)
modify-inverse (x ∷ xs) (suc i) (suc j) f y e = elim (modify-inverse xs i j f y e) [
  | inl (a, x', g, b) ↦ inl (ap suc a, x', g, b)
  | inr (a, g) ↦ inr (λ s. a (omega arith), g)
]
