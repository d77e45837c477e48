-- ===== src/Cache/Search.antt =====
-- What the two searches of `bget` of HW3/bio.c find.
use operating_systems.Base.{
  ℕ, zero, suc, ◌<◌, ◌≡◌, inl, inr, refl, Bool, true, false, none, some, List, [], ◌∷◌, get_elem?,
  find_index, All, All-get, Option-cases, Bool-cases, arith, ◌∙◌, ap,
}
use operating_systems.Cache.Buffers.{Buf, is_free, find_last}

pub find_index-none-All :
    (p : Buf → Bool) (bs : List Buf) → find_index p bs ≡ none → All (λ b. p b ≡ false) bs
unfolding find_index
find_index-none-All p [] e = _
find_index-none-All p (b ∷ bs) e = elim (Bool-cases (p b)) [
  | inl t ↦ absurd (ground (arith, e))
  | inr f ↦ (f, find_index-none-All p bs (ground (arith, e)))
]

pub find_last-none : (bs : List Buf) → find_last bs ≡ none → All (λ b. is_free b ≡ false) bs
unfolding find_last
find_last-none [] e = _
find_last-none (b ∷ bs) e = elim (Option-cases (find_last bs)) [
  | inl n ↦ elim (Bool-cases (is_free b)) [
    | inl t ↦ absurd (ground (arith, rw (n, t) at e))
    | inr f ↦ (f, find_last-none bs n)
  ]
  | inr (i, found) ↦ absurd (ground (arith, rw found at e))
]

pub find_last-some :
    (bs : List Buf) (j : ℕ)
    → find_last bs ≡ some j
    → (b : Buf) × (get_elem? bs j ≡ some b)
      × (is_free b ≡ true)
      × ((k : ℕ) (c : Buf) → j < k → get_elem? bs k ≡ some c → is_free c ≡ false)
unfolding find_last
find_last-some [] j e = absurd (ground (arith, e))
find_last-some (b ∷ bs) zero e = elim (Option-cases (find_last bs)) [
  | inl n ↦ elim (Bool-cases (is_free b)) [
    | inl t ↦ (b, refl, t, λ k c lt g. behind k c lt g (find_last-none bs n))
    | inr f ↦ absurd (ground (arith, rw (n, f) at e))
  ]
  | inr (i, found) ↦ absurd (ground (arith, rw found at e))
]
  where
    behind :
        (k : ℕ) (c : Buf)
        → 0 < k
        → get_elem? (b ∷ bs) k ≡ some c
        → All (λ d. is_free d ≡ false) bs
        → is_free c ≡ false
    behind zero c lt g a = absurd (omega arith)
    behind (suc k) c lt g a = All-get (λ d. is_free d ≡ false) bs k c g a
find_last-some (b ∷ bs) (suc j) e = elim (Option-cases (find_last bs)) [
  | inl n ↦ elim (Bool-cases (is_free b)) [
    | inl t ↦ absurd (ground (arith, rw (n, t) at e))
    | inr f ↦ absurd (ground (arith, rw (n, f) at e))
  ]
  | inr (i, found) ↦
      let same : i ≡ j = ground (arith, rw found at e) in
      let (d, g, f, later) = find_last-some bs j (found ∙ ap some same) in
      (d, g, f, λ k c lt h. shift k c lt h later)
]
  where
    shift :
        (k : ℕ) (c : Buf)
        → suc j < k
        → get_elem? (b ∷ bs) k ≡ some c
        → ((k : ℕ) (c : Buf) → j < k → get_elem? bs k ≡ some c → is_free c ≡ false)
        → is_free c ≡ false
    shift zero c lt h later = absurd (omega arith)
    shift (suc k) c lt h later = later k c (omega arith) h
