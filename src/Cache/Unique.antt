-- ===== src/Cache/Unique.antt =====
-- A block stands in one buffer of HW3/bio.c at most, and a buffer has one user at most.
use operating_systems.Base.{
  ℕ, zero, suc, ◌≡◌, ◌≢◌, true, false, some, List, [], ◌∷◌, get_elem?, modify, All, All-imp,
  All-get, arith, sym, subst,
}
use operating_systems.Cache.Buffers.{Buf, caches, recycle, unlink}

-- The device number -1 that `binit` gives to the buffers that were never used.
abbrev pub no_device : ℕ
no_device = 4294967295

-- The buffers hold different blocks, or none.
abbrev pub Apart : Buf → Buf → Type 0
Apart b c = b.dev ≢ no_device → b.dev ≡ c.dev → b.blockno ≢ c.blockno

abbrev pub Unique : List Buf → Type 0
Unique [] = Unit
Unique (b ∷ bs) = All (Apart b) bs × Unique bs

All-modify_same :
    (P : Buf → Type 0) (bs : List Buf) (i : ℕ) (f : Buf → Buf)
    → ((b : Buf) → P b → P (f b))
    → All P bs
    → All P (modify bs i f)
All-modify_same P [] i f h a = _
All-modify_same P (b ∷ bs) zero f h (p, a) = (h b p, a)
All-modify_same P (b ∷ bs) (suc i) f h (p, a) = (p, All-modify_same P bs i f h a)

pub Unique-modify_flags :
    (bs : List Buf) (i : ℕ) → Unique bs → Unique (modify bs i (λ c. record c { busy = true }))
Unique-modify_flags [] i u = _
Unique-modify_flags (b ∷ bs) zero (a, u) = (a, u)
Unique-modify_flags (b ∷ bs) (suc i) (a, u) = (
  All-modify_same (Apart b) bs i (λ c. record c { busy = true }) (λ c p. p) a,
  Unique-modify_flags bs i u,
)

pub Unique-modify-recycle :
    (dev blockno : ℕ) (bs : List Buf) (j : ℕ)
    → dev ≢ no_device
    → All (λ b. caches dev blockno b ≡ false) bs
    → Unique bs
    → Unique (modify bs j (recycle dev blockno))
Unique-modify-recycle dev blockno [] j real miss u = _
Unique-modify-recycle dev blockno (b ∷ bs) zero real (m, miss) (a, u) = (
  All-imp (λ c. caches dev blockno c ≡ false) (Apart (recycle dev blockno b))
      (λ c f n same eq. absurd (ground (arith, f, same, eq))) bs miss,
  u,
)
Unique-modify-recycle dev blockno (b ∷ bs) (suc j) real (m, miss) (a, u) = (
  All-modify_at (Apart b) bs j (recycle dev blockno)
      (λ c n same eq. absurd (ground (arith, m, same, eq))) a,
  Unique-modify-recycle dev blockno bs j real miss u,
)
  where
    All-modify_at :
        (P : Buf → Type 0) (bs : List Buf) (i : ℕ) (f : Buf → Buf)
        → ((b : Buf) → P (f b))
        → All P bs
        → All P (modify bs i f)
    All-modify_at P bs i f h a = All-modify_same P bs i f (λ b p. h b) a

All-unlink : (P : Buf → Type 0) (i : ℕ) (bs : List Buf) → All P bs → All P (unlink i bs)
All-unlink P i [] a = _
All-unlink P zero (b ∷ bs) (p, a) = a
All-unlink P (suc i) (b ∷ bs) (p, a) = (p, All-unlink P i bs a)

pub Unique-unlink : (i : ℕ) (bs : List Buf) → Unique bs → Unique (unlink i bs)
Unique-unlink i [] u = _
Unique-unlink zero (b ∷ bs) (a, u) = u
Unique-unlink (suc i) (b ∷ bs) (a, u) = (All-unlink (Apart b) i bs a, Unique-unlink i bs u)

-- The buffer that is taken out holds another block than the rest.
pub Apart-unlink :
    (i : ℕ) (bs : List Buf) (b : Buf)
    → Unique bs
    → get_elem? bs i ≡ some b
    → All (Apart b) (unlink i bs)
Apart-unlink i [] b u e = absurd (ground (arith, e))
Apart-unlink zero (c ∷ bs) b (a, u) e =
    let same : c ≡ b = ground (arith, e) in subst (λ x. All (Apart x) bs) same a
Apart-unlink (suc i) (c ∷ bs) b (a, u) e = (
  (λ n same eq. All-get (Apart c) bs i b e a (ground (arith, n, same)) (sym same) (sym eq)),
  Apart-unlink i bs b u e,
)
