-- ===== src/Kalloc/Chain.antt =====
-- The free list of HW3/kalloc.c as a list of pages.
use operating_systems.Base.{
  ℕ, ◌+◌, ◌%◌, ◌^◌, ◌<◌, ◌≤◌, ◌≡◌, ◌≢◌, ◌⊎◌, refl, some, none, List, [], ◌∷◌, All, arith, ◌∙◌,
  sub32, ◌==◌, false, subst, sym,
}
use operating_systems.Str.{Bytes, store_word, memset}
use operating_systems.Str.Move.{memset_lem}
use operating_systems.Kalloc.{Kmem, load_word, kfree, kalloc}

pub record IsPage (p : ℕ) : Type 0 where
  pub aligned : p % 4096 ≡ 0
  pub some_page : p ≢ 0
  pub small : p < 2 ^ 32

-- From `head` on the memory links these pages, and then nothing.
abbrev pub Chain : Bytes → ℕ → List ℕ → Type 0
Chain mem head [] = head ≡ 0
Chain mem head (p ∷ ps) = (head ≡ p) × IsPage p × Chain mem (load_word p mem) ps

pub load_word-store_word : (v w : ℕ) (m : Bytes) → w < 2 ^ 32 → load_word v (store_word v w m) ≡ w
unfolding load_word store_word
load_word-store_word v w m lt = ground arith

store_word_other : (v w x : ℕ) (m : Bytes) → (x < v) ⊎ (v + 4 ≤ x) → store_word v w m x ≡ m x
unfolding store_word
store_word_other v w x m out = ground arith

filled_other :
    (v w x : ℕ) (m : Bytes) → (x < v) ⊎ (v + 4096 ≤ x) → store_word v w (memset v 1 4096 m) x ≡ m x
filled_other v w x m out =
    store_word_other v w x (memset v 1 4096 m) (omega arith)
    ∙ memset_lem v 1 4096 m x
    ∙ ground arith

-- A page that is filled and linked leaves the links of the others.
load_word-filled :
    (v w p : ℕ) (m : Bytes)
    → IsPage p
    → v % 4096 ≡ 0
    → p ≢ v
    → load_word p (store_word v w (memset v 1 4096 m)) ≡ load_word p m
unfolding load_word
load_word-filled v w p m page al ne =
    let apart : (p + 4096 ≤ v) ⊎ (v + 4096 ≤ p) = omega (arith, page.aligned) in
    rw
      (
        filled_other v w p m (omega arith),
        filled_other v w (p + 1) m (omega arith),
        filled_other v w (p + 2) m (omega arith),
        filled_other v w (p + 3) m (omega arith),
      )
      refl

Chain-filled :
    (v w head : ℕ) (m : Bytes) (ps : List ℕ)
    → v % 4096 ≡ 0
    → All (λ p. p ≢ v) ps
    → Chain m head ps
    → Chain (store_word v w (memset v 1 4096 m)) head ps
Chain-filled v w head m [] al apart c = c
Chain-filled v w head m (p ∷ ps) al (ne, apart) (e, page, c) = (
  e,
  page,
  rw (load_word-filled v w p m page al ne) (Chain-filled v w (load_word p m) m ps al apart c),
)

head_small : (m : Bytes) (head : ℕ) (ps : List ℕ) → Chain m head ps → head < 2 ^ 32
head_small m head [] e = omega arith
head_small m head (p ∷ ps) (e, page, c) = omega (arith, page.small)

-- What `kfree` of a page that is not free leaves: the page stands first in the free list, the others
-- follow, and no byte of another page is changed.
pub kfree_lem :
    (kernel_end v : ℕ) (k k' : Kmem) (ps : List ℕ)
    → v < 2 ^ 32
    → Chain k.mem k.freelist ps
    → All (λ p. p ≢ v) ps
    → kfree kernel_end v k ≡ some k'
    → Chain k'.mem k'.freelist (v ∷ ps) × ((x : ℕ) → (x < v) ⊎ (v + 4096 ≤ x) → k'.mem x ≡ k.mem x)
unfolding kfree
kfree_lem kernel_end v k k' ps small c apart e =
    let (al, low, done) : (v % 4096 ≡ 0)
        × (sub32 v 0x80000000 < 0xE000000)
        × (k' ≡ record { freelist = v; mem = store_word v k.freelist (memset v 1 4096 k.mem) }) =
      ground (arith, e) in
    subst
      (λ (t : Kmem).
        Chain t.mem t.freelist (v ∷ ps) × ((x : ℕ) → (x < v) ⊎ (v + 4096 ≤ x) → t.mem x ≡ k.mem x))
      (sym done)
      (
        (
          refl,
          record { aligned = al; some_page = λ z. absurd (ground arith); small = small },
          rw
              (load_word-store_word v k.freelist (memset v 1 4096 k.mem)
                (head_small k.mem k.freelist ps c))
              (Chain-filled v k.freelist k.freelist k.mem ps al apart c),
        ),
        λ x out. filled_other v k.freelist x k.mem out,
      )

-- What `kalloc` owes for the free pages: the first one and the rest, or nothing.
abbrev pub AllocSpec : Kmem → List ℕ → Type 0
AllocSpec k [] = kalloc k ≡ (none, k)
AllocSpec k (p ∷ ps) =
    (k' : Kmem) × (kalloc k ≡ (some p, k'))
    × IsPage p
    × Chain k'.mem k'.freelist ps
    × (k'.mem ≡ k.mem)

-- `kalloc` returns the page that is first in the free list and leaves the others, and fails exactly
-- when there is none.
pub kalloc_lem : (k : Kmem) (ps : List ℕ) → Chain k.mem k.freelist ps → AllocSpec k ps
unfolding kalloc
kalloc_lem k [] e = rw e refl
kalloc_lem k (p ∷ ps) (e, page, c) =
    let used : (k.freelist == 0) ≡ false = ground (arith, page.some_page) in
    (
      record k { freelist = load_word k.freelist k.mem },
      rw (used, kalloc) (rw e refl),
      page,
      rw e c,
      refl,
    )
