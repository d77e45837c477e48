-- ===== src/Paging/Space.antt =====
-- The page tables of HW3/vm.c in memory: which pages they are in, and which entry an address has.
use operating_systems.Base.{
  ℕ, ◌+◌, ◌*◌, ◌%◌, ◌^◌, ◌<◌, ◌≤◌, ◌≡◌, ◌≢◌, ◌⊎◌, refl, subst, ◌∙◌, true, List, [], ◌∷◌, All, arith,
  if◌then◌else◌,
}
use operating_systems.Str.{Bytes, store_word, memset}
use operating_systems.Str.Move.{memset_lem}
use operating_systems.Blocks.Bits.{has_bit, set_bit}
use operating_systems.Kalloc.{load_word}
use operating_systems.Kalloc.Chain.{Chain, IsPage, load_word-store_word}
use operating_systems.Paging.Walk.{pdx, page_of, p2v, v2p, is_present, pte_slot}

-- Entry `i` of the directory, and the table that it stands for.
abbrev pub pde : Bytes → ℕ → ℕ → ℕ
pde m pgdir i = load_word (pgdir + 4 * i) m

abbrev pub table : Bytes → ℕ → ℕ → ℕ
table m pgdir i = p2v (page_of (pde m pgdir i))

-- The entry of the page tables for the address `va`, zero where there is no table.
abbrev pub entry : Bytes → ℕ → ℕ → ℕ
entry m pgdir va =
    if is_present (pde m pgdir (pdx va))
    then load_word (pte_slot (table m pgdir (pdx va)) va) m
    else 0

abbrev pub Distinct : List ℕ → Type 0
Distinct [] = Unit
Distinct (p ∷ ps) = All (λ q. q ≢ p) ps × Distinct ps

-- The directory and its tables are pages of their own, and none of the free pages `ps`.
pub record Tables (pgdir : ℕ) (ps : List ℕ) (m : Bytes) (head : ℕ) : Type 0 where
  pub dir : IsPage pgdir
  pub chain : Chain m head ps
  pub distinct : Distinct ps
  pub dir_taken : All (λ p. p ≢ pgdir) ps
  pub tables :
      (i : ℕ)
      → i < 1024
      → is_present (pde m pgdir i) ≡ true
      → IsPage (table m pgdir i) × (table m pgdir i ≢ pgdir) × All (λ p. p ≢ table m pgdir i) ps
  pub apart :
      (i j : ℕ)
      → i < 1024
      → j < 1024
      → is_present (pde m pgdir i) ≡ true
      → is_present (pde m pgdir j) ≡ true
      → table m pgdir i ≡ table m pgdir j
      → i ≡ j

-- Two memories agree on the page `q`.
abbrev pub SamePage : Bytes → Bytes → ℕ → Type 0
SamePage m m' q = (x : ℕ) → q ≤ x → x < q + 4096 → m' x ≡ m x

pub load_word-SamePage :
    (m m' : Bytes) (q i : ℕ)
    → SamePage m m' q
    → i < 1024
    → load_word (q + 4 * i) m' ≡ load_word (q + 4 * i) m
unfolding load_word
load_word-SamePage m m' q i same lt =
    rw
      (
        same (q + 4 * i) (omega arith) (omega arith),
        same (q + 4 * i + 1) (omega arith) (omega arith),
        same (q + 4 * i + 2) (omega arith) (omega arith),
        same (q + 4 * i + 3) (omega arith) (omega arith),
      )
      refl

pub Chain-SamePage :
    (m m' : Bytes) (head : ℕ) (ps : List ℕ)
    → All (SamePage m m') ps
    → Chain m head ps
    → Chain m' head ps
Chain-SamePage m m' head [] same c = c
Chain-SamePage m m' head (p ∷ ps) (here, same) (e, page, c) =
    let link : load_word (p + 4 * 0) m' ≡ load_word (p + 4 * 0) m =
      load_word-SamePage m m' p 0 here (omega arith) in
    let start : p + 4 * 0 ≡ p = omega arith in
    let link' : load_word p m' ≡ load_word p m =
      subst (λ a. load_word a m' ≡ load_word a m) start link in
    (e, page, rw (link') (Chain-SamePage m m' (load_word p m) ps same c))

pub pages_apart :
    (p q x : ℕ) → IsPage p → IsPage q → q ≢ p → q ≤ x → x < q + 4096 → (x < p) ⊎ (p + 4096 ≤ x)
pages_apart p q x pp pq ne low high = let a = pp.aligned in let b = pq.aligned in omega arith

-- A word stored in the page `p` leaves other pages.
pub SamePage-store :
    (m : Bytes) (p q i w : ℕ)
    → IsPage p
    → IsPage q
    → q ≢ p
    → i < 1024
    → SamePage m (store_word (p + 4 * i) w m) q
unfolding store_word
SamePage-store m p q i w pp pq ne lt x low high =
    let out = pages_apart p q x pp pq ne low high in ground arith

pub SamePage-memset :
    (m : Bytes) (p q : ℕ) → IsPage p → IsPage q → q ≢ p → SamePage m (memset p 0 4096 m) q
SamePage-memset m p q pp pq ne x low high =
    let out = pages_apart p q x pp pq ne low high in memset_lem p 0 4096 m x ∙ ground arith

pub load_word-store_same :
    (m : Bytes) (p i w : ℕ) → w < 2 ^ 32 → load_word (p + 4 * i) (store_word (p + 4 * i) w m) ≡ w
load_word-store_same m p i w lt = load_word-store_word (p + 4 * i) w m lt

pub load_word-store_next :
    (m : Bytes) (p i j w : ℕ)
    → i ≢ j
    → load_word (p + 4 * j) (store_word (p + 4 * i) w m) ≡ load_word (p + 4 * j) m
unfolding load_word store_word
load_word-store_next m p i j w ne = ground arith

pub load_word-cleared :
    (m : Bytes) (p i : ℕ) → i < 1024 → load_word (p + 4 * i) (memset p 0 4096 m) ≡ 0
unfolding load_word
load_word-cleared m p i lt =
    rw
      (
        memset_lem p 0 4096 m (p + 4 * i),
        memset_lem p 0 4096 m (p + 4 * i + 1),
        memset_lem p 0 4096 m (p + 4 * i + 2),
        memset_lem p 0 4096 m (p + 4 * i + 3),
      )
      (ground arith)

flags_sum : (x : ℕ) → x % 4096 ≡ 0 → set_bit 0 (set_bit 1 (set_bit 2 x)) ≡ x + 7
unfolding set_bit
flags_sum x al = omega arith

pub new_entry_present :
    (p : ℕ) → IsPage p → is_present (set_bit 0 (set_bit 1 (set_bit 2 (v2p p)))) ≡ true
unfolding has_bit
new_entry_present p page =
    rw (flags_sum (v2p p) (let a = page.aligned in omega arith))
      (let a = page.aligned in ground arith)

pub new_entry_table :
    (p : ℕ) → IsPage p → p2v (page_of (set_bit 0 (set_bit 1 (set_bit 2 (v2p p))))) ≡ p
new_entry_table p page =
    rw (flags_sum (v2p p) (let a = page.aligned in omega arith))
      (let a = page.aligned in let b = page.small in omega arith)

pub new_entry_small : (p : ℕ) → IsPage p → set_bit 0 (set_bit 1 (set_bit 2 (v2p p))) < 2 ^ 32
new_entry_small p page =
    rw (flags_sum (v2p p) (let a = page.aligned in omega arith))
      (let a = page.aligned in let b = page.small in omega arith)
