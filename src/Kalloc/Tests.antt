-- ===== src/Kalloc/Tests.antt =====
-- The theorems on HW3/kalloc.c at a free list of one page.
use operating_systems.Base.{ℕ, ◌<◌, ◌≤◌, ◌≡◌, ◌⊎◌, refl, [], ◌∷◌, arith}
use operating_systems.Str.{store_word, memset}
use operating_systems.Kalloc.{Kmem, load_word, kfree}
use operating_systems.Kalloc.Chain.{Chain, kfree_lem}

abbrev one_page : Kmem
one_page = record { freelist = 0x80200000; mem = λ x. 0 }

abbrev two_pages : Kmem
two_pages = record {
  freelist = 0x80201000;
  mem = store_word 0x80201000 0x80200000 (memset 0x80201000 1 4096 (λ x. 0));
}

one_page-Chain : Chain (λ x. 0) 0x80200000 (0x80200000 ∷ [])
unfolding load_word
one_page-Chain = (
  refl,
  record { aligned = refl; some_page = λ e. absurd (ground arith); small = omega arith },
  refl,
)

kfree_lem_example :
    Chain two_pages.mem two_pages.freelist (0x80201000 ∷ 0x80200000 ∷ [])
    × ((x : ℕ) → (x < 0x80201000) ⊎ (0x80202000 ≤ x) → two_pages.mem x ≡ 0)
unfolding kfree
kfree_lem_example =
    kfree_lem 0x80100000 0x80201000 one_page two_pages (0x80200000 ∷ []) (omega arith)
      one_page-Chain ((λ e. absurd (ground arith)), _) refl
