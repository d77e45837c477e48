-- ===== src/Paging/Tests.antt =====
-- The theorem on `mappages` of HW3/vm.c for an empty directory and one free page.
use operating_systems.Base.{ℕ, ◌*◌, ◌≡◌, refl, false, [], ◌∷◌, Option, none, some, sym, ◌∙◌, arith}
use mathlib.Core.Bool.{true≢false}
use operating_systems.Base.Int.{ℤ}
use operating_systems.Str.{store_word, memset, stosl}
use operating_systems.Blocks.Bits.{has_bit, set_bit, or_bits}
use operating_systems.Kalloc.{Kmem, load_word, kalloc}
use operating_systems.Kalloc.Chain.{IsPage}
use operating_systems.Paging.Walk.{mappages, map_pages, walkpgdir, is_present}
use operating_systems.Paging.Copies.{uva2ka}
use operating_systems.Paging.Space.{pde, Tables}
use operating_systems.Paging.Ranges.{MapsTo, Unmapped}
use operating_systems.Paging.Mapping.{mappages_lem}
use operating_systems.Paging.Translate.{uva2ka-mappages}

abbrev memory : Kmem
memory = record { freelist = 0x80401000; mem = λ x. 0 }

directory-IsPage : IsPage 0x80400000
directory-IsPage = record { aligned = refl; some_page = omega arith; small = omega arith }

spare-IsPage : IsPage 0x80401000
spare-IsPage = record { aligned = refl; some_page = omega arith; small = omega arith }

absent : (i : ℕ) → is_present (pde memory.mem 0x80400000 i) ≡ false
unfolding load_word has_bit
absent i = refl

memory-Tables : Tables 0x80400000 (0x80401000 ∷ []) memory.mem memory.freelist
unfolding load_word
memory-Tables = record {
  dir = directory-IsPage;
  chain = (refl, spare-IsPage, refl);
  distinct = (tt, tt);
  dir_taken = (omega arith, tt);
  tables = λ i lt h. absurd (true≢false (sym h ∙ absent i));
  apart = λ i j li lj h. absurd (true≢false (sym h ∙ absent i));
}

memory-Unmapped : Unmapped 0x80400000 5 2 memory.mem
unfolding load_word has_bit
memory-Unmapped va lt low high = refl

mappages_lem_example :
    MapsTo 0x80400000 5 2 0x200000 6 memory.mem
      (mappages 0x80400000 (5 * 4096) (3 * 4096) 0x200000 6 memory)
mappages_lem_example =
    mappages_lem 0x80400000 5 2 0x200000 6 (0x80401000 ∷ []) memory memory-Tables (omega arith)
      (omega arith) memory-Unmapped

abbrev kmem_of : Option (ℤ × Kmem) → Kmem
kmem_of none = memory
kmem_of (some (r, k)) = k

memory-Unmapped_one : Unmapped 0x80400000 5 0 memory.mem
unfolding load_word has_bit
memory-Unmapped_one va lt low high = refl

uva2ka-mappages_example :
    uva2ka 0x80400000 20500 (kmem_of (mappages 0x80400000 (5 * 4096) (1 * 4096) 0x200000 6 memory))
    ≡ 0x80200000
unfolding mappages map_pages walkpgdir kalloc load_word store_word memset stosl has_bit set_bit
    or_bits
uva2ka-mappages_example =
    uva2ka-mappages 0x80400000 5 0 0x200000 6 (0x80401000 ∷ []) memory _ memory-Tables (omega arith)
      (omega arith) memory-Unmapped_one refl refl refl 20500 (omega arith) (omega arith)
      (omega arith)
