-- ===== src/Linked/Tests.antt =====
-- The theorems on HW2/linkedList.c at the lists 1, 4 and 2.
use operating_systems.Base.{ℕ, ◌≡◌, refl, Option, none, some, List, [], ◌∷◌, arith}
use operating_systems.Base.Int.{ℤ, pos}
use operating_systems.Linked.Heap.{Heap, merge_lists}
use operating_systems.Linked.Walk.{Leads}
use operating_systems.Linked.Merge.{Merged, merge_lists_lem}

-- 1 -> 4 at node 0, and 2 at node 2.
abbrev heap : Heap
heap =
    record { value = pos 1; next = some 1 }
    ∷ record { value = pos 4; next = none }
    ∷ record { value = pos 2; next = none }
    ∷ []

one_four : Leads heap (some 0) (0 ∷ 1 ∷ []) (pos 1 ∷ pos 4 ∷ [])
one_four = (refl, _, refl, refl, (refl, _, refl, refl, refl))

two : Leads heap (some 2) (2 ∷ []) (pos 2 ∷ [])
two = (refl, _, refl, refl, refl)

merge_lists_lem_example :
    (m : Option ℕ) × (h' : Heap) × (ads : List ℕ) × (out : List ℤ) × (merge_lists 5
        (some 0)
        (some 2)
        heap
      ≡ some (m, h'))
    × Leads h' m ads out
    × Merged (pos 1 ∷ pos 4 ∷ []) (pos 2 ∷ []) out
    × ((q : Option ℕ) (bs : List ℕ) (xs : List ℤ) → Leads heap q bs xs → Leads h' q bs xs)
merge_lists_lem_example =
    merge_lists_lem 5 0 2 heap (0 ∷ 1 ∷ []) (2 ∷ []) (pos 1 ∷ pos 4 ∷ []) (pos 2 ∷ []) one_four two
      (omega arith)
