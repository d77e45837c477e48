-- ===== src/Linked/Order.antt =====
-- `mergeLists` of HW2/linkedList.c keeps sorted lists sorted.
use operating_systems.Base.{
  ℕ, ◌+◌, ◌<◌, ◌≡◌, refl, true, false, Option, some, List, [], ◌∷◌, length, All, All-imp, arith,
}
use operating_systems.Base.Int.{ℤ, pos, negsuc}
use operating_systems.Linked.Heap.{Heap, le_int, merge_lists}
use operating_systems.Linked.Walk.{Leads}
use operating_systems.Linked.Merge.{
  Merged, both_empty, first_left, second_left, from_first, from_second, merge_lists_lem,
}

-- Every value of the list is at least `v`.
abbrev pub AtLeast : ℤ → List ℤ → Type 0
AtLeast v vs = All (λ w. le_int v w ≡ true) vs

abbrev pub Sorted : List ℤ → Type 0
Sorted [] = Unit
Sorted (v ∷ vs) = AtLeast v vs × Sorted vs

le_int_total : (v w : ℤ) → le_int v w ≡ false → le_int w v ≡ true
le_int_total (pos a) (pos b) e = ground (arith, e)
le_int_total (pos a) (negsuc b) e = refl
le_int_total (negsuc a) (pos b) e = absurd (ground (arith, e))
le_int_total (negsuc a) (negsuc b) e = ground (arith, e)

le_int_trans : (u v w : ℤ) → le_int u v ≡ true → le_int v w ≡ true → le_int u w ≡ true
le_int_trans (pos a) (pos b) (pos c) e f = ground (arith, e, f)
le_int_trans (pos a) (pos b) (negsuc c) e f = absurd (ground (arith, f))
le_int_trans (pos a) (negsuc b) w e f = absurd (ground (arith, e))
le_int_trans (negsuc a) v (pos c) e f = refl
le_int_trans (negsuc a) (pos b) (negsuc c) e f = absurd (ground (arith, f))
le_int_trans (negsuc a) (negsuc b) (negsuc c) e f = ground (arith, e, f)

AtLeast-Merged :
    (u : ℤ) {vs ws out : List ℤ} → Merged vs ws out → AtLeast u vs → AtLeast u ws → AtLeast u out
AtLeast-Merged u both_empty a b = _
AtLeast-Merged u (first_left v vs out m) (e, a) b = (e, AtLeast-Merged u m a b)
AtLeast-Merged u (second_left w ws out m) a (e, b) = (e, AtLeast-Merged u m a b)
AtLeast-Merged u (from_first v w vs ws out le m) (e, a) b = (e, AtLeast-Merged u m a b)
AtLeast-Merged u (from_second v w vs ws out gt m) a (e, b) = (e, AtLeast-Merged u m a b)

AtLeast-trans : (u v : ℤ) (ws : List ℤ) → le_int u v ≡ true → AtLeast v ws → AtLeast u ws
AtLeast-trans u v ws e a =
    All-imp (λ w. le_int v w ≡ true) (λ w. le_int u w ≡ true) (λ w f. le_int_trans u v w e f) ws a

-- The merge of two sorted lists is sorted.
Merged-Sorted : {vs ws out : List ℤ} → Merged vs ws out → Sorted vs → Sorted ws → Sorted out
Merged-Sorted both_empty a b = _
Merged-Sorted (first_left v vs out m) (e, a) b = (AtLeast-Merged v m e _, Merged-Sorted m a b)
Merged-Sorted (second_left w ws out m) a (e, b) = (AtLeast-Merged w m _ e, Merged-Sorted m a b)
Merged-Sorted (from_first v w vs ws out le m) (e, a) (f, b) =
    (AtLeast-Merged v m e (le, AtLeast-trans v w ws le f), Merged-Sorted m a (f, b))
Merged-Sorted (from_second v w vs ws out gt m) (e, a) (f, b) = (
  AtLeast-Merged w m (le_int_total v w gt, AtLeast-trans w v vs (le_int_total v w gt) e) f,
  Merged-Sorted m (e, a) b,
)

-- `mergeLists` of two sorted lists that are not empty, with fuel for the nodes of both, ends with a
-- sorted list.
pub merge_lists-Sorted :
    (fuel p1 p2 : ℕ) (h : Heap) (as1 as2 : List ℕ) (vs ws : List ℤ)
    → Leads h (some p1) as1 vs
    → Leads h (some p2) as2 ws
    → length as1 + length as2 < fuel
    → Sorted vs
    → Sorted ws
    → (m : Option ℕ) × (h' : Heap) × (ads : List ℕ) × (out : List ℤ) × (merge_lists fuel
          (some p1)
          (some p2)
          h
        ≡ some (m, h'))
      × Leads h' m ads out
      × Sorted out
merge_lists-Sorted fuel p1 p2 h as1 as2 vs ws l1 l2 lt a b =
    let (m, h', ads, out, done, result, merged, _) =
      merge_lists_lem fuel p1 p2 h as1 as2 vs ws l1 l2 lt in
    (m, h', ads, out, done, result, Merged-Sorted merged a b)
