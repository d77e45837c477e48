-- ===== src/Linked/Merge.antt =====
-- `mergeLists` of HW2/linkedList.c ends, merges the values, and leaves the two lists as they were.
use operating_systems.Base.{
  ℕ, zero, suc, ◌+◌, ◌<◌, ◌≤◌, ◌≡◌, ◌≢◌, refl, true, false, Option, none, some, List, [], ◌∷◌, ◌++◌,
  length, All, All-imp, arith, sym, subst, length-append, append_assoc, append-nil, Bool-cases, inl,
  inr,
}
use operating_systems.Base.Int.{ℤ}
use operating_systems.Linked.Heap.{
  Heap, le_int, list_insert_tail, after_insert, merge_loop, merge_lists,
}
use operating_systems.Linked.Walk.{Leads, list_insert_tail_lem, addresses_below}

-- The third list is the merge of the first two, with the first one's value where two are equal.
pub data Merged : List ℤ → List ℤ → List ℤ → Type 0 where
  both_empty : Merged [] [] []
  first_left : (v : ℤ) (vs out : List ℤ) → Merged vs [] out → Merged (v ∷ vs) [] (v ∷ out)
  second_left : (w : ℤ) (ws out : List ℤ) → Merged [] ws out → Merged [] (w ∷ ws) (w ∷ out)
  from_first :
      (v w : ℤ) (vs ws out : List ℤ)
      → le_int v w ≡ true
      → Merged vs (w ∷ ws) out
      → Merged (v ∷ vs) (w ∷ ws) (v ∷ out)
  from_second :
      (v w : ℤ) (vs ws out : List ℤ)
      → le_int v w ≡ false
      → Merged (v ∷ vs) ws out
      → Merged (v ∷ vs) (w ∷ ws) (w ∷ out)

-- Lists in nodes below `base` are the same in both heaps.
abbrev pub Keeps : ℕ → Heap → Heap → Type 0
Keeps base h h' =
    (q : Option ℕ) (bs : List ℕ) (ws : List ℤ)
    → All (λ b. b < base) bs
    → Leads h q bs ws
    → Leads h' q bs ws

-- What the loop leaves: the values `mvs` and behind them the merge.
abbrev pub MergesTo : ℕ → Option (Option ℕ × Heap) → List ℤ → List ℤ → List ℤ → Heap → Type 0
MergesTo base result mvs vs ws h =
    (m : Option ℕ) × (h' : Heap) × (ads : List ℕ) × (out : List ℤ) × (result ≡ some (m, h'))
    × Leads h' m ads (mvs ++ out)
    × Merged vs ws out
    × Keeps base h h'

above_apart :
    (base : ℕ) (bs ads : List ℕ)
    → All (λ b. b < base) bs
    → All (λ a. base ≤ a) ads
    → All (λ b. All (λ a. b ≢ a) ads) bs
above_apart base bs ads low high =
    All-imp (λ b. b < base) (λ b. All (λ a. b ≢ a) ads)
      (λ b lt. All-imp (λ a. base ≤ a) (λ a. b ≢ a) (λ a le s. absurd (omega arith)) ads high) bs
      low

All-snoc :
    (base : ℕ) (ads : List ℕ) (n : ℕ)
    → All (λ a. base ≤ a) ads
    → base ≤ n
    → All (λ a. base ≤ a) (ads ++ (n ∷ []))
All-snoc base [] n high le = (le, _)
All-snoc base (a ∷ ads) n (p, high) le = (p, All-snoc base ads n high le)

-- The state of the loop: the merged list in nodes from `base` up, the two lists below.
pub record State (steps fuel base : ℕ) (merged l1 l2 : Option ℕ) (h : Heap) (mads as1 as2 : List ℕ)
    (mvs vs ws : List ℤ) : Type 0 where
  pub whole : Leads h merged mads mvs
  pub first : Leads h l1 as1 vs
  pub second : Leads h l2 as2 ws
  pub high : All (λ a. base ≤ a) mads
  pub low1 : All (λ a. a < base) as1
  pub low2 : All (λ a. a < base) as2
  pub room : base ≤ length h
  pub rounds : length as1 + length as2 < fuel
  pub reach : length mads + (length as1 + length as2) < steps

-- A round that takes a value `v`, given what the rest of the loop does.
take_round :
    (steps fuel base : ℕ) (merged l1 l2 : Option ℕ) (h : Heap) (mads as1 as2 : List ℕ)
    (mvs vs ws vs0 ws0 : List ℤ) (v : ℤ)
    → ((merged : Option ℕ) (h : Heap) (mads : List ℕ) (mvs : List ℤ)
        → State steps fuel base merged l1 l2 h mads as1 as2 mvs vs ws
        → MergesTo base (merge_loop steps fuel merged l1 l2 h) mvs vs ws h)
    → Leads h merged mads mvs
    → Leads h l1 as1 vs
    → Leads h l2 as2 ws
    → All (λ a. base ≤ a) mads
    → All (λ a. a < base) as1
    → All (λ a. a < base) as2
    → base ≤ length h
    → length as1 + length as2 < fuel
    → length mads + (length as1 + length as2) + 1 < steps
    → ((out : List ℤ) → Merged vs ws out → Merged vs0 ws0 (v ∷ out))
    → MergesTo base
        (after_insert
          (list_insert_tail steps merged v h)
          (λ m h'. merge_loop steps fuel m l1 l2 h'))
        mvs
        vs0
        ws0
        h
take_round steps fuel base merged l1 l2 h mads as1 as2 mvs vs ws vs0 ws0 v ih whole first second
      high low1 low2 room rounds reach merges =
    let (head, h1, ins, leads, longer, keeps) =
      list_insert_tail_lem steps merged v h mads mvs whole (omega arith) in
    let keep : Keeps base h h1 =
      λ q bs xs low l. keeps q bs xs (above_apart base bs mads low high) l in
    let (m, h', ads, out, done, result, merged', kept) =
      ih (some head) h1 (mads ++ (length h ∷ [])) (mvs ++ (v ∷ [])) (record {
        whole = leads;
        first = keep l1 as1 vs low1 first;
        second = keep l2 as2 ws low2 second;
        high = All-snoc base mads (length h) high room;
        low1 = low1;
        low2 = low2;
        room = omega arith;
        rounds = rounds;
        reach = omega (arith, length-append mads (length h ∷ []));
      }) in
    (
      m,
      h',
      ads,
      v ∷ out,
      rw ins done,
      subst (Leads h' m ads) (append_assoc mvs (v ∷ []) out) result,
      merges out merged',
      λ q bs xs low l. kept q bs xs low (keep q bs xs low l),
    )

merge_loop_lem :
    (steps fuel base : ℕ) (merged l1 l2 : Option ℕ) (h : Heap) (mads as1 as2 : List ℕ)
    (mvs vs ws : List ℤ)
    → State steps fuel base merged l1 l2 h mads as1 as2 mvs vs ws
    → MergesTo base (merge_loop steps fuel merged l1 l2 h) mvs vs ws h
unfolding merge_loop
merge_loop_lem steps zero base merged l1 l2 h mads as1 as2 mvs vs ws st =
    absurd (omega (arith, st.rounds))
merge_loop_lem steps (suc fuel) base merged l1 l2 h mads [] [] mvs [] [] st = (
  merged,
  h,
  mads,
  [],
  rw (st.first, st.second, merge_loop) refl,
  subst (Leads h merged mads) (sym (append-nil mvs)) st.whole,
  both_empty,
  λ q bs xs low l. l,
)
merge_loop_lem steps (suc fuel) base merged l1 l2 h mads (a ∷ as1) [] mvs (v ∷ vs) [] st =
    let (e, n, g, value, l) = st.first in
    rw (e, st.second, g, value, merge_loop)
      (take_round steps fuel base merged n.next none h mads as1 [] mvs vs [] (v ∷ vs) [] v
        (λ m h' ads ms st'. merge_loop_lem steps fuel base m n.next none h' ads as1 [] ms vs [] st')
        st.whole l refl st.high st.low1.1 _ st.room (omega (arith, st.rounds))
        (omega (arith, st.reach)) (λ out o. first_left v vs out o))
merge_loop_lem steps (suc fuel) base merged l1 l2 h mads [] (b ∷ as2) mvs [] (w ∷ ws) st =
    let (e, n, g, value, l) = st.second in
    rw (e, st.first, g, value, merge_loop)
      (take_round steps fuel base merged none n.next h mads [] as2 mvs [] ws [] (w ∷ ws) w
        (λ m h' ads ms st'. merge_loop_lem steps fuel base m none n.next h' ads [] as2 ms [] ws st')
        st.whole refl l st.high _ st.low2.1 st.room (omega (arith, st.rounds))
        (omega (arith, st.reach)) (λ out o. second_left w ws out o))
merge_loop_lem steps (suc fuel) base merged l1 l2 h mads (a ∷ as1) (b ∷ as2) mvs (v ∷ vs) (w ∷ ws)
      st =
    let (e1, n1, g1, value1, k1) = st.first in
    let (e2, n2, g2, value2, k2) = st.second in
    elim (Bool-cases (le_int v w)) [
      | inl le ↦
          rw (e1, e2, g1, g2, value1, value2, le, merge_loop)
            (take_round steps fuel base merged n1.next (some b) h mads as1 (b ∷ as2) mvs vs (w ∷ ws)
              (v ∷ vs) (w ∷ ws) v
              (λ m h' ads ms st'.
                merge_loop_lem steps fuel base m n1.next (some b) h' ads as1 (b ∷ as2) ms vs
                  (w ∷ ws) st')
              st.whole k1 (subst (λ p. Leads h p (b ∷ as2) (w ∷ ws)) e2 st.second) st.high st.low1.1
              st.low2 st.room (omega (arith, st.rounds)) (omega (arith, st.reach))
              (λ out o. from_first v w vs ws out le o))
      | inr gt ↦
          rw (e1, e2, g1, g2, value1, value2, gt, merge_loop)
            (take_round steps fuel base merged (some a) n2.next h mads (a ∷ as1) as2 mvs (v ∷ vs) ws
              (v ∷ vs) (w ∷ ws) w
              (λ m h' ads ms st'.
                merge_loop_lem steps fuel base m (some a) n2.next h' ads (a ∷ as1) as2 ms (v ∷ vs)
                  ws st')
              st.whole (subst (λ p. Leads h p (a ∷ as1) (v ∷ vs)) e1 st.first) k2 st.high st.low1
              st.low2.1 st.room (omega (arith, st.rounds)) (omega (arith, st.reach))
              (λ out o. from_second v w vs ws out gt o))
    ]
merge_loop_lem steps (suc fuel) base merged l1 l2 h mads [] as2 mvs (v ∷ vs) ws st = absurd st.first
merge_loop_lem steps (suc fuel) base merged l1 l2 h mads (a ∷ as1) as2 mvs [] ws st =
    absurd st.first
merge_loop_lem steps (suc fuel) base merged l1 l2 h mads as1 [] mvs vs (w ∷ ws) st =
    absurd st.second
merge_loop_lem steps (suc fuel) base merged l1 l2 h mads as1 (b ∷ as2) mvs vs [] st =
    absurd st.second

-- `mergeLists` of two lists that are not empty, with fuel for the nodes of both, ends with a new list
-- of the merged values, and every list that was there is still there.
pub merge_lists_lem :
    (fuel p1 p2 : ℕ) (h : Heap) (as1 as2 : List ℕ) (vs ws : List ℤ)
    → Leads h (some p1) as1 vs
    → Leads h (some p2) as2 ws
    → length as1 + length as2 < fuel
    → (m : Option ℕ) × (h' : Heap) × (ads : List ℕ) × (out : List ℤ) × (merge_lists fuel
          (some p1)
          (some p2)
          h
        ≡ some (m, h'))
      × Leads h' m ads out
      × Merged vs ws out
      × ((q : Option ℕ) (bs : List ℕ) (xs : List ℤ) → Leads h q bs xs → Leads h' q bs xs)
unfolding merge_lists
merge_lists_lem fuel p1 p2 h as1 as2 vs ws l1 l2 lt =
    let (m, h', ads, out, done, result, merged, kept) =
      merge_loop_lem fuel fuel (length h) none (some p1) (some p2) h [] as1 as2 [] vs ws (record {
        whole = refl;
        first = l1;
        second = l2;
        high = _;
        low1 = addresses_below h (some p1) as1 vs l1;
        low2 = addresses_below h (some p2) as2 ws l2;
        room = omega arith;
        rounds = lt;
        reach = omega arith;
      }) in
    (
      m,
      h',
      ads,
      out,
      done,
      result,
      merged,
      λ q bs xs l. kept q bs xs (addresses_below h q bs xs l) l,
    )
