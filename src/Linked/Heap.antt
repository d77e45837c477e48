-- ===== src/Linked/Heap.antt =====
-- HW2/linkedList.c: `listInsertTail` and `mergeLists` on a heap. A pointer is the number of a node, and
-- `malloc`, which is assumed to succeed, gives the next one. The loops run on fuel.
use operating_systems.Base.{
  ℕ, zero, suc, Option, none, some, List, [], ◌∷◌, ◌++◌, length, get_elem?, modify, leb, Bool, true,
  false, if◌then◌else◌,
}
use operating_systems.Base.Int.{ℤ, pos, negsuc}

-- `struct Node`
pub record Node : Type 0 where
  pub value : ℤ
  pub next : Option ℕ

abbrev pub Heap : Type 0
Heap = List Node

abbrev pub set_next : Option ℕ → Node → Node
set_next p n = record n { next = p }

-- `new->data = data; new->next = NULL;` in the node that `malloc` gives.
abbrev pub new_node : ℤ → Heap → Heap
new_node v h = h ++ (record { value = v; next = none } ∷ [])

-- The loop of `listInsertTail` from `tail` on, and `tail->next = new`. None is a pointer to nothing, or
-- the end of the fuel.
unfoldable pub link_tail : ℕ → ℕ → ℕ → Heap → Option Heap
link_tail zero tail new h = none
link_tail (suc fuel) tail new h = elim (get_elem? h tail) [
  | none ↦ none
  | some n ↦ elim n.next [
    | none ↦ some (modify h tail (set_next (some new)))
    | some t ↦ link_tail fuel t new h
  ]
]

abbrev pub with_head : ℕ → Option Heap → Option (ℕ × Heap)
with_head head none = none
with_head head (some h) = some (head, h)

-- `listInsertTail`, with the head that it returns.
unfoldable pub list_insert_tail : ℕ → Option ℕ → ℤ → Heap → Option (ℕ × Heap)
list_insert_tail fuel none v h = some (length h, new_node v h)
list_insert_tail fuel (some head) v h =
    with_head head (link_tail fuel head (length h) (new_node v h))

-- `l1->data <= l2->data`
abbrev pub le_int : ℤ → ℤ → Bool
le_int (pos a) (pos b) = leb a b
le_int (pos a) (negsuc b) = false
le_int (negsuc a) (pos b) = true
le_int (negsuc a) (negsuc b) = leb b a

-- What a round of the loop of `mergeLists` finds: the value to take with what is left of both lists,
-- the end, or a pointer to nothing.
pub data Round : Type 0 where
  takes : ℤ → Option ℕ → Option ℕ → Round
  ends : Round
  faults : Round

abbrev pub round_both : Option Node → Option Node → Option ℕ → Option ℕ → Round
round_both (some n1) (some n2) l1 l2 =
    if le_int n1.value n2.value then takes n1.value n1.next l2 else takes n2.value l1 n2.next
round_both _ _ l1 l2 = faults

abbrev pub round_first : Option Node → Round
round_first none = faults
round_first (some n1) = takes n1.value n1.next none

abbrev pub round_second : Option Node → Round
round_second none = faults
round_second (some n2) = takes n2.value none n2.next

abbrev pub round_of : Option ℕ → Option ℕ → Heap → Round
round_of (some p1) (some p2) h = round_both (get_elem? h p1) (get_elem? h p2) (some p1) (some p2)
round_of none (some p2) h = round_second (get_elem? h p2)
round_of (some p1) none h = round_first (get_elem? h p1)
round_of none none h = ends

abbrev pub after_insert :
    Option (ℕ × Heap) → (Option ℕ → Heap → Option (Option ℕ × Heap)) → Option (Option ℕ × Heap)
after_insert none loop = none
after_insert (some (merged, h)) loop = loop (some merged) h

-- The loop of `mergeLists`; `steps` is the fuel of each `listInsertTail`.
unfoldable pub merge_loop : ℕ → ℕ → Option ℕ → Option ℕ → Option ℕ → Heap → Option (Option ℕ × Heap)
merge_loop steps zero merged l1 l2 h = none
merge_loop steps (suc fuel) merged l1 l2 h = elim (round_of l1 l2 h) [
  | ends ↦ some (merged, h)
  | faults ↦ none
  | takes v l1' l2' ↦
      after_insert (list_insert_tail steps merged v h) (λ m h'. merge_loop steps fuel m l1' l2' h')
]

-- `mergeLists`: with one list empty the other is returned itself, and otherwise a new list.
unfoldable pub merge_lists : ℕ → Option ℕ → Option ℕ → Heap → Option (Option ℕ × Heap)
merge_lists fuel none l2 h = some (l2, h)
merge_lists fuel (some p1) none h = some (some p1, h)
merge_lists fuel (some p1) (some p2) h = merge_loop fuel fuel none (some p1) (some p2) h
