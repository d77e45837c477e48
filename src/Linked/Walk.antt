-- ===== src/Linked/Walk.antt =====
-- What a pointer of HW2/linkedList.c leads to, and that `listInsertTail` appends.
use operating_systems.Base.{
  ℕ, zero, suc, ◌+◌, ◌<◌, ◌≡◌, ◌≢◌, refl, Option, none, some, List, [], ◌∷◌, ◌++◌, length,
  get_elem?, modify, All, arith, ◌∙◌, ap, sym, subst, All-imp, length-append, length-modify,
  get_elem?-modify_self, get_elem?-modify_ne, get_elem?-some_lt,
}
use mathlib.Core.Option
use operating_systems.Base.Int.{ℤ}
use operating_systems.Linked.Heap.{
  Node, Heap, set_next, new_node, link_tail, with_head, list_insert_tail,
}

-- From `p` on the heap links the nodes at these addresses, with these values.
abbrev pub Leads : Heap → Option ℕ → List ℕ → List ℤ → Type 0
Leads h p [] [] = p ≡ none
Leads h p [] (v ∷ vs) = ⊥
Leads h p (a ∷ ads) [] = ⊥
Leads h p (a ∷ ads) (v ∷ vs) =
    (p ≡ some a) × (n : Node) × (get_elem? h a ≡ some n) × (n.value ≡ v) × Leads h n.next ads vs

get_elem?-append {ℓ} :
    {A : Type ℓ}
    → (xs ys : List A) (i : ℕ) (x : A) → get_elem? xs i ≡ some x
    → get_elem? (xs ++ ys) i ≡ some x
get_elem?-append [] ys i x e = absurd (ground (arith, e))
get_elem?-append (y ∷ xs) ys zero x e = e
get_elem?-append (y ∷ xs) ys (suc i) x e = get_elem?-append xs ys i x e

get_elem?-append_length {ℓ} :
    {A : Type ℓ} → (xs : List A) (y : A) → get_elem? (xs ++ (y ∷ [])) (length xs) ≡ some y
get_elem?-append_length [] y = refl
get_elem?-append_length (x ∷ xs) y = get_elem?-append_length xs y

-- More nodes do not matter to a list.
pub Leads-append :
    (h h' : Heap) (p : Option ℕ) (ads : List ℕ) (vs : List ℤ)
    → Leads h p ads vs
    → Leads (h ++ h') p ads vs
Leads-append h h' p [] [] l = l
Leads-append h h' p [] (v ∷ vs) l = l
Leads-append h h' p (a ∷ ads) [] l = l
Leads-append h h' p (a ∷ ads) (v ∷ vs) (e, n, g, w, l) =
    (e, n, get_elem?-append h h' a n g, w, Leads-append h h' n.next ads vs l)

-- Neither does a node that is not in it.
pub Leads-modify :
    (h : Heap) (t : ℕ) (f : Node → Node) (p : Option ℕ) (ads : List ℕ) (vs : List ℤ)
    → All (λ a. a ≢ t) ads
    → Leads h p ads vs
    → Leads (modify h t f) p ads vs
Leads-modify h t f p [] [] out l = l
Leads-modify h t f p [] (v ∷ vs) out l = l
Leads-modify h t f p (a ∷ ads) [] out l = l
Leads-modify h t f p (a ∷ ads) (v ∷ vs) (ne, out) (e, n, g, w, l) = (
  e,
  n,
  get_elem?-modify_ne h t a f (λ s. ne (sym s)) ∙ g,
  w,
  Leads-modify h t f n.next ads vs out l,
)

-- Linking the new node `new` behind a list that does not hold it: the tail `t` is found, and the list
-- is longer by the new node.
pub link_tail_lem :
    (fuel a new : ℕ) (y : ℤ) (h : Heap) (ads : List ℕ) (v : ℤ) (vs : List ℤ)
    → get_elem? h new ≡ some (record { value = y; next = none })
    → All (λ b. b ≢ new) (a ∷ ads)
    → Leads h (some a) (a ∷ ads) (v ∷ vs)
    → length ads < fuel
    → (t : ℕ) × (tail : Node) × (get_elem? h t ≡ some tail)
      × (tail.next ≡ none)
      × ((P : ℕ → Type 0) → All P (a ∷ ads) → P t)
      × (link_tail fuel a new h ≡ some (modify h t (set_next (some new))))
      × Leads
          (modify h t (set_next (some new)))
          (some a)
          ((a ∷ ads) ++ (new ∷ []))
          ((v ∷ vs) ++ (y ∷ []))
unfolding link_tail
link_tail_lem zero a new y h ads v vs fresh out l lt = absurd (omega arith)
link_tail_lem (suc fuel) a new y h [] v [] fresh (ne, _) (e, n, g, w, stop) lt = (
  a,
  n,
  g,
  stop,
  λ P q. q.0,
  rw (g, stop, link_tail) refl,
  (
    refl,
    set_next (some new) n,
    get_elem?-modify_self h a (set_next (some new)) ∙ ap (Option.map (set_next (some new))) g,
    w,
    (
      refl,
      record { value = y; next = none },
      get_elem?-modify_ne h a new (set_next (some new)) ne ∙ fresh,
      refl,
      refl,
    ),
  ),
)
link_tail_lem (suc fuel) a new y h [] v (w ∷ vs) fresh out (e, n, g, q, l) lt = absurd l
link_tail_lem (suc fuel) a new y h (b ∷ ads) v [] fresh out (e, n, g, q, l) lt = absurd l
link_tail_lem (suc fuel) a new y h (b ∷ ads) v (w ∷ vs) fresh (ne, out) (e, n, g, q, l) lt =
    let to_b = l.0 in
    let (t, tail, at_t, stop, among, done, leads) =
      link_tail_lem fuel b new y h ads w vs fresh out
        (subst (λ p. Leads h p (b ∷ ads) (w ∷ vs)) to_b l) (omega arith) in
    let apart : a ≢ t = λ s. absurd (ground (arith, g, at_t, s, to_b, stop)) in
    (
      t,
      tail,
      at_t,
      stop,
      λ P q. among P q.1,
      rw (g, to_b, link_tail) done,
      (
        refl,
        n,
        get_elem?-modify_ne h t a (set_next (some new)) (λ s. apart (sym s)) ∙ g,
        q,
        subst
            (λ p.
              Leads (modify h t (set_next (some new))) p (b ∷ ads ++ (new ∷ []))
                (w ∷ vs ++ (y ∷ [])))
            (sym to_b) leads,
      ),
    )

pub addresses_below :
    (h : Heap) (p : Option ℕ) (ads : List ℕ) (vs : List ℤ)
    → Leads h p ads vs
    → All (λ a. a < length h) ads
addresses_below h p [] [] l = _
addresses_below h p [] (v ∷ vs) l = _
addresses_below h p (a ∷ ads) [] l = absurd l
addresses_below h p (a ∷ ads) (v ∷ vs) (e, n, g, w, l) =
    (get_elem?-some_lt h a n g, addresses_below h n.next ads vs l)

-- `listInsertTail` with fuel for the length of the list ends, and the pointer that it returns leads
-- to the list with the value behind it; only the last node of the list is changed, so any list apart
-- from it stays.
pub list_insert_tail_lem :
    (fuel : ℕ) (p : Option ℕ) (y : ℤ) (h : Heap) (ads : List ℕ) (vs : List ℤ)
    → Leads h p ads vs
    → length ads < fuel
    → (head : ℕ) × (h' : Heap) × (list_insert_tail fuel p y h ≡ some (head, h'))
      × Leads h' (some head) (ads ++ (length h ∷ [])) (vs ++ (y ∷ []))
      × (length h' ≡ length h + 1)
      × ((q : Option ℕ) (bs : List ℕ) (ws : List ℤ)
          → All (λ b. All (λ a. b ≢ a) ads) bs
          → Leads h q bs ws
          → Leads h' q bs ws)
unfolding list_insert_tail
list_insert_tail_lem fuel p y h [] (v ∷ vs) l lt = absurd l
list_insert_tail_lem fuel p y h (a ∷ ads) [] l lt = absurd l
list_insert_tail_lem fuel p y h [] [] l lt = (
  length h,
  new_node y h,
  rw (l, list_insert_tail) refl,
  (refl, record { value = y; next = none }, get_elem?-append_length h _, refl, refl),
  length-append h _,
  λ q bs ws out k. Leads-append h _ q bs ws k,
)
list_insert_tail_lem fuel p y h (a ∷ ads) (v ∷ vs) l lt =
    let e = l.0 in
    let k0 = subst (λ p. Leads h p (a ∷ ads) (v ∷ vs)) e l in
    let below = addresses_below h (some a) (a ∷ ads) (v ∷ vs) k0 in
    let (t, tail, at_t, stop, among, done, leads) =
      link_tail_lem fuel a (length h) y (new_node y h) ads v vs (get_elem?-append_length h _)
        (All-imp (λ b. b < length h) (λ b. b ≢ length h) (λ b lt s. absurd (omega arith)) (a ∷ ads)
          below)
        (Leads-append h _ (some a) (a ∷ ads) (v ∷ vs) k0) (omega arith) in
    (
      a,
      modify (new_node y h) t (set_next (some (length h))),
      rw (e, list_insert_tail) (ap (with_head a) done),
      leads,
      length-modify (new_node y h) t _ ∙ length-append h _,
      λ q bs ws out k.
          Leads-modify (new_node y h) t _ q bs ws
            (All-imp (λ b. All (λ x. b ≢ x) (a ∷ ads)) (λ b. b ≢ t)
              (λ b apart. among (λ x. b ≢ x) apart) bs out)
            (Leads-append h _ q bs ws k),
    )
