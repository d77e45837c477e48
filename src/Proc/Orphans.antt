-- ===== src/Proc/Orphans.antt =====
-- What the loop of `exit` of HW3/proc.c that passes children to init leaves in the table.
use mathlib.Core.Option.{some-injective}
use native.Mathlib.Decide.{ℕ_discrete}
use operating_systems.Base.{
  ℕ, ◌+◌, ◌≡◌, ◌≢◌, ◌&&◌, ◌⊎◌, inl, inr, refl, sym, ◌∙◌, ap, Bool, true, false, Option, some, List,
  get_elem?, arith, Option-cases, Bool-cases, for_range_inv, length, modify, ltb, if◌then◌else◌,
  subst, get_elem?-map, get_elem?-modify_self, get_elem?-modify_ne, get_elem?-some_lt, lt→ltb,
}
use operating_systems.Proc.Types.{
  Proc, sleeping, runnable, is_zombie, is_sleeping, points_to, same_chan,
}
use operating_systems.Proc.Signal.{proc_chan, wakeup1, wake_one}
use operating_systems.Proc.Finish.{abandon, reparent}

module _ (cur : ℕ) (init : Option ℕ) where
  -- What `p` has become: if it is done and a child of `cur`, its parent is init; it may have been
  -- woken from a sleep on init; nothing else has changed.
  pub record Adopted (done : Bool) (p q : Proc) : Type 0 where
    pub parent : q.parent ≡ (if done && points_to cur p.parent then init else p.parent)
    pub state :
        (q.state ≡ p.state)
        ⊎ ((p.state ≡ sleeping) × (q.state ≡ runnable) × (same_chan p.chan (proc_chan init) ≡ true))
    pub rest : q ≡ record p { parent = q.parent; state = q.state }

  Adopted-refl : (p : Proc) → Adopted false p p
  Adopted-refl p = record { parent = refl; state = inl refl; rest = refl }

  Adopted-wake :
      (done : Bool) (p q : Proc) → Adopted done p q → Adopted done p (wake_one (proc_chan init) q)
  Adopted-wake done p q a =
      elim (Bool-cases (is_sleeping q.state && same_chan q.chan (proc_chan init))) [
        | inl t ↦ rw t (record {
          parent = a.parent;
          state = ground (arith, a.state);
          rest = ap (λ (r : Proc). record r { state = runnable }) a.rest;
        })
        | inr f ↦ rw f a
      ]

  Adopted-adopt :
      (p q : Proc)
      → points_to cur q.parent ≡ true
      → Adopted false p q
      → Adopted true p (record q { parent = init })
  Adopted-adopt p q child a = record {
    parent = ground (arith, a.parent);
    state = a.state;
    rest = ap (λ (r : Proc). record r { parent = init }) a.rest;
  }

  Adopted-skip :
      (p q : Proc) → points_to cur q.parent ≡ false → Adopted false p q → Adopted true p q
  Adopted-skip p q other a = record {
    parent = ground (arith, a.parent);
    state = a.state;
    rest = a.rest;
  }

module _ (cur : ℕ) (init : Option ℕ) (procs : List Proc) where
  -- After the first `i` rounds.
  Progress : ℕ → List Proc → Type 0
  Progress i s =
      (j : ℕ) (p : Proc)
      → get_elem? procs j ≡ some p
      → (q : Proc) × (get_elem? s j ≡ some q) × Adopted cur init (ltb j i) p q

  -- Slot `j` is done after round `i` if it was before, or is slot `i`.
  done_next : (i j : ℕ) → i ≢ j → ltb j (i + 1) ≡ ltb j i
  done_next i j ne = ground arith

  Progress-wake : (i : ℕ) (s : List Proc) → Progress i s → Progress i (wakeup1 (proc_chan init) s)
  unfolding Progress wakeup1
  Progress-wake i s h j p e =
      let (q, g, a) = h j p e in
      (
        wake_one (proc_chan init) q,
        get_elem?-map (wake_one (proc_chan init)) s j ∙ rw g,
        Adopted-wake cur init (ltb j i) p q a,
      )

  Progress-adopt :
      (i : ℕ) (s : List Proc) (r : Proc)
      → get_elem? s i ≡ some r
      → points_to cur r.parent ≡ true
      → Progress i s
      → Progress (i + 1) (modify s i (λ q. record q { parent = init }))
  unfolding Progress
  Progress-adopt i s r here child h j p e = elim (ℕ_discrete i j) [
    | yes same ↦
        let (q, g, a) = h j p e in
        let g' : get_elem? s i ≡ some q = subst (λ x. get_elem? s x ≡ some q) (sym same) g in
        let e' : r ≡ q = some-injective r q (sym here ∙ g') in
        (
          record q { parent = init },
          subst
              (λ x.
                get_elem? (modify s i (λ q. record q { parent = init })) x
                ≡ some (record q { parent = init }))
              same (get_elem?-modify_self s i _ ∙ rw g'),
          subst (λ d. Adopted cur init d p (record q { parent = init })) (ground arith)
              (Adopted-adopt cur init p q (rw (← e') child)
                (subst (λ d. Adopted cur init d p q) (ground arith) a)),
        )
    | no other ↦
        let (q, g, a) = h j p e in
        (
          q,
          get_elem?-modify_ne s i j _ other ∙ g,
          subst (λ d. Adopted cur init d p q) (sym (done_next i j other)) a,
        )
  ]

  Progress-skip :
      (i : ℕ) (s : List Proc)
      → ((r : Proc) → get_elem? s i ≡ some r → points_to cur r.parent ≡ false)
      → Progress i s
      → Progress (i + 1) s
  unfolding Progress
  Progress-skip i s none_here h j p e = elim (ℕ_discrete i j) [
    | yes same ↦
        let (q, g, a) = h j p e in
        (
          q,
          g,
          subst (λ d. Adopted cur init d p q) (ground arith)
              (Adopted-skip cur init p q
                (none_here q (subst (λ x. get_elem? s x ≡ some q) (sym same) g))
                (subst (λ d. Adopted cur init d p q) (ground arith) a)),
        )
    | no other ↦
        let (q, g, a) = h j p e in
        (q, g, subst (λ d. Adopted cur init d p q) (sym (done_next i j other)) a)
  ]

  Progress-abandon :
      (i : ℕ) (s : List Proc) → Progress i s → Progress (i + 1) (abandon cur init i s)
  unfolding abandon
  Progress-abandon i s h = elim (Option-cases (get_elem? s i)) [
    | inl e ↦ rw (e, abandon) (Progress-skip i s (λ r g. absurd (ground arith)) h)
    | inr (r, e) ↦ elim (Bool-cases (points_to cur r.parent)) [
      | inl child ↦ elim (Bool-cases (is_zombie r.state)) [
        | inl z ↦
            rw (e, child, z, abandon) (Progress-wake (i + 1) _ (Progress-adopt i s r e child h))
        | inr z ↦ rw (e, child, z, abandon) (Progress-adopt i s r e child h)
      ]
      | inr other ↦
          rw (e, other, abandon)
            (Progress-skip i s (λ q g. rw (some-injective q r (sym g ∙ e)) other) h)
    ]
  ]

  Progress-reparent : Progress (length procs) (reparent cur init procs)
  unfolding reparent Progress
  Progress-reparent =
      for_range_inv Progress (abandon cur init) (length procs) (λ i s lt. Progress-abandon i s)
        (length procs) 0 procs (omega arith) start
    where
      start : Progress 0 procs
      start = λ j p e.
          (p, e, subst (λ d. Adopted cur init d p p) (ground arith) (Adopted-refl cur init p))

  -- The loop visits every slot.
  pub reparent_exact :
      (j : ℕ) (p : Proc)
      → get_elem? procs j ≡ some p
      → (q : Proc) × (get_elem? (reparent cur init procs) j ≡ some q) × Adopted cur init true p q
  unfolding Progress
  reparent_exact j p e =
      let (q, g, a) = Progress-reparent j p e in
      (
        q,
        g,
        subst (λ d. Adopted cur init d p q)
            (lt→ltb j (length procs) (get_elem?-some_lt procs j p e)) a,
      )
