-- ===== src/Proc/Waiting.antt =====
-- What `wait` and `wait_stat` of HW3/proc.c report, and which child they take.
use mathlib.Core.Option.{some-injective}
use operating_systems.Base.{
  ℕ, zero, suc, ◌+◌, ◌<◌, ◌≡◌, ◌≢◌, ◌⊎◌, inl, inr, refl, sym, ◌∙◌, ap, subst, ◌&&◌, ◌||◌, not, Bool,
  true, false, Option, none, some, List, [], ◌∷◌, get_elem?, arith, Bool-cases,
  get_elem?-modify_self, get_elem?-modify_ne,
}
use operating_systems.Proc.Types.{Proc, Kernel, Services, at_proc, is_zombie, is_unused, points_to}
use operating_systems.Proc.Signal.{go_to_sleep}
use operating_systems.Proc.Finish.{
  scan_children, clear_stat_slot, clear_slot, reap, WaitResult, reaped, no_children, blocked,
  wait_scanned, wait_pass, StatResult, stat_reaped, stat_no_children, stat_blocked,
  wait_stat_scanned, wait_stat_pass,
}

-- A child of the process in slot `cur`.
abbrev pub IsChild : ℕ → Proc → Type 0
IsChild cur p = points_to cur p.parent ≡ true

abbrev pub IsZombie : Proc → Type 0
IsZombie p = is_zombie p.state ≡ true

scan-some :
    (cur : ℕ) (ps : List Proc) (i : ℕ) (hk : Bool) (j : ℕ)
    → (scan_children cur ps i hk).0 ≡ some j
    → (d : ℕ) × (p : Proc) × (j ≡ i + d)
      × (get_elem? ps d ≡ some p)
      × IsChild cur p
      × IsZombie p
      × ((c : ℕ) (q : Proc) → c < d → get_elem? ps c ≡ some q → IsChild cur q → ¬ IsZombie q)
unfolding scan_children
scan-some cur [] i hk j e = absurd (ground arith)
scan-some cur (p ∷ ps) i hk j e = elim (Bool-cases (points_to cur p.parent && is_zombie p.state)) [
  | inl t ↦ (0, p, ground arith, refl, ground arith, ground arith, λ c q lt. absurd (omega arith))
  | inr f ↦
      let (d, q, eq, g, c, z, before) =
        scan-some cur ps (i + 1) (hk || points_to cur p.parent) j (ground arith) in
      (suc d, q, omega arith, g, c, z, none_before f d before)
]
  where
    none_before :
        (points_to cur p.parent && is_zombie p.state) ≡ false
        → (d : ℕ)
        → ((c : ℕ) (q : Proc) → c < d → get_elem? ps c ≡ some q → IsChild cur q → ¬ IsZombie q)
        → (c : ℕ) (q : Proc) → c < suc d
        → get_elem? (p ∷ ps) c ≡ some q
        → IsChild cur q
        → ¬ IsZombie q
    none_before f d before zero q lt g child dead = absurd (ground (arith, some-injective p q g))
    none_before f d before (suc c) q lt g child dead = before c q (omega arith) g child dead

scan-none :
    (cur : ℕ) (ps : List Proc) (i : ℕ) (hk : Bool)
    → (scan_children cur ps i hk).0 ≡ none
    → (d : ℕ) (p : Proc) → get_elem? ps d ≡ some p
    → IsChild cur p
    → ¬ IsZombie p
unfolding scan_children
scan-none cur [] i hk e d p g c z = absurd (ground arith)
scan-none cur (x ∷ ps) i hk e zero p g c z = absurd (ground (arith, some-injective x p g))
scan-none cur (x ∷ ps) i hk e (suc d) p g c z =
    scan-none cur ps (i + 1) (hk || points_to cur x.parent) (ground arith) d p g c z

scan_havekids :
    (cur : ℕ) (ps : List Proc) (i : ℕ) (hk : Bool)
    → (scan_children cur ps i hk).0 ≡ none
    → (scan_children cur ps i hk).1 ≡ true
    → (hk ≡ true) ⊎ ((d : ℕ) × (p : Proc) × (get_elem? ps d ≡ some p) × IsChild cur p)
unfolding scan_children
scan_havekids cur [] i hk e h = inl h
scan_havekids cur (x ∷ ps) i hk e h =
    with_first
      (scan_havekids cur ps (i + 1) (hk || points_to cur x.parent) (ground arith) (ground arith))
  where
    with_first :
        ((hk || points_to cur x.parent) ≡ true)
          ⊎ ((d : ℕ) × (p : Proc) × (get_elem? ps d ≡ some p) × IsChild cur p)
        → (hk ≡ true) ⊎ ((d : ℕ) × (p : Proc) × (get_elem? (x ∷ ps) d ≡ some p) × IsChild cur p)
    with_first (inl t) = elim (Bool-cases hk) [
      | inl old ↦ inl old
      | inr new ↦ inr (0, x, refl, ground arith)
    ]
    with_first (inr (d, p, g, c)) = inr (suc d, p, g, c)

scan_no_kids :
    (cur : ℕ) (ps : List Proc) (i : ℕ) (hk : Bool)
    → (scan_children cur ps i hk).0 ≡ none
    → (scan_children cur ps i hk).1 ≡ false
    → (hk ≡ false) × ((d : ℕ) (p : Proc) → get_elem? ps d ≡ some p → ¬ IsChild cur p)
unfolding scan_children
scan_no_kids cur [] i hk e h = (h, λ d p g c. absurd (ground arith))
scan_no_kids cur (x ∷ ps) i hk e h =
    let (f, later) =
      scan_no_kids cur ps (i + 1) (hk || points_to cur x.parent) (ground arith) (ground arith) in
    (ground arith, with_first f later)
  where
    with_first :
        (hk || points_to cur x.parent) ≡ false
        → ((d : ℕ) (p : Proc) → get_elem? ps d ≡ some p → ¬ IsChild cur p)
        → (d : ℕ) (p : Proc) → get_elem? (x ∷ ps) d ≡ some p
        → ¬ IsChild cur p
    with_first f later zero p g c = ground (arith, some-injective x p g)
    with_first f later (suc d) p g c = later d p g c

module _ {M : Type 0} (cur : ℕ) (k : Kernel M) where
  -- A child of the process, in slot `i`.
  abbrev pub ChildAt : ℕ → Proc → Type 0
  ChildAt i z = (get_elem? k.procs i ≡ some z) × IsChild cur z

  abbrev pub NoZombies : Type 0
  NoZombies = (i : ℕ) (z : Proc) → ChildAt i z → ¬ IsZombie z

  -- No child in a slot below `i` is a zombie.
  abbrev pub NoneBefore : ℕ → Type 0
  NoneBefore i = (j : ℕ) (z : Proc) → j < i → ChildAt j z → ¬ IsZombie z

  -- Slot `i` is free, with no pid and no parent; the others are as they were.
  pub record Freed (i : ℕ) (z : Proc) (k' : Kernel M) : Type 0 where
    pub free : Proc
    pub now : get_elem? k'.procs i ≡ some free
    pub is_free :
        (is_unused free.state ≡ true)
        × (free.pid ≡ 0)
        × (free.parent ≡ none)
        × (free.killed ≡ false)
    pub others : (j : ℕ) → j ≢ i → get_elem? k'.procs j ≡ get_elem? k.procs j

module _ {M : Type 0} (S : Services M) (cur : ℕ) (me : Proc) (k : Kernel M) where
  -- What `wait_stat` owes for each of its results: the first zombie child with its three clocks, its pid stored through
  -- `status` too, and its slot freed; or -1 with nothing changed, if no child is a zombie and there is no
  -- child, or the caller is killed; or asleep on itself, if there are children but none is a zombie.
  abbrev pub StatSpec : StatResult → Kernel M → Type 0
  StatSpec (stat_reaped pid wtime rtime iotime status) k' =
      (i : ℕ) × (z : Proc) × ChildAt cur k i z
      × IsZombie z
      × NoneBefore cur k i
      × (stat_reaped pid wtime rtime iotime status
          ≡ stat_reaped z.pid z.retime z.rutime z.stime z.pid)
      × Freed cur k i z k'
  StatSpec stat_no_children k' =
      NoZombies cur k × (((i : ℕ) (z : Proc) → ¬ ChildAt cur k i z) ⊎ (me.killed ≡ true)) × (k' ≡ k)
  StatSpec stat_blocked k' =
      NoZombies cur k
      × ((i : ℕ) × (z : Proc) × ChildAt cur k i z)
      × (me.killed ≡ false)
      × (k' ≡ go_to_sleep cur (some (at_proc cur)) k)

  abbrev pub WaitSpec : WaitResult → Kernel M → Type 0
  WaitSpec (reaped pid) k' =
      (i : ℕ) × (z : Proc) × ChildAt cur k i z
      × IsZombie z
      × NoneBefore cur k i
      × (pid ≡ z.pid)
      × Freed cur k i z k'
  WaitSpec no_children k' =
      NoZombies cur k × (((i : ℕ) (z : Proc) → ¬ ChildAt cur k i z) ⊎ (me.killed ≡ true)) × (k' ≡ k)
  WaitSpec blocked k' =
      NoZombies cur k
      × ((i : ℕ) × (z : Proc) × ChildAt cur k i z)
      × (me.killed ≡ false)
      × (k' ≡ go_to_sleep cur (some (at_proc cur)) k)

  reap-Freed :
      (clear : Proc → Proc) (i : ℕ) (z : Proc)
      → get_elem? k.procs i ≡ some z
      → ((is_unused (clear z).state ≡ true)
          × ((clear z).pid ≡ 0)
          × ((clear z).parent ≡ none)
          × ((clear z).killed ≡ false))
      → Freed cur k i z (reap S clear i z k)
  unfolding reap
  reap-Freed clear i z g cleared = record {
    free = clear z;
    now = get_elem?-modify_self k.procs i clear ∙ rw g;
    is_free = cleared;
    others = λ j ne. get_elem?-modify_ne k.procs i j clear (λ s. ne (sym s));
  }

  -- What an unsuccessful scan says of the table.
  scanned_zombies : (h : Bool) → scan_children cur k.procs 0 false ≡ (none, h) → NoZombies cur k
  scanned_zombies h e i z (g, c) =
      scan-none cur k.procs 0 false (ap (λ (r : Option ℕ × Bool). r.0) e) i z g c

  scanned_no_kids :
      (h : Bool)
      → scan_children cur k.procs 0 false ≡ (none, h)
      → (not h || me.killed) ≡ true
      → ((i : ℕ) (z : Proc) → ¬ ChildAt cur k i z) ⊎ (me.killed ≡ true)
  scanned_no_kids true e t = inr t
  scanned_no_kids false e t = inl λ i z (g, c).
      (scan_no_kids cur k.procs 0 false (ap (λ (r : Option ℕ × Bool). r.0) e)
          (ap (λ (r : Option ℕ × Bool). r.1) e)).1
        i z g c

  scanned_kids :
      (h : Bool)
      → scan_children cur k.procs 0 false ≡ (none, h)
      → (not h || me.killed) ≡ false
      → (i : ℕ) × (z : Proc) × ChildAt cur k i z
  scanned_kids false e f = absurd (ground arith)
  scanned_kids true e f = from (
      scan_havekids cur k.procs 0 false (ap (λ (r : Option ℕ × Bool). r.0) e)
        (ap (λ (r : Option ℕ × Bool). r.1) e))
    where
      from :
          (false ≡ true) ⊎ ((d : ℕ) × (p : Proc) × (get_elem? k.procs d ≡ some p) × IsChild cur p)
          → (i : ℕ) × (z : Proc) × ChildAt cur k i z
      from (inl t) = absurd (ground arith)
      from (inr (d, p, g, c)) = (d, p, (g, c))

  scanned-IsZombie :
      (j : ℕ) (h : Bool)
      → scan_children cur k.procs 0 false ≡ (some j, h)
      → (z : Proc) × ChildAt cur k j z × IsZombie z × NoneBefore cur k j
  scanned-IsZombie j h e =
      let (d, z, eq, g, c, dead, before) =
        scan-some cur k.procs 0 false j (ap (λ (r : Option ℕ × Bool). r.0) e) in
      (
        z,
        (subst (λ x. get_elem? k.procs x ≡ some z) (omega arith) g, c),
        dead,
        λ i y lt (at, child). before i y (omega arith) at child,
      )

  stat_scanned :
      (r : Option ℕ × Bool)
      → scan_children cur k.procs 0 false ≡ r
      → StatSpec (wait_stat_scanned S cur me r k).0 (wait_stat_scanned S cur me r k).1
  unfolding wait_stat_scanned
  stat_scanned (some j, h) e =
      let (z, (g, c), dead, before) = scanned-IsZombie j h e in
      rw (g, wait_stat_scanned)
        (
          j,
          z,
          (g, c),
          dead,
          before,
          refl,
          reap-Freed clear_stat_slot j z g (refl, refl, refl, refl),
        )
  stat_scanned (none, h) e = elim (Bool-cases (not h || me.killed)) [
    | inl t ↦ rw t (scanned_zombies h e, scanned_no_kids h e t, refl)
    | inr f ↦ rw f (scanned_zombies h e, scanned_kids h e f, ground arith, refl)
  ]

  -- A pass of `wait_stat` reports of the first zombie child its three clocks and its pid, which goes to
  -- `status` too, and frees its slot; or it answers -1 and changes nothing, if no child is a zombie and
  -- there is no child, or the caller is killed; or it sleeps on the caller, if there are children but
  -- none is a zombie.
  pub wait_stat_pass_lem : StatSpec (wait_stat_pass S cur me k).0 (wait_stat_pass S cur me k).1
  unfolding wait_stat_pass
  wait_stat_pass_lem = stat_scanned (scan_children cur k.procs 0 false) refl

  wait_scanned_lem :
      (r : Option ℕ × Bool)
      → scan_children cur k.procs 0 false ≡ r
      → WaitSpec (wait_scanned S cur me r k).0 (wait_scanned S cur me r k).1
  unfolding wait_scanned
  wait_scanned_lem (some j, h) e =
      let (z, (g, c), dead, before) = scanned-IsZombie j h e in
      rw (g, wait_scanned)
        (j, z, (g, c), dead, before, refl, reap-Freed clear_slot j z g (refl, refl, refl, refl))
  wait_scanned_lem (none, h) e = elim (Bool-cases (not h || me.killed)) [
    | inl t ↦ rw t (scanned_zombies h e, scanned_no_kids h e t, refl)
    | inr f ↦ rw f (scanned_zombies h e, scanned_kids h e f, ground arith, refl)
  ]

  -- A pass of `wait` does what it owes for each of its results.
  pub wait_pass_lem : WaitSpec (wait_pass S cur me k).0 (wait_pass S cur me k).1
  unfolding wait_pass
  wait_pass_lem = wait_scanned_lem (scan_children cur k.procs 0 false) refl
