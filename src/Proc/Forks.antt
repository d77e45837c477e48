-- ===== src/Proc/Forks.antt =====
-- What `fork` of HW3/proc.c makes, and what it leaves behind where it fails.
use mathlib.Core.Option
use mathlib.Core.Option.{some-injective}
use operating_systems.Base.{
  ℕ, ◌+◌, ◌≡◌, ◌≢◌, inl, inr, refl, sym, ◌∙◌, ap, subst, true, Option, none, some, get_elem?,
  get_elem?-modify_self, get_elem?-modify_ne, arith, Option-cases, find_index, find_index-some,
  modify-modify,
}
use operating_systems.Proc.Types.{Proc, Kernel, Services, runnable, is_unused}
use operating_systems.Proc.Create.{fork_copy, fork_with, fork_alloced, fork, allocproc}
use operating_systems.Proc.Alloc.{
  Fresh, allocproc-Fresh, allocproc-no_slot, allocproc-no_memory, allocproc-found,
}
use operating_systems.Proc.Invariant.{Used}
use operating_systems.Proc.Preserve.{Current}

-- The child `c` of the process `p` in slot `cur`: a copy that can run, with the pid that was next, and
-- clocks that start now.
pub record IsChildOf (cur : ℕ) (p : Proc) (next ticks : ℕ) (c : Proc) : Type 0 where
  pub state : c.state ≡ runnable
  pub pid : c.pid ≡ next
  pub parent : c.parent ≡ some cur
  pub size : c.sz ≡ p.sz
  pub clocks : (c.ctime ≡ ticks) × (c.stime + c.retime + c.rutime ≡ 0)

module _ {M : Type 0} (S : Services M) (forkret trapret cur : ℕ) (p : Proc) (k : Kernel M) where
  -- What `fork` owes: with a pid, a child in a slot that was free, and every other slot as it was; with -1,
  -- every process as it was.
  abbrev pub ForkSpec : Option ℕ × Kernel M → Type 0
  ForkSpec (some pid, k') =
      (i : ℕ) × (old : Proc) × (c : Proc) × (get_elem? k.procs i ≡ some old)
      × (is_unused old.state ≡ true)
      × (get_elem? k'.procs i ≡ some c)
      × (pid ≡ k.next_pid)
      × IsChildOf cur p pid k.ticks c
      × ((j : ℕ) → j ≢ i → get_elem? k'.procs j ≡ get_elem? k.procs j)
  ForkSpec (none, k') =
      (j : ℕ) (q : Proc) → get_elem? k.procs j ≡ some q → Used q → get_elem? k'.procs j ≡ some q

  -- A slot that was free and has changed holds no process of before.
  free_apart :
      (i j : ℕ) (old q : Proc)
      → get_elem? k.procs i ≡ some old
      → is_unused old.state ≡ true
      → get_elem? k.procs j ≡ some q
      → Used q
      → j ≢ i
  free_apart i j old q g free e u same =
      ground
        (arith, some-injective old q (sym g ∙ subst (λ x. get_elem? k.procs x ≡ some q) same e))

  fork_with_lem :
      (r : Option ℕ × M) (i : ℕ) (old new : Proc) (k1 : Kernel M)
      → Fresh k i old new k1
      → ForkSpec (fork_with S forkret trapret cur p r i new k1)
  unfolding fork_with fork_copy
  fork_with_lem (none, m) i old new k1 f = λ j q e u.
      let ne : j ≢ i = free_apart i j old q f.was f.was_free e u in
      get_elem?-modify_ne k1.procs i j _ (λ s. ne (sym s)) ∙ f.others j ne ∙ e
  fork_with_lem (some d, m) i old new k1 f = (
    i,
    old,
    _,
    f.was,
    f.was_free,
    get_elem?-modify_self k1.procs i _ ∙ ap (Option.map _) f.now,
    f.pid,
    record {
      state = refl;
      pid = refl;
      parent = refl;
      size = refl;
      clocks = ground (arith, f.clocks);
    },
    λ j ne. get_elem?-modify_ne k1.procs i j _ (λ s. ne (sym s)) ∙ f.others j ne,
  )

  fork_alloced_lem :
      (r : Option ℕ × Kernel M)
      → Current k cur p
      → ((i : ℕ) → r.0 ≡ some i → (old : Proc) × (new : Proc) × Fresh k i old new r.1)
      → (r.0 ≡ none → ForkSpec (none, r.1))
      → ForkSpec (fork_alloced S forkret trapret cur r)
  unfolding fork_alloced
  fork_alloced_lem (none, k1) here made kept = kept refl
  fork_alloced_lem (some i, k1) here made kept =
      let (old, new, f) = made i refl in
      let ne : cur ≢ i =
        free_apart i cur old p f.was f.was_free here.here (ground (arith, here.runs)) in
      rw (f.others cur ne ∙ here.here, f.now, fork_alloced)
        (fork_with_lem (S.copyuvm p.pgdir p.sz k1.rest) i old new k1 f)

  -- Without memory for a stack `allocproc` gives the slot back.
  alloc_failed :
      (allocproc S forkret trapret k).0 ≡ none → ForkSpec (none, (allocproc S forkret trapret k).1)
  alloc_failed e = elim (Option-cases (find_index (λ p. is_unused p.state) k.procs)) [
    | inl f ↦ rw (allocproc-no_slot S forkret trapret k f) (λ j q g u. g)
    | inr (i, f) ↦ by_memory i f (S.kalloc k.rest) refl
  ]
    where
      by_memory :
          (i : ℕ)
          → find_index (λ p. is_unused p.state) k.procs ≡ some i
          → (r : Option ℕ × M) → S.kalloc k.rest ≡ r
          → ForkSpec (none, (allocproc S forkret trapret k).1)
      by_memory i f (some page, m) mem = absurd (
          ground (
            arith,
            ap (λ (r : Option ℕ × Kernel M). r.0)
                (allocproc-found S forkret trapret k i page m f mem),
          ))
      by_memory i f (none, m) mem =
          let (old, g, free) = find_index-some (λ p. is_unused p.state) k.procs i f in
          rw (allocproc-no_memory S forkret trapret k i m f mem, modify-modify)
            λ j q e u.
              let ne : j ≢ i = free_apart i j old q g free e u in
              get_elem?-modify_ne k.procs i j _ (λ s. ne (sym s)) ∙ e

  -- `fork` by the running process does what it owes.
  pub fork_lem : Current k cur p → ForkSpec (fork S forkret trapret cur k)
  unfolding fork
  fork_lem here =
      fork_alloced_lem (allocproc S forkret trapret k) here
        (λ i e. let (old, new, f, _) = allocproc-Fresh S forkret trapret k i e in (old, new, f))
        alloc_failed
