-- ===== src/Proc/Alloc.antt =====
-- What `allocproc` of HW3/proc.c returns.
use operating_systems.Base.{
  ℕ, ◌≡◌, ◌≢◌, inl, inr, refl, ap, ◌∙◌, sym, true, Option, none, some, add32, ◌+◌, get_elem?, arith,
  Option-cases, find_index, find_index-some, get_elem?-modify_self, get_elem?-modify_ne, modify,
  subst,
}
use mathlib.Core.Option.{some-injective}
use operating_systems.Proc.Types.{
  unused, embryo, Proc, Kernel, Services, is_unused, with_proc, with_rest,
}
use operating_systems.Proc.Create.{
  claim, set_stack, build_stack, alloc_with, alloc_found, allocproc, tf_size, context_size,
  kstack_size,
}

module _ {M : Type 0} (S : Services M) (forkret trapret : ℕ) where
  pub allocproc-found :
      (k : Kernel M) (i page : ℕ) (m : M)
      → find_index (λ p. is_unused p.state) k.procs ≡ some i
      → S.kalloc k.rest ≡ (some page, m)
      → allocproc S forkret trapret k ≡ (
        some i,
        with_rest
            (with_proc
              (with_proc (record k { next_pid = add32 k.next_pid 1 }) i (claim k.next_pid))
              i
              (set_stack page k.ticks))
            (build_stack S forkret trapret page m),
      )
  unfolding allocproc alloc_found alloc_with
  allocproc-found k i page m e mem = rw (e, allocproc) (rw mem)

  pub allocproc-no_memory :
      (k : Kernel M) (i : ℕ) (m : M)
      → find_index (λ p. is_unused p.state) k.procs ≡ some i
      → S.kalloc k.rest ≡ (none, m)
      → allocproc S forkret trapret k ≡ (
        none,
        with_rest
            (with_proc
              (with_proc (record k { next_pid = add32 k.next_pid 1 }) i (claim k.next_pid))
              i
              (λ p. record p { kstack = 0; state = unused }))
            m,
      )
  unfolding allocproc alloc_found alloc_with
  allocproc-no_memory k i m e mem = rw (e, allocproc) (rw mem)

  pub allocproc-no_slot :
      (k : Kernel M)
      → find_index (λ p. is_unused p.state) k.procs ≡ none
      → allocproc S forkret trapret k ≡ (none, k)
  unfolding allocproc
  allocproc-no_slot k e = rw (e, allocproc)

-- A new process in slot `i`: the slot was free; the process is EMBRYO with the next pid, its clocks
-- are zero and started now, and on its stack stand, from the top, the trap frame, a return
-- address and the context; no other slot has changed.
pub record Fresh {M : Type 0} (k : Kernel M) (i : ℕ) (old new : Proc) (k' : Kernel M) : Type 0 where
  pub was : get_elem? k.procs i ≡ some old
  pub was_free : is_unused old.state ≡ true
  pub now : get_elem? k'.procs i ≡ some new
  pub state : new.state ≡ embryo
  pub pid : new.pid ≡ k.next_pid
  pub clocks : (new.ctime ≡ k.ticks) × (new.stime + new.retime + new.rutime + new.ttime ≡ 0)
  pub stack :
      (new.tf + tf_size ≡ new.kstack + kstack_size) × (new.context + context_size + 4 ≡ new.tf)
  pub others : (j : ℕ) → j ≢ i → get_elem? k'.procs j ≡ get_elem? k.procs j

module _ {M : Type 0} (S : Services M) (forkret trapret : ℕ) (k : Kernel M) where
  -- A slot with a new process.
  abbrev pub NewProc : ℕ → Kernel M → Type 0
  NewProc i k' =
      (old : Proc) × (new : Proc) × Fresh k i old new k' × (k'.next_pid ≡ add32 k.next_pid 1)

  NewProc-found :
      (i page : ℕ) (m : M)
      → find_index (λ p. is_unused p.state) k.procs ≡ some i
      → S.kalloc k.rest ≡ (some page, m)
      → NewProc i (allocproc S forkret trapret k).1
  NewProc-found i page m f mem =
      let (old, g, free) = find_index-some (λ p. is_unused p.state) k.procs i f in
      rw (allocproc-found S forkret trapret k i page m f mem) (
        old,
        set_stack page k.ticks (claim k.next_pid old),
        record {
          was = g;
          was_free = free;
          now = simp (get_elem?-modify_self, g);
          state = refl;
          pid = refl;
          clocks = (refl, refl);
          stack = (omega arith, omega arith);
          others = λ j ne.
              get_elem?-modify_ne (modify k.procs i (claim k.next_pid)) i j (set_stack page k.ticks)
                (λ s. ne (sym s))
              ∙ get_elem?-modify_ne k.procs i j (claim k.next_pid) (λ s. ne (sym s));
        },
        refl,
      )

  -- What `allocproc` returns is a new process, and its pid is used up.
  pub allocproc-Fresh :
      (i : ℕ)
      → (allocproc S forkret trapret k).0 ≡ some i
      → NewProc i (allocproc S forkret trapret k).1
  allocproc-Fresh i e = elim (Option-cases (find_index (λ p. is_unused p.state) k.procs)) [
    | inl f ↦ absurd (
        ground
          (arith, ap (λ (r : Option ℕ × Kernel M). r.0) (allocproc-no_slot S forkret trapret k f)))
    | inr (j, f) ↦ found j f (S.kalloc k.rest) refl
  ]
    where
      found :
          (j : ℕ)
          → find_index (λ p. is_unused p.state) k.procs ≡ some j
          → (r : Option ℕ × M) → S.kalloc k.rest ≡ r
          → NewProc i (allocproc S forkret trapret k).1
      found j f (none, m) mem = absurd (
          ground (
            arith,
            ap (λ (r : Option ℕ × Kernel M). r.0)
                (allocproc-no_memory S forkret trapret k j m f mem),
          ))
      found j f (some page, m) mem =
          subst (λ x. NewProc x (allocproc S forkret trapret k).1)
            (some-injective j i (
              sym (
                ap (λ (r : Option ℕ × Kernel M). r.0)
                  (allocproc-found S forkret trapret k j page m f mem))
              ∙ e))
            (NewProc-found j page m f mem)
