-- ===== src/Proc/Kills.antt =====
-- What `kill` of HW3/proc.c answers, and what it leaves in a free slot.
use operating_systems.Base.{
  ℕ, ◌≡◌, ◌≢◌, ◌↔◌, inl, inr, refl, ap, ◌∙◌, sym, true, false, Option, none, some, ◌==◌, get_elem?,
  arith, Option-cases, find_index, find_index-none, find_index-some, find_index-modify, add32,
  get_elem?-modify_self, get_elem?-modify_ne, modify,
}
use operating_systems.Proc.Types.{
  Proc, Kernel, Services, is_unused, is_sleeping, with_proc, with_rest,
}
use operating_systems.Proc.Signal.{mark_killed, kill}
use operating_systems.Proc.Create.{claim, set_stack, build_stack, allocproc}
use operating_systems.Proc.Alloc.{allocproc-found}

-- Some slot of the table has the pid.
abbrev pub HasPid : {M : Type 0} → ℕ → Kernel M → Type 0
HasPid pid k = (i : ℕ) × (p : Proc) × (get_elem? k.procs i ≡ some p) × (p.pid ≡ pid)

module _ {M : Type 0} (pid : ℕ) (k : Kernel M) where
  pub kill-found :
      (i : ℕ)
      → find_index (λ p. p.pid == pid) k.procs ≡ some i
      → kill pid k ≡ (true, with_proc k i (mark_killed k.ticks))
  unfolding kill
  kill-found i e = rw (e, kill)

  pub kill-missing : find_index (λ p. p.pid == pid) k.procs ≡ none → kill pid k ≡ (false, k)
  unfolding kill
  kill-missing e = rw (e, kill)

  -- `kill` answers 0 exactly when some slot of the table has the pid, a free slot included; otherwise
  -- it answers -1 and changes nothing.
  pub kill_answers :
      (((kill pid k).0 ≡ true) ↔ HasPid pid k) × ((kill pid k).0 ≡ false → (kill pid k).1 ≡ k)
  kill_answers = elim (Option-cases (find_index (λ p. p.pid == pid) k.procs)) [
    | inl e ↦ rw (kill-missing e) (
      (
        λ h. absurd (ground arith),
        λ (i, p, g, s).
            absurd (ground (arith, find_index-none (λ p. p.pid == pid) k.procs i p e g)),
      ),
      λ _. refl,
    )
    | inr (i, e) ↦
        let (p, g, t) = find_index-some (λ p. p.pid == pid) k.procs i e in
        rw (kill-found i e) ((λ _. (i, p, g, ground arith), λ _. refl), λ h. absurd (ground arith))
  ]

  -- What has become of the table: the process in slot `i` is marked, has its end time and no
  -- longer sleeps; every other slot is as it was.
  pub record Killed (i : ℕ) (p : Proc) (k' : Kernel M) : Type 0 where
    pub here : get_elem? k.procs i ≡ some p
    pub has_pid : p.pid ≡ pid
    pub marked : get_elem? k'.procs i ≡ some (mark_killed k.ticks p)
    pub is_awake : is_sleeping (mark_killed k.ticks p).state ≡ false
    pub others : (j : ℕ) → j ≢ i → get_elem? k'.procs j ≡ get_elem? k.procs j

  -- Where `kill` answers 0, it has marked one process with the pid, which does not sleep any more,
  -- and every other slot stays as it was.
  pub kill_marks : (kill pid k).0 ≡ true → (i : ℕ) × (p : Proc) × Killed i p (kill pid k).1
  unfolding mark_killed
  kill_marks h = elim (Option-cases (find_index (λ p. p.pid == pid) k.procs)) [
    | inl e ↦ absurd (ground (arith, kill-missing e))
    | inr (i, e) ↦
        let (p, g, t) = find_index-some (λ p. p.pid == pid) k.procs i e in
        (
          i,
          p,
          rw (kill-found i e) (record {
            here = g;
            has_pid = ground arith;
            marked = get_elem?-modify_self k.procs i _ ∙ rw g;
            is_awake = ground arith;
            others = λ j ne. get_elem?-modify_ne k.procs i j _ (λ s. ne (sym s));
          }),
        )
  ]

module _ {M : Type 0} (S : Services M) (forkret trapret : ℕ) where
  -- `kill(0)` answers 0 and marks the first free slot if its pid is 0, as that of every slot is that
  -- `wait` has cleared. `allocproc` does not clear the mark: the next process that it makes
  -- is born killed.
  pub kill_zero-allocproc :
      (k : Kernel M) (i page : ℕ) (p : Proc) (m : M)
      → find_index (λ p. is_unused p.state) k.procs ≡ some i
      → find_index (λ p. p.pid == 0) k.procs ≡ some i
      → get_elem? k.procs i ≡ some p
      → S.kalloc k.rest ≡ (some page, m)
      → ((kill 0 k).0 ≡ true)
        × ((allocproc S forkret trapret (kill 0 k).1).0 ≡ some i)
        × (q : Proc) × (get_elem? (allocproc S forkret trapret (kill 0 k).1).1.procs i ≡ some q)
        × (q.killed ≡ true)
  unfolding mark_killed
  kill_zero-allocproc k i page p m free zero_pid g mem = rw (kill-found 0 k i zero_pid) (
    refl,
    ap (λ r. r.0) made,
    set_stack page k.ticks (claim k.next_pid (mark_killed k.ticks p)),
    ap (λ (r : Option ℕ × Kernel M). get_elem? r.1.procs i) made ∙ stacked,
    refl,
  )
    where
      k' : Kernel M
      k' = with_proc k i (mark_killed k.ticks)

      still_free : find_index (λ p. is_unused p.state) k'.procs ≡ some i
      still_free =
          find_index-modify (λ p. is_unused p.state) (mark_killed k.ticks) k.procs i
            (λ p. ground arith)
          ∙ free

      made : allocproc S forkret trapret k' ≡ (
        some i,
        with_rest
            (with_proc
              (with_proc (record k' { next_pid = add32 k.next_pid 1 }) i (claim k.next_pid))
              i
              (set_stack page k.ticks))
            (build_stack S forkret trapret page m),
      )
      made = allocproc-found S forkret trapret k' i page m still_free mem

      stacked :
          get_elem? (modify (modify k'.procs i (claim k.next_pid)) i (set_stack page k.ticks)) i
          ≡ some (set_stack page k.ticks (claim k.next_pid (mark_killed k.ticks p)))
      stacked = simp (get_elem?-modify_self, g)
