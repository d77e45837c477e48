-- ===== src/Proc/PreserveFork.antt =====
-- `allocproc` and `fork` of HW3/proc.c keep the invariant of the table.
use mathlib.Core.Option.{some-injective}
use native.Mathlib.Decide.{ℕ_discrete}
use operating_systems.Base.{
  ℕ, ◌+◌, ◌<◌, ◌≤◌, ◌^◌, ◌≡◌, ◌≢◌, ◌⊎◌, inl, inr, refl, sym, ◌∙◌, ap, Option, none, some, List,
  get_elem?, arith, Option-cases, find_index, add32, All-modify, modify, get_elem?-modify_self,
  get_elem?-modify_ne, modify-modify, subst,
}
use operating_systems.Proc.Types.{Proc, Kernel, Services, is_unused, with_rest}
use operating_systems.Proc.Create.{
  allocproc, fork_copy, fork_with, fork_alloced, fork, userinit, userinit_alloced, userinit_with,
  init_user,
}
use operating_systems.Proc.Alloc.{
  allocproc-found, allocproc-no_memory, allocproc-no_slot, allocproc-Fresh,
}
use operating_systems.Proc.Invariant.{
  some_of_map, Used, Timed, Inv, PidsOk, with_rest-Inv, with_proc-Quiet,
}

pub PidsOk-later : (procs : List Proc) (n m : ℕ) → n ≤ m → PidsOk procs n → PidsOk procs m
PidsOk-later procs n m le ok = record {
  below = λ i p e u. omega (arith, ok.below i p e u);
  distinct = ok.distinct;
}

module _ (procs : List Proc) (next i : ℕ) (f : Proc → Proc)
    (fresh : (p : Proc) → (f p).pid ≡ next) where
  -- What stands in a slot after slot `i` took the next pid.
  abbrev AfterClaim : ℕ → Proc → Type 0
  AfterClaim j q = ((i ≡ j) × (q.pid ≡ next)) ⊎ ((i ≢ j) × (get_elem? procs j ≡ some q))

  after_claim : (j : ℕ) (q : Proc) → get_elem? (modify procs i f) j ≡ some q → AfterClaim j q
  after_claim j q g = elim (ℕ_discrete i j) [
    | yes same ↦
        let at_i : get_elem? (modify procs i f) i ≡ some q =
          subst (λ x. get_elem? (modify procs i f) x ≡ some q) (sym same) g in
        let (p, e, eq) =
          some_of_map f (get_elem? procs i) q (sym (get_elem?-modify_self procs i f) ∙ at_i) in
        inl (same, ap (λ (r : Proc). r.pid) (sym eq) ∙ fresh p)
    | no other ↦ inr (other, sym (get_elem?-modify_ne procs i j f other) ∙ g)
  ]

  apart :
      (j l : ℕ) (q r : Proc)
      → PidsOk procs next
      → AfterClaim j q
      → AfterClaim l r
      → Used q
      → Used r
      → q.pid ≡ r.pid
      → j ≡ l
  apart j l q r ok (inl a) (inl b) uq ur same = sym a.0 ∙ b.0
  apart j l q r ok (inl a) (inr b) uq ur same = absurd (omega (arith, ok.below l r b.1 ur))
  apart j l q r ok (inr a) (inl b) uq ur same = absurd (omega (arith, ok.below j q a.1 uq))
  apart j l q r ok (inr a) (inr b) uq ur same = ok.distinct j l q r a.1 b.1 uq ur same

  claim-PidsOk : PidsOk procs next → PidsOk (modify procs i f) (next + 1)
  claim-PidsOk ok = record {
    below = λ j q g u. elim (after_claim j q g) [
      | inl (same, e) ↦ omega arith
      | inr (other, e) ↦ omega (arith, ok.below j q e u)
    ];
    distinct = λ j l q r gj gl. apart j l q r ok (after_claim j q gj) (after_claim l r gl);
  }

module _ {M : Type 0} (S : Services M) (forkret trapret : ℕ) (k : Kernel M) (v : Inv k)
    (small : k.next_pid + 1 < 2 ^ 32) where
  next_pid_lem : add32 k.next_pid 1 ≡ k.next_pid + 1
  next_pid_lem = omega arith

  allocproc_found-Inv :
      (i page : ℕ) (m : M)
      → find_index (λ p. is_unused p.state) k.procs ≡ some i
      → S.kalloc k.rest ≡ (some page, m)
      → Inv (allocproc S forkret trapret k).1
  allocproc_found-Inv i page m f mem =
      rw (allocproc-found S forkret trapret k i page m f mem, next_pid_lem, modify-modify)
        record {
          pids = claim-PidsOk k.procs k.next_pid i _ (λ p. refl) v.pids;
          times =
              All-modify (Timed k.ticks) k.procs i _
                (λ p g h. record { counted = λ u. omega arith; ended = λ z. absurd (ground arith) })
                v.times;
        }

  allocproc_no_memory-Inv :
      (i : ℕ) (m : M)
      → find_index (λ p. is_unused p.state) k.procs ≡ some i
      → S.kalloc k.rest ≡ (none, m)
      → Inv (allocproc S forkret trapret k).1
  allocproc_no_memory-Inv i m f mem =
      rw (allocproc-no_memory S forkret trapret k i m f mem, next_pid_lem, modify-modify)
        record {
          pids = claim-PidsOk k.procs k.next_pid i _ (λ p. refl) v.pids;
          times =
              All-modify (Timed k.ticks) k.procs i _
                (λ p g h. record {
                  counted = λ u. absurd (ground arith);
                  ended = λ z. absurd (ground arith);
                })
                v.times;
        }

  pub allocproc-Inv : Inv (allocproc S forkret trapret k).1
  allocproc-Inv = elim (Option-cases (find_index (λ p. is_unused p.state) k.procs)) [
    | inl f ↦ rw (allocproc-no_slot S forkret trapret k f) v
    | inr (i, f) ↦ by_memory i f (S.kalloc k.rest) refl
  ]
    where
      by_memory :
          (i : ℕ)
          → find_index (λ p. is_unused p.state) k.procs ≡ some i
          → (r : Option ℕ × M) → S.kalloc k.rest ≡ r
          → Inv (allocproc S forkret trapret k).1
      by_memory i f (none, m) mem = allocproc_no_memory-Inv i m f mem
      by_memory i f (some page, m) mem = allocproc_found-Inv i page m f mem

module _ {M : Type 0} (S : Services M) (forkret trapret cur : ℕ) where
  -- The new process is in use, so that what `fork` writes to its slot is harmless.
  fork_with-Inv :
      (p : Proc) (r : Option ℕ × M) (i : ℕ) (np : Proc) (k : Kernel M)
      → get_elem? k.procs i ≡ some np
      → Used np
      → Inv k
      → Inv (fork_with S forkret trapret cur p r i np k).1
  unfolding fork_with fork_copy
  fork_with-Inv p (none, m) i np k here used v = with_rest-Inv _ (S.kfree np.kstack m) (
      with_proc-Quiet k i _
        (λ q e. record {
          used = λ u. absurd (ground arith);
          zombie = λ z. absurd (ground arith);
          pid = refl;
          clocks = (refl, refl, refl, refl);
          ttime = refl;
        })
        v)
  fork_with-Inv p (some d, m) i np k here used v = with_rest-Inv _ _ (
      with_proc-Quiet (with_rest k m) i _
        (λ q e. record {
          used = λ _. ground arith;
          zombie = λ z. absurd (ground arith);
          pid = refl;
          clocks = (refl, refl, refl, refl);
          ttime = refl;
        })
        (with_rest-Inv k m v))

  fork_alloced-Inv :
      (r : Option ℕ × Kernel M)
      → ((i : ℕ) → r.0 ≡ some i → (np : Proc) × (get_elem? r.1.procs i ≡ some np) × Used np)
      → Inv r.1
      → Inv (fork_alloced S forkret trapret cur r).1
  unfolding fork_alloced
  fork_alloced-Inv (none, k) found v = v
  fork_alloced-Inv (some i, k) found v = elim (Option-cases (get_elem? k.procs cur)) [
    | inl e ↦ rw (e, fork_alloced) v
    | inr (p, e) ↦
        let (np, g, used) = found i refl in
        rw (e, g, fork_alloced) (fork_with-Inv p (S.copyuvm p.pgdir p.sz k.rest) i np k g used v)
  ]

  -- `fork` keeps the invariant, on each of its three ways out.
  pub fork-Inv :
      (k : Kernel M) → k.next_pid + 1 < 2 ^ 32 → Inv k → Inv (fork S forkret trapret cur k).1
  unfolding fork
  fork-Inv k small v =
      fork_alloced-Inv (allocproc S forkret trapret k)
        (λ i e.
          let (old, new, fresh, _) = allocproc-Fresh S forkret trapret k i e in
          (new, fresh.now, ground (arith, fresh.state)))
        (allocproc-Inv S forkret trapret k v small)

module _ {M : Type 0} (S : Services M) (forkret trapret : ℕ) where
  userinit_with-Inv :
      (i : ℕ) (p np : Proc) (r : Option ℕ × M) (k k' : Kernel M)
      → get_elem? k.procs i ≡ some np
      → Used np
      → userinit_with S forkret trapret i p r k ≡ some k'
      → Inv k
      → Inv k'
  unfolding userinit_with init_user
  userinit_with-Inv i p np (none, m) k k' here used e v = absurd (ground arith)
  userinit_with-Inv i p np (some d, m) k k' here used e v = subst Inv (some-injective _ k' e) (
      with_rest-Inv _ _ (
        with_proc-Quiet (record k { initproc = some i; rest = m }) i _
          (λ q g. record {
            used = λ _. ground arith;
            zombie = λ z. absurd (ground arith);
            pid = refl;
            clocks = (refl, refl, refl, refl);
            ttime = refl;
          })
          (record { pids = v.pids; times = v.times })))

  userinit_alloced-Inv :
      (r : Option ℕ × Kernel M) (k' : Kernel M)
      → ((i : ℕ) → r.0 ≡ some i → (np : Proc) × (get_elem? r.1.procs i ≡ some np) × Used np)
      → userinit_alloced S forkret trapret r ≡ some k'
      → Inv r.1
      → Inv k'
  unfolding userinit_alloced
  userinit_alloced-Inv (none, k) k' found e v = absurd (ground arith)
  userinit_alloced-Inv (some i, k) k' found e v =
      let (np, g, used) = found i refl in
      userinit_with-Inv i np np (S.setupkvm k.rest) k k' g used (rw (g, userinit_alloced) at e) v

  -- `userinit` keeps the invariant.
  pub userinit-Inv :
      (k k' : Kernel M)
      → k.next_pid + 1 < 2 ^ 32
      → userinit S forkret trapret k ≡ some k'
      → Inv k
      → Inv k'
  unfolding userinit
  userinit-Inv k k' small e v =
      userinit_alloced-Inv (allocproc S forkret trapret k) k'
        (λ i e.
          let (old, new, fresh, _) = allocproc-Fresh S forkret trapret k i e in
          (new, fresh.now, ground (arith, fresh.state)))
        e (allocproc-Inv S forkret trapret k v small)
