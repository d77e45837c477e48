-- ===== src/Proc/Create.antt =====
-- HW3/proc.c: `allocproc`, `userinit`, `growproc` and `fork`.
use operating_systems.Base.{
  ℕ, ◌+◌, ◌-◌, ◌^◌, Option, none, some, List, [], ◌∷◌, find_index, get_elem?, get_or, add32, Bool,
  true, false, ◌==◌, ltb, if◌then◌else◌,
}
use operating_systems.Str.{Bytes, safestrcpy}
use operating_systems.Proc.Types.{
  unused, embryo, runnable, Proc, Kernel, Services, is_unused, with_proc, with_rest,
}

-- KSTACKSIZE, PGSIZE and the sizes of `struct trapframe` and `struct context`.
abbrev pub kstack_size : ℕ
kstack_size = 4096

abbrev pub page_size : ℕ
page_size = 4096

abbrev pub tf_size : ℕ
tf_size = 76

abbrev pub context_size : ℕ
context_size = 20

-- Where the trap frame and the context of a process stand, and what else lies on its new stack.
abbrev pub tf_of : ℕ → ℕ
tf_of kstack = kstack + kstack_size - tf_size

abbrev pub context_of : ℕ → ℕ
context_of kstack = tf_of kstack - 4 - context_size

-- `p->state = EMBRYO; p->pid = nextpid++;`
abbrev pub claim : ℕ → Proc → Proc
claim pid p = record p { state = embryo; pid = pid }

-- What `allocproc` writes once it has a stack.
abbrev pub set_stack : ℕ → ℕ → Proc → Proc
set_stack kstack ticks p = record p {
  kstack = kstack;
  tf = tf_of kstack;
  context = context_of kstack;
  ctime = ticks;
  ttime = 0;
  stime = 0;
  retime = 0;
  rutime = 0;
}

-- `char name[]` as a zero-terminated constant.
abbrev pub initcode_name : Bytes
initcode_name i = get_or (b'i' ∷ b'n' ∷ b'i' ∷ b't' ∷ b'c' ∷ b'o' ∷ b'd' ∷ b'e' ∷ []) i 0

module _ {M : Type 0} (S : Services M) (forkret trapret : ℕ) where
  -- The kernel stack, from the top: a trap frame, the address of trapret, and a context whose eip
  -- (at offset 16) is forkret.
  abbrev pub build_stack : ℕ → M → M
  build_stack kstack m =
      S.store32 (context_of kstack + 16) forkret
        (S.memset (context_of kstack) 0 context_size (S.store32 (tf_of kstack - 4) trapret m))

  -- `allocproc` behind its call of `kalloc`, which gave the second argument.
  unfoldable pub alloc_with : ℕ → Option ℕ × M → Kernel M → Option ℕ × Kernel M
  alloc_with i (none, m) k =
      (none, with_rest (with_proc k i (λ p. record p { kstack = 0; state = unused })) m)
  alloc_with i (some kstack, m) k =
      (some i, with_rest (with_proc k i (set_stack kstack k.ticks)) (build_stack kstack m))

  -- The state at the label found of `allocproc`, with the slot claimed.
  abbrev pub claimed : ℕ → Kernel M → Kernel M
  claimed i k = with_proc (record k { next_pid = add32 k.next_pid 1 }) i (claim k.next_pid)

  -- `allocproc` behind the label found.
  unfoldable pub alloc_found : ℕ → Kernel M → Option ℕ × Kernel M
  alloc_found i k = alloc_with i (S.kalloc k.rest) (claimed i k)

  unfoldable pub allocproc : Kernel M → Option ℕ × Kernel M
  allocproc k = elim (find_index (λ p. is_unused p.state) k.procs) [
    | none ↦ (none, k)
    | some i ↦ alloc_found i k
  ]

  -- The loop of `fork` over the open files of the parent; the child's table stands second.
  unfoldable pub dup_files : List (Option ℕ) → List (Option ℕ) → M → List (Option ℕ) × M
  dup_files [] cs m = (cs, m)
  dup_files (f ∷ fs) [] m = ([], m)
  dup_files (none ∷ fs) (c ∷ cs) m = let (r, m') = dup_files fs cs m in (c ∷ r, m')
  dup_files (some f ∷ fs) (c ∷ cs) m =
      let (r, m') = dup_files fs cs (S.filedup f m) in (some f ∷ r, m')

  -- The child's fields, once the address space is copied. `*np->tf = *proc->tf` and the zero in
  -- eax (offset 28) go to memory.
  unfoldable pub fork_copy : ℕ → Proc → ℕ → Proc → ℕ → Kernel M → Option ℕ × Kernel M
  fork_copy cur p i np d k =
      let m1 = S.store32 (np.tf + 28) 0 (S.memmove np.tf p.tf tf_size k.rest) in
      let (files, m2) = dup_files p.ofile np.ofile m1 in
      let (dir, m3) = S.idup p.cwd m2 in
      (
        some np.pid,
        with_rest
            (with_proc k i (λ q. record q {
              pgdir = some d;
              sz = p.sz;
              parent = some cur;
              ofile = files;
              cwd = dir;
              name = safestrcpy 0 p.name 16 np.name;
              state = runnable;
            }))
            m3,
      )

  -- `fork` behind its call of `copyuvm`, which gave the second argument: with no copy of the
  -- address space the slot is given back.
  unfoldable pub fork_with : ℕ → Proc → Option ℕ × M → ℕ → Proc → Kernel M → Option ℕ × Kernel M
  fork_with cur p (none, m) i np k = (
    none,
    with_rest (with_proc k i (λ q. record q { pgdir = none; kstack = 0; state = unused }))
        (S.kfree np.kstack m),
  )
  fork_with cur p (some d, m) i np k = fork_copy cur p i np d (with_rest k m)

  -- `fork` behind its call of `allocproc`. The lookups cannot fail: `cur` is the running process and
  -- `allocproc` returns a slot of the table.
  unfoldable pub fork_alloced : ℕ → Option ℕ × Kernel M → Option ℕ × Kernel M
  fork_alloced cur (none, k) = (none, k)
  fork_alloced cur (some i, k) = elim (get_elem? k.procs cur) [
    | none ↦ (none, k)
    | some p ↦ elim (get_elem? k.procs i) [
      | none ↦ (none, k)
      | some np ↦ fork_with cur p (S.copyuvm p.pgdir p.sz k.rest) i np k
    ]
  ]

  -- `fork` of the process in slot `cur`: the pid of the child, or -1 (none).
  unfoldable pub fork : ℕ → Kernel M → Option ℕ × Kernel M
  fork cur k = fork_alloced cur (allocproc k)

  -- `userinit` behind the allocation; the trap frame's fields at their offsets, with the
  -- selectors (SEG_UCODE << 3) | DPL_USER and (SEG_UDATA << 3) | DPL_USER, and FL_IF.
  unfoldable pub init_user : ℕ → Proc → ℕ → Kernel M → Kernel M
  init_user i p d k =
      let m1 = S.memset p.tf 0 tf_size (S.inituvm d k.rest) in
      let m2 = S.store16 (p.tf + 60) 35 m1 in
      let m3 = S.store16 (p.tf + 44) 43 m2 in
      let m4 = S.store16 (p.tf + 72) 43 (S.store16 (p.tf + 40) 43 m3) in
      let m5 = S.store32 (p.tf + 68) page_size (S.store32 (p.tf + 64) 0x200 m4) in
      let (dir, m6) = S.namei_root (S.store32 (p.tf + 56) 0 m5) in
      with_rest
        (with_proc k i (λ q. record q {
          pgdir = some d;
          sz = page_size;
          name = safestrcpy 0 initcode_name 16 q.name;
          cwd = dir;
          state = runnable;
        }))
        m6

  -- `userinit` behind its call of `setupkvm`; none is the panic "out of memory?".
  unfoldable pub userinit_with : ℕ → Proc → Option ℕ × M → Kernel M → Option (Kernel M)
  userinit_with i p (none, m) k = none
  userinit_with i p (some d, m) k =
      some (init_user i p d (with_rest (record k { initproc = some i }) m))

  -- `userinit` behind its call of `allocproc`, whose null pointer it would follow.
  unfoldable pub userinit_alloced : Option ℕ × Kernel M → Option (Kernel M)
  userinit_alloced (none, k) = none
  userinit_alloced (some i, k) = elim (get_elem? k.procs i) [
    | none ↦ none
    | some p ↦ userinit_with i p (S.setupkvm k.rest) k
  ]

  unfoldable pub userinit : Kernel M → Option (Kernel M)
  userinit k = userinit_alloced (allocproc k)

  -- `growproc` behind `allocuvm` and `deallocuvm`: a size 0 is the failure.
  unfoldable pub resized : ℕ → ℕ × M → Kernel M → Bool × Kernel M
  resized cur (sz, m) k =
      if sz == 0
      then (false, with_rest k m)
      else (true, with_rest (with_proc k cur (λ q. record q { sz = sz })) (S.switchuvm cur m))

  -- `growproc` with the `int` argument as its 32 bits: from 2 ^ 31 on it is negative. true is the
  -- result 0, false is -1.
  unfoldable pub growproc : ℕ → Proc → ℕ → Kernel M → Bool × Kernel M
  growproc cur p n k =
      if n == 0
      then (true, with_rest k (S.switchuvm cur k.rest))
      else if ltb n (2 ^ 31)
      then resized cur (S.allocuvm p.pgdir p.sz (add32 p.sz n) k.rest) k
      else resized cur (S.deallocuvm p.pgdir p.sz (add32 p.sz n) k.rest) k
