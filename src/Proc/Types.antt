-- ===== src/Proc/Types.antt =====
-- HW3/proc.h: a process, and the state that HW3/proc.c works on. A `struct proc *` is the slot
-- number in `ptable`, a null pointer is `none`. The table lock is held over each of the
-- operations below, so an operation is one step of the state.
use operating_systems.Base.{ℕ, Bool, true, false, Option, none, some, List, ◌==◌, modify}
use operating_systems.Str.{Bytes}

pub data ProcState : Type 0 where
  unused embryo sleeping runnable running zombie : ProcState

-- What a process sleeps on: a process, as in `wait`, or any other kernel address.
pub data Chan : Type 0 where
  at_proc : ℕ → Chan
  at_addr : ℕ → Chan

-- `struct proc`. `name` is the 16 bytes from 0 up.
pub record Proc : Type 0 where
  pub sz : ℕ
  pub pgdir : Option ℕ
  pub kstack : ℕ
  pub state : ProcState
  pub pid : ℕ
  pub parent : Option ℕ
  pub tf : ℕ
  pub context : ℕ
  pub chan : Option Chan
  pub killed : Bool
  pub ofile : List (Option ℕ)
  pub cwd : Option ℕ
  pub name : Bytes
  pub ctime : ℕ
  pub ttime : ℕ
  pub stime : ℕ
  pub retime : ℕ
  pub rutime : ℕ

-- `ptable`, `nextpid`, `initproc`, the clock of HW3/trap.c, and the state `M` of the kernel's other
-- parts.
pub record Kernel (M : Type 0) : Type 0 where
  pub procs : List Proc
  pub next_pid : ℕ
  pub initproc : Option ℕ
  pub ticks : ℕ
  pub rest : M

-- What proc.c calls elsewhere in the kernel: HW3/kalloc.c, HW3/vm.c, HW3/string.c, HW3/file.c,
-- HW3/fs.c and HW3/log.c, each call as its effect on `M`.
pub record Services (M : Type 0) : Type 0 where
  pub kalloc : M → Option ℕ × M
  pub kfree : ℕ → M → M
  pub memset : ℕ → ℕ → ℕ → M → M
  pub memmove : ℕ → ℕ → ℕ → M → M
  pub store16 : ℕ → ℕ → M → M
  pub store32 : ℕ → ℕ → M → M
  pub setupkvm : M → Option ℕ × M
  pub inituvm : ℕ → M → M
  pub copyuvm : Option ℕ → ℕ → M → Option ℕ × M
  pub freevm : Option ℕ → M → M
  pub allocuvm : Option ℕ → ℕ → ℕ → M → ℕ × M
  pub deallocuvm : Option ℕ → ℕ → ℕ → M → ℕ × M
  pub switchuvm : ℕ → M → M
  pub filedup : ℕ → M → M
  pub fileclose : ℕ → M → M
  pub idup : Option ℕ → M → Option ℕ × M
  pub namei_root : M → Option ℕ × M
  pub begin_op : M → M
  pub iput : Option ℕ → M → M
  pub end_op : M → M

abbrev pub is_unused : ProcState → Bool
is_unused unused = true
is_unused _ = false

abbrev pub is_sleeping : ProcState → Bool
is_sleeping sleeping = true
is_sleeping _ = false

abbrev pub is_runnable : ProcState → Bool
is_runnable runnable = true
is_runnable _ = false

abbrev pub is_running : ProcState → Bool
is_running running = true
is_running _ = false

abbrev pub is_zombie : ProcState → Bool
is_zombie zombie = true
is_zombie _ = false

-- Is the pointer the one to slot `i`?
abbrev pub points_to : ℕ → Option ℕ → Bool
points_to i none = false
points_to i (some j) = i == j

-- `p->chan == chan`, two null pointers included.
abbrev pub same_chan : Option Chan → Option Chan → Bool
same_chan none none = true
same_chan (some (at_proc i)) (some (at_proc j)) = i == j
same_chan (some (at_addr i)) (some (at_addr j)) = i == j
same_chan _ _ = false

-- An assignment to fields of slot `i`.
abbrev pub with_proc : {M : Type 0} → Kernel M → ℕ → (Proc → Proc) → Kernel M
with_proc k i f = record k { procs = modify k.procs i f }

abbrev pub with_rest : {M : Type 0} → Kernel M → M → Kernel M
with_rest k m = record k { rest = m }

abbrev pub set_state : ProcState → Proc → Proc
set_state s p = record p { state = s }
