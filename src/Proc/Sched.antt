-- ===== src/Proc/Sched.antt =====
-- HW3/proc.c: `scheduler`, the loop that it replaces and that still stands there as a comment, and
-- `sched`.
use operating_systems.Base.{
  ℕ, zero, suc, ◌+◌, Bool, true, false, Option, none, some, List, [], ◌∷◌, get_elem?, ltb, ◌==◌,
  not, if◌then◌else◌,
}
use operating_systems.Proc.Types.{
  running, Proc, Kernel, Services, is_runnable, is_running, with_proc, with_rest, set_state,
}

-- What the loop body makes of `first`, given the runnable process `p` in slot `i`.
unfoldable pub choose_first : Option (ℕ × Proc) → ℕ → Proc → ℕ × Proc
choose_first none i p = (i, p)
choose_first (some (j, first)) i p = if ltb p.ctime first.ctime then (i, p) else (j, first)

module _ {M : Type 0} (S : Services M) (slice : ℕ → Kernel M → Kernel M) where
  -- Running a process: `switchuvm`, state RUNNING, and `swtch`, during which the process and
  -- whatever interrupts it do `slice`.
  unfoldable pub dispatch : ℕ → Kernel M → Kernel M
  dispatch i k = slice i (with_proc (with_rest k (S.switchuvm i k.rest)) i (set_state running))

  -- The loop of `scheduler` over the table from slot `i` on, with the slots dispatched in order.
  -- `first` starts anew in each round, and the loop goes on behind the process that was chosen.
  unfoldable pub scheduler_pass : ℕ → ℕ → Kernel M → List ℕ × Kernel M
  scheduler_pass zero i k = ([], k)
  scheduler_pass (suc fuel) i k = elim (get_elem? k.procs i) [
    | none ↦ ([], k)
    | some p ↦ elim (is_runnable p.state) [
      | false ↦ scheduler_pass fuel (i + 1) k
      | true ↦
          let c = (choose_first none i p).0 in
          let (trace, k') = scheduler_pass fuel (c + 1) (dispatch c k) in (c ∷ trace, k')
    ]
  ]

  -- The loop of the commented-out `scheduler`: plain round robin.
  unfoldable pub round_robin_pass : ℕ → ℕ → Kernel M → List ℕ × Kernel M
  round_robin_pass zero i k = ([], k)
  round_robin_pass (suc fuel) i k = elim (get_elem? k.procs i) [
    | none ↦ ([], k)
    | some p ↦ elim (is_runnable p.state) [
      | false ↦ round_robin_pass fuel (i + 1) k
      | true ↦ let (trace, k') = round_robin_pass fuel (i + 1) (dispatch i k) in (i ∷ trace, k')
    ]
  ]

-- The tests of `sched` in their order, on whether the table lock is held, `cpu->ncli`, the state of
-- the process and the interrupt flag; true means that it goes on to `swtch`.
unfoldable pub sched_allowed : Bool → ℕ → Proc → Bool → Bool
sched_allowed holding ncli p interruptible =
    if not holding
    then false
    else if not (ncli == 1)
    then false
    else if is_running p.state
    then false
    else not interruptible
