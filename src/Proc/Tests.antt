-- ===== src/Proc/Tests.antt =====
-- The theorems on HW3/proc.c at concrete tables, and runs of the operations on them.
use operating_systems.Base.{
  ℕ, ◌+◌, ◌*◌, ◌≤◌, ◌≡◌, refl, true, false, Option, none, some, List, [], ◌∷◌, get_elem?, arith,
  find_index, for_range,
}
use operating_systems.Proc.Types.{
  unused, sleeping, runnable, running, zombie, at_proc, Proc, Kernel, Services, set_state,
  with_proc, with_rest,
}
use operating_systems.Proc.Create.{
  allocproc, alloc_found, alloc_with, fork, fork_alloced, fork_with, fork_copy, dup_files, userinit,
  userinit_alloced, userinit_with, init_user,
}
use operating_systems.Proc.Signal.{wakeup, wakeup1, kill, timer_tick, update_stat, yield}
use operating_systems.Proc.Finish.{
  exit, exit_table, close_files, reparent, abandon, stat_reaped, wait_stat_pass, wait_stat_scanned,
  scan_children,
}
use operating_systems.Proc.Sched.{scheduler_pass, round_robin_pass, dispatch, choose_first}
use operating_systems.Proc.Fairness.{scheduler-eq-round_robin, scheduler_no_starvation, InTrace}
use operating_systems.Proc.Kills.{kill_zero-allocproc}
use operating_systems.Proc.Waiting.{IsChild, IsZombie, NoneBefore, wait_stat_pass_lem, StatSpec}
use operating_systems.Proc.Forks.{ForkSpec, fork_lem}
use operating_systems.Proc.Exits.{Exited, exit_effect}
use operating_systems.Proc.Preserve.{Current}
use operating_systems.Proc.Invariant.{Inv}
use operating_systems.Proc.Steps.{
  Reach, boot, next, boots, runs, forks, yields, ticks_on, exits, kills,
}
use operating_systems.Proc.Safety.{Step-Inv, pids_distinct, wait_stat_turnaround, Reach-Inv}

-- Pages are handed out in order; the other parts do nothing.
abbrev services : Services ℕ
services = record {
  kalloc = λ m. (some (m * 4096), m + 1);
  kfree = λ _ m. m;
  memset = λ _ _ _ m. m;
  memmove = λ _ _ _ m. m;
  store16 = λ _ _ m. m;
  store32 = λ _ _ m. m;
  setupkvm = λ m. (some (m * 4096), m + 1);
  inituvm = λ _ m. m;
  copyuvm = λ _ _ m. (some (m * 4096), m + 1);
  freevm = λ _ m. m;
  allocuvm = λ _ _ new m. (new, m);
  deallocuvm = λ _ _ new m. (new, m);
  switchuvm = λ _ m. m;
  filedup = λ _ m. m;
  fileclose = λ _ m. m;
  idup = λ c m. (c, m);
  namei_root = λ m. (some 1, m);
  begin_op = λ m. m;
  iput = λ _ m. m;
  end_op = λ m. m;
}

abbrev blank : Proc
blank = record {
  sz = 0;
  pgdir = none;
  kstack = 0;
  state = unused;
  pid = 0;
  parent = none;
  tf = 0;
  context = 0;
  chan = none;
  killed = false;
  ofile = none ∷ none ∷ [];
  cwd = none;
  name = λ _. 0;
  ctime = 0;
  ttime = 0;
  stime = 0;
  retime = 0;
  rutime = 0;
}

abbrev or_blank : Option Proc → Proc
or_blank (some p) = p
or_blank none = blank

abbrev kernel : List Proc → Kernel ℕ
kernel procs = record { procs = procs; next_pid = 4; initproc = some 0; ticks = 9; rest = 1 }

-- init asleep in `wait`, its child with pid 2 that runs, a free slot, and a zombie child of the second.
abbrev init_proc : Proc
init_proc = record blank { state = sleeping; pid = 1; chan = some (at_proc 0) }

abbrev shell : Proc
shell = record blank { state = running; pid = 2; parent = some 0; ctime = 3 }

abbrev child : Proc
child = record blank {
  state = zombie;
  pid = 3;
  parent = some 1;
  ctime = 1;
  retime = 2;
  rutime = 3;
  stime = 1;
  ttime = 8;
}

abbrev table : Kernel ℕ
table = kernel (init_proc ∷ shell ∷ blank ∷ child ∷ [])

abbrev ready : ℕ → ℕ → Proc
ready pid ctime = record blank { state = runnable; pid = pid; ctime = ctime }

-- A younger process in the lower slot.
abbrev two_ready : Kernel ℕ
two_ready = kernel (blank ∷ ready 3 8 ∷ ready 2 5 ∷ [])

abbrev back_to_ready : ℕ → Kernel ℕ → Kernel ℕ
back_to_ready i k = yield i k

shell_runs : Current table 1 shell
shell_runs = record { here = refl; runs = refl }

-- The first-come order is not kept: slot 1 goes first, though slot 2 was created earlier.
scheduler-two_ready : (scheduler_pass services back_to_ready 3 0 two_ready).0 ≡ 1 ∷ 2 ∷ []
unfolding scheduler_pass dispatch choose_first yield
scheduler-two_ready = refl

scheduler-eq-round_robin_example :
    scheduler_pass services back_to_ready 3 0 two_ready
    ≡ round_robin_pass services back_to_ready 3 0 two_ready
scheduler-eq-round_robin_example = scheduler-eq-round_robin services back_to_ready 3 0 two_ready

scheduler_no_starvation_example : InTrace 2 (scheduler_pass services (λ _ k. k) 3 0 two_ready).0
scheduler_no_starvation_example =
    scheduler_no_starvation services (λ _ k. k) 2 3 0 two_ready (λ c k ne run. run)
      (ready 2 5, refl, refl) (omega arith) (omega arith)

fork_lem_example : ForkSpec services 0x100 0x200 1 shell table (fork services 0x100 0x200 1 table)
fork_lem_example = fork_lem services 0x100 0x200 1 shell table shell_runs

fork-table : (fork services 0x100 0x200 1 table).0 ≡ some 4
unfolding fork fork_alloced fork_with fork_copy allocproc alloc_found alloc_with find_index
fork-table = refl

wait_stat_pass_lem_example :
    StatSpec services 1 shell table
      (wait_stat_pass services 1 shell table).0
      (wait_stat_pass services 1 shell table).1
wait_stat_pass_lem_example = wait_stat_pass_lem services 1 shell table

wait_stat-table : (wait_stat_pass services 1 shell table).0 ≡ stat_reaped 3 2 3 1 3
unfolding wait_stat_pass wait_stat_scanned scan_children
wait_stat-table = refl

-- `kill(0)` marks the free slot 2.
kill_zero-allocproc_example :
    ((kill 0 table).0 ≡ true)
    × ((allocproc services 0x100 0x200 (kill 0 table).1).0 ≡ some 2)
    × (q : Proc) × (get_elem? (allocproc services 0x100 0x200 (kill 0 table).1).1.procs 2 ≡ some q)
    × (q.killed ≡ true)
unfolding find_index
kill_zero-allocproc_example =
    kill_zero-allocproc services 0x100 0x200 table 2 4096 blank 2 refl refl refl refl

abbrev after_exit : Kernel ℕ
unfolding exit_table reparent abandon wakeup1 for_range close_files
after_exit = record table {
  procs =
      record init_proc { state = runnable }
      ∷ record shell { state = zombie; ttime = 9 }
      ∷ blank
      ∷ record child { parent = some 0 }
      ∷ [];
}

exit-table : exit services 1 shell table ≡ some after_exit
unfolding exit exit_table reparent abandon wakeup1 for_range close_files
exit-table = refl

exit_effect_example :
    (q : Proc) × (get_elem? after_exit.procs 3 ≡ some q) × Exited 1 shell table 3 child q
unfolding exit_table reparent abandon wakeup1 for_range close_files
exit_effect_example = exit_effect services 1 shell table after_exit exit-table 3 child refl

abbrev or_table : Option (Kernel ℕ) → Kernel ℕ
or_table (some k) = k
or_table none = table

-- Two free slots, and the boot: init forks, its child runs for a tick and exits, init runs again.
abbrev booting : Kernel ℕ
booting = record { procs = blank ∷ blank ∷ []; next_pid = 1; initproc = none; ticks = 0; rest = 1 }

booting-Reach : Reach services 0x100 0x200 booting
booting-Reach = boot (record { all_free = (refl, (refl, _)) })

abbrev dispatched : ℕ → Kernel ℕ → Kernel ℕ
dispatched i k = with_proc (with_rest k (services.switchuvm i k.rest)) i (set_state running)

abbrev booted : Kernel ℕ
booted = or_table (userinit services 0x100 0x200 booting)

abbrev forked : Kernel ℕ
forked = (fork services 0x100 0x200 0 (dispatched 0 booted)).1

abbrev ticked : Kernel ℕ
ticked = timer_tick none (dispatched 1 (yield 0 forked))

abbrev exited : Kernel ℕ
exited = or_table (exit services 1 (or_blank (get_elem? ticked.procs 1)) ticked)

exited-Reach : Reach services 0x100 0x200 exited
unfolding userinit userinit_alloced userinit_with init_user allocproc alloc_found alloc_with
    find_index fork fork_alloced fork_with fork_copy dup_files yield timer_tick update_stat exit
    exit_table reparent abandon wakeup1 close_files for_range wakeup
exited-Reach =
    next
      (next
        (next
          (next
            (next (next (next booting-Reach (boots booted (omega arith) refl)) (runs 0 _ refl refl))
              (forks 0 (omega arith)))
            (yields 0 _ (record { here = refl; runs = refl })))
          (runs 1 _ refl refl))
        (ticks_on none (omega arith)))
      (exits 1 (or_blank (get_elem? ticked.procs 1)) exited (record { here = refl; runs = refl })
        refl)

abbrev waiting : Kernel ℕ
waiting = dispatched 0 exited

waiting-Reach : Reach services 0x100 0x200 waiting
unfolding userinit userinit_alloced userinit_with init_user allocproc alloc_found alloc_with
    find_index fork fork_alloced fork_with fork_copy dup_files yield timer_tick update_stat exit
    exit_table reparent abandon wakeup1 close_files for_range wakeup
waiting-Reach = next exited-Reach (runs 0 _ refl refl)

-- The child ended in slot 1.
abbrev ended : Proc
ended = or_blank (get_elem? exited.procs 1)

pids_distinct_example : ◌≡◌ {A = ℕ} 1 1
unfolding userinit userinit_alloced userinit_with init_user allocproc alloc_found alloc_with
    find_index fork fork_alloced fork_with fork_copy dup_files yield timer_tick update_stat exit
    exit_table reparent abandon wakeup1 close_files for_range wakeup
pids_distinct_example =
    pids_distinct services 0x100 0x200 waiting-Reach 1 1 ended ended refl refl (ground arith)
      (ground arith) refl

-- The child was created at time 0, waited while init ran, ran for a tick and ended at time 1.
wait_stat_turnaround_example :
    (i : ℕ) × (z : Proc) × (get_elem? waiting.procs i ≡ some z)
    × IsChild 0 z
    × IsZombie z
    × NoneBefore 0 waiting i
    × (2 ≡ z.pid)
    × (2 ≡ z.pid)
    × (0 ≡ z.retime)
    × (1 ≡ z.rutime)
    × (0 ≡ z.stime)
    × (z.ctime + (0 + 1 + 0) ≤ z.ttime)
    × (z.ttime ≤ 1)
unfolding userinit userinit_alloced userinit_with init_user allocproc alloc_found alloc_with
    find_index fork fork_alloced fork_with fork_copy dup_files yield timer_tick update_stat exit
    exit_table reparent abandon wakeup1 close_files for_range wakeup wait_stat_pass
    wait_stat_scanned scan_children
wait_stat_turnaround_example =
    wait_stat_turnaround services 0x100 0x200 0 (or_blank (get_elem? waiting.procs 0)) 2 0 1 0 2
      waiting-Reach refl

Step-Inv_example : Inv (kill 2 waiting).1
Step-Inv_example =
    Step-Inv services 0x100 0x200 (kills 2) (Reach-Inv services 0x100 0x200 waiting-Reach)
