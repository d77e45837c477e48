-- ===== src/Proc/Finish.antt =====
-- HW3/proc.c: `exit`, `wait` and `wait_stat`.
use operating_systems.Base.{
  ℕ, ◌+◌, Bool, true, false, Option, none, some, List, [], ◌∷◌, get_elem?, modify, map, length,
  ◌&&◌, ◌||◌, not, if◌then◌else◌, for_range,
}
use operating_systems.Str.{store}
use operating_systems.Proc.Types.{
  unused, zombie, at_proc, Proc, Kernel, Services, is_zombie, points_to, with_proc, with_rest,
}
use operating_systems.Proc.Signal.{wakeup1, proc_chan, go_to_sleep}

-- One round of the loop of `exit` that passes children to init.
unfoldable pub abandon : ℕ → Option ℕ → ℕ → List Proc → List Proc
abandon cur init i procs = elim (get_elem? procs i) [
  | none ↦ procs
  | some p ↦
      let adopted = modify procs i (λ q. record q { parent = init }) in
      if points_to cur p.parent
      then (if is_zombie p.state then wakeup1 (proc_chan init) adopted else adopted)
      else procs
]

unfoldable pub reparent : ℕ → Option ℕ → List Proc → List Proc
reparent cur init procs = for_range (length procs) 0 (abandon cur init) procs

-- What the scan of `wait` and `wait_stat` finds: the first zombie child, or whether there is a child.
unfoldable pub scan_children : ℕ → List Proc → ℕ → Bool → Option ℕ × Bool
scan_children cur [] i havekids = (none, havekids)
scan_children cur (p ∷ ps) i havekids =
    let rest = scan_children cur ps (i + 1) (havekids || points_to cur p.parent) in
    if points_to cur p.parent && is_zombie p.state then (some i, true) else rest

-- One pass of the endless loop of `wait`: the pid of a child, -1, or asleep until the next pass.
pub data WaitResult : Type 0 where
  reaped : ℕ → WaitResult
  no_children : WaitResult
  blocked : WaitResult

-- The same for `wait_stat`, with what it stores through its pointers; -1 goes to `status` too.
pub data StatResult : Type 0 where
  stat_reaped : (pid wtime rtime iotime status : ℕ) → StatResult
  stat_no_children : StatResult
  stat_blocked : StatResult

-- The fields that `wait` clears.
abbrev pub clear_slot : Proc → Proc
clear_slot p = record p {
  kstack = 0;
  state = unused;
  pid = 0;
  parent = none;
  name = store p.name 0 0;
  killed = false;
}

-- The fields that `wait_stat` clears.
abbrev pub clear_stat_slot : Proc → Proc
clear_stat_slot p = record (clear_slot p) {
  retime = 0;
  rutime = 0;
  ttime = 0;
  ctime = 0;
  stime = 0;
}

module _ {M : Type 0} (S : Services M) where
  -- The loop of `exit` over the open files.
  unfoldable pub close_files : List (Option ℕ) → M → M
  close_files [] m = m
  close_files (none ∷ fs) m = close_files fs m
  close_files (some f ∷ fs) m = close_files fs (S.fileclose f m)

  -- `exit` once the files and the directory are closed.
  unfoldable pub exit_table : ℕ → Proc → Kernel M → Kernel M
  exit_table cur p k =
      with_proc
        (record k { procs = reparent cur k.initproc (wakeup1 (proc_chan p.parent) k.procs) }) cur
        (λ q. record q { ttime = k.ticks; state = zombie })

  -- `exit` of process `p` in slot `cur` up to its call of `sched`; none is the panic "init exiting".
  unfoldable pub exit : ℕ → Proc → Kernel M → Option (Kernel M)
  exit cur p k =
      if points_to cur k.initproc
      then none
      else some (
          exit_table cur p (
            with_rest
              (with_proc k cur (λ q. record q { ofile = map (λ _. none) q.ofile; cwd = none }))
              (S.end_op (S.iput p.cwd (S.begin_op (close_files p.ofile k.rest))))))

  -- What becomes of the zombie `p` in slot `i`.
  unfoldable pub reap : (Proc → Proc) → ℕ → Proc → Kernel M → Kernel M
  reap clear i p k = with_rest (with_proc k i clear) (S.freevm p.pgdir (S.kfree p.kstack k.rest))

  -- `wait` behind its scan.
  unfoldable pub wait_scanned : ℕ → Proc → Option ℕ × Bool → Kernel M → WaitResult × Kernel M
  wait_scanned cur me (some i, havekids) k = elim (get_elem? k.procs i) [
    | none ↦ (no_children, k)
    | some p ↦ (reaped p.pid, reap clear_slot i p k)
  ]
  wait_scanned cur me (none, havekids) k =
      if not havekids || me.killed
      then (no_children, k)
      else (blocked, go_to_sleep cur (some (at_proc cur)) k)

  unfoldable pub wait_pass : ℕ → Proc → Kernel M → WaitResult × Kernel M
  wait_pass cur me k = wait_scanned cur me (scan_children cur k.procs 0 false) k

  -- `wait_stat` behind its scan.
  unfoldable pub wait_stat_scanned : ℕ → Proc → Option ℕ × Bool → Kernel M → StatResult × Kernel M
  wait_stat_scanned cur me (some i, havekids) k = elim (get_elem? k.procs i) [
    | none ↦ (stat_no_children, k)
    | some p ↦ (stat_reaped p.pid p.retime p.rutime p.stime p.pid, reap clear_stat_slot i p k)
  ]
  wait_stat_scanned cur me (none, havekids) k =
      if not havekids || me.killed
      then (stat_no_children, k)
      else (stat_blocked, go_to_sleep cur (some (at_proc cur)) k)

  unfoldable pub wait_stat_pass : ℕ → Proc → Kernel M → StatResult × Kernel M
  wait_stat_pass cur me k = wait_stat_scanned cur me (scan_children cur k.procs 0 false) k
