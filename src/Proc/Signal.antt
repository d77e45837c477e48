-- ===== src/Proc/Signal.antt =====
-- HW3/proc.c: `sleep`, `wakeup1`, `wakeup`, `kill`, `yield` and `update_stat`.
use operating_systems.Base.{
  ℕ, Bool, true, false, Option, none, some, List, map, find_index, ◌&&◌, ◌==◌, add32, if◌then◌else◌,
}
use operating_systems.Proc.Types.{
  ProcState, sleeping, runnable, running, Chan, at_proc, Proc, Kernel, is_sleeping, same_chan,
  with_proc, set_state,
}

-- One round of the loop of `wakeup1`.
abbrev pub wake_one : Option Chan → Proc → Proc
wake_one c p = if is_sleeping p.state && same_chan p.chan c then set_state runnable p else p

unfoldable pub wakeup1 : Option Chan → List Proc → List Proc
wakeup1 c procs = map (wake_one c) procs

-- The pointer to a process as a channel.
abbrev pub proc_chan : Option ℕ → Option Chan
proc_chan none = none
proc_chan (some i) = some (at_proc i)

-- One round of the loop of `update_stat`, for each state of the process.
abbrev pub count_tick : ProcState → Proc → Proc
count_tick running p = record p { rutime = add32 p.rutime 1 }
count_tick sleeping p = record p { stime = add32 p.stime 1 }
count_tick runnable p = record p { retime = add32 p.retime 1 }
count_tick _ p = p

-- What `kill` does to the process that it finds.
unfoldable pub mark_killed : ℕ → Proc → Proc
mark_killed ticks p = record p {
  killed = true;
  ttime = ticks;
  state = if is_sleeping p.state then runnable else p.state;
}

module _ {M : Type 0} where
  unfoldable pub wakeup : Option Chan → Kernel M → Kernel M
  wakeup c k = record k { procs = wakeup1 c k.procs }

  -- `sleep` up to its call of `sched`.
  unfoldable pub go_to_sleep : ℕ → Option Chan → Kernel M → Kernel M
  go_to_sleep cur c k = with_proc k cur (λ p. record p { chan = c; state = sleeping })

  -- `sleep` behind its call of `sched`.
  unfoldable pub awake : ℕ → Kernel M → Kernel M
  awake cur k = with_proc k cur (λ p. record p { chan = none })

  -- `yield` up to its call of `sched`.
  unfoldable pub yield : ℕ → Kernel M → Kernel M
  yield cur k = with_proc k cur (set_state runnable)

  -- `kill`; true is the result 0, false is -1.
  unfoldable pub kill : ℕ → Kernel M → Bool × Kernel M
  kill pid k = elim (find_index (λ p. p.pid == pid) k.procs) [
    | none ↦ (false, k)
    | some i ↦ (true, with_proc k i (mark_killed k.ticks))
  ]

  unfoldable pub update_stat : Kernel M → Kernel M
  update_stat k = record k { procs = map (λ p. count_tick p.state p) k.procs }

  -- The timer interrupt of HW3/trap.c on the first processor; `ticks_chan` is the address of `ticks`.
  unfoldable pub timer_tick : Option Chan → Kernel M → Kernel M
  timer_tick ticks_chan k = wakeup ticks_chan (update_stat (record k { ticks = add32 k.ticks 1 }))
