-- ===== src/Proc/Safety.antt =====
-- What holds in every state that the operations of HW3/proc.c reach from boot.
use operating_systems.Base.{ℕ, ◌+◌, ◌≤◌, ◌≡◌, refl, some, get_elem?, All-imp, All-get, arith, subst}
use operating_systems.Proc.Types.{unused, running, Proc, Kernel, Services, with_rest}
use operating_systems.Proc.Finish.{stat_reaped, wait_stat_pass}
use operating_systems.Proc.Waiting.{IsChild, IsZombie, NoneBefore, StatSpec, wait_stat_pass_lem}
use operating_systems.Proc.Invariant.{Used, Timed, Inv, with_rest-Inv, with_proc-Quiet}
use operating_systems.Proc.Preserve.{
  set_state-Quiet, wakeup-Inv, awake-Inv, go_to_sleep-Inv, yield-Inv, kill-Inv, timer_tick-Inv,
}
use operating_systems.Proc.PreserveFork.{fork-Inv, userinit-Inv}
use operating_systems.Proc.PreserveExit.{exit-Inv, wait_pass-Inv, wait_stat_pass-Inv}
use operating_systems.Proc.Steps.{
  Step, forks, exits, waits, wait_stats, sleeps, awakes, yields, wakes, kills, ticks_on, runs,
  boots, elsewhere, IsBoot, Reach, boot, next,
}

module _ {M : Type 0} (S : Services M) (forkret trapret : ℕ) where
  -- Every operation keeps the invariant.
  pub Step-Inv : {k k' : Kernel M} → Step S forkret trapret k k' → Inv k → Inv k'
  Step-Inv {k} (forks cur small) v = fork-Inv S forkret trapret cur k small v
  Step-Inv {k} (exits cur p k' here e) v = exit-Inv S cur p k k' here e v
  Step-Inv {k} (waits cur p here) v = wait_pass-Inv S cur p k here v
  Step-Inv {k} (wait_stats cur p here) v = wait_stat_pass-Inv S cur p k here v
  Step-Inv {k} (sleeps cur p c here) v = go_to_sleep-Inv k v cur p c here
  Step-Inv {k} (awakes cur) v = awake-Inv k v cur
  Step-Inv {k} (yields cur p here) v = yield-Inv k v cur p here
  Step-Inv {k} (wakes c) v = wakeup-Inv k v c
  Step-Inv {k} (kills pid) v = kill-Inv k v pid
  Step-Inv {k} (ticks_on c small) v = timer_tick-Inv k v c small
  Step-Inv {k} (runs i p e r) v =
      with_proc-Quiet (with_rest k (S.switchuvm i k.rest)) i _
        (λ q g. set_state-Quiet running q (ground arith) refl) (with_rest-Inv k _ v)
  Step-Inv {k} (boots k' small e) v = userinit-Inv S forkret trapret k k' small e v
  Step-Inv {k} (elsewhere m) v = with_rest-Inv k m v

  boot-Inv : (k : Kernel M) → IsBoot k → Inv k
  boot-Inv k b = record {
    pids = record {
      below = λ i p e u.
          absurd
            (ground (arith, All-get (λ (p : Proc). p.state ≡ unused) k.procs i p e b.all_free));
      distinct = λ i j p q e g u w.
          absurd
            (ground (arith, All-get (λ (p : Proc). p.state ≡ unused) k.procs i p e b.all_free));
    };
    times =
        All-imp (λ (p : Proc). p.state ≡ unused) (Timed k.ticks)
          (λ p e. record {
            counted = λ u. absurd (ground arith);
            ended = λ z. absurd (ground arith);
          })
          k.procs b.all_free;
  }

  pub Reach-Inv : {k : Kernel M} → Reach S forkret trapret k → Inv k
  Reach-Inv (boot {k} b) = boot-Inv k b
  Reach-Inv (next r st) = Step-Inv st (Reach-Inv r)

  -- In every reachable state no two processes share a pid.
  pub pids_distinct :
      {k : Kernel M}
      → Reach S forkret trapret k
      → (i j : ℕ) (p q : Proc) → get_elem? k.procs i ≡ some p
      → get_elem? k.procs j ≡ some q
      → Used p
      → Used q
      → p.pid ≡ q.pid
      → i ≡ j
  pids_distinct r = (Reach-Inv r).pids.distinct

  -- What `wait_stat` reports in a reachable state: of the first zombie child of the caller the pid,
  -- twice, and the times ready, running and asleep, in this order; they add up to no more than the time
  -- from its creation to its end, which is past.
  pub wait_stat_turnaround :
      {k : Kernel M} (cur : ℕ) (me : Proc) (pid wtime rtime iotime status : ℕ)
      → Reach S forkret trapret k
      → (wait_stat_pass S cur me k).0 ≡ stat_reaped pid wtime rtime iotime status
      → (i : ℕ) × (z : Proc) × (get_elem? k.procs i ≡ some z)
        × IsChild cur z
        × IsZombie z
        × NoneBefore cur k i
        × (pid ≡ z.pid)
        × (status ≡ z.pid)
        × (wtime ≡ z.retime)
        × (rtime ≡ z.rutime)
        × (iotime ≡ z.stime)
        × (z.ctime + (wtime + rtime + iotime) ≤ z.ttime)
        × (z.ttime ≤ k.ticks)
  wait_stat_turnaround {k} cur me pid wtime rtime iotime status r e =
      let (i, z, (g, c), dead, before, same, _) =
        subst (λ x. StatSpec S cur me k x (wait_stat_pass S cur me k).1) e
          (wait_stat_pass_lem S cur me k) in
      let timed : Timed k.ticks z = All-get (Timed k.ticks) k.procs i z g (Reach-Inv r).times in
      let (sum, end) = timed.ended dead in
      (
        i,
        z,
        g,
        c,
        dead,
        before,
        ground arith,
        ground arith,
        ground arith,
        ground arith,
        ground arith,
        ground arith,
        end,
      )
