-- ===== src/Proc/Steps.antt =====
-- The operations of HW3/proc.c as steps of the kernel, in any order and on any processor.
use operating_systems.Base.{ℕ, ◌+◌, ◌<◌, ◌^◌, ◌≡◌, true, Option, some, get_elem?, All}
use operating_systems.Proc.Types.{
  Proc, Kernel, Services, Chan, unused, running, is_runnable, with_proc, with_rest, set_state,
}
use operating_systems.Proc.Create.{fork, userinit}
use operating_systems.Proc.Signal.{wakeup, go_to_sleep, awake, yield, kill, timer_tick}
use operating_systems.Proc.Finish.{exit, wait_pass, wait_stat_pass}
use operating_systems.Proc.Preserve.{Current}

-- The table at boot holds free slots only.
pub record IsBoot {M : Type 0} (k : Kernel M) : Type 0 where
  pub all_free : All (λ (p : Proc). p.state ≡ unused) k.procs

module _ {M : Type 0} (S : Services M) (forkret trapret : ℕ) where
  -- A step by the process in slot `cur`, by an interrupt, or by a scheduler. `nextpid` and `ticks`
  -- do not overflow.
  pub data Step (k : Kernel M) : Kernel M → Type 0 where
    forks : (cur : ℕ) → k.next_pid + 1 < 2 ^ 32 → Step k (fork S forkret trapret cur k).1
    exits :
        (cur : ℕ) (p : Proc) (k' : Kernel M)
        → Current k cur p
        → exit S cur p k ≡ some k'
        → Step k k'
    waits : (cur : ℕ) (p : Proc) → Current k cur p → Step k (wait_pass S cur p k).1
    wait_stats : (cur : ℕ) (p : Proc) → Current k cur p → Step k (wait_stat_pass S cur p k).1
    sleeps : (cur : ℕ) (p : Proc) (c : Option Chan) → Current k cur p → Step k (go_to_sleep cur c k)
    awakes : (cur : ℕ) → Step k (awake cur k)
    yields : (cur : ℕ) (p : Proc) → Current k cur p → Step k (yield cur k)
    wakes : (c : Option Chan) → Step k (wakeup c k)
    kills : (pid : ℕ) → Step k (kill pid k).1
    ticks_on : (c : Option Chan) → k.ticks + 1 < 2 ^ 32 → Step k (timer_tick c k)
    -- The scheduler's choice of a runnable process.
    runs :
        (i : ℕ) (p : Proc)
        → get_elem? k.procs i ≡ some p
        → is_runnable p.state ≡ true
        → Step k (with_proc (with_rest k (S.switchuvm i k.rest)) i (set_state running))
    boots :
        (k' : Kernel M)
        → k.next_pid + 1 < 2 ^ 32
        → userinit S forkret trapret k ≡ some k'
        → Step k k'
    -- Any work of the other parts of the kernel.
    elsewhere : (m : M) → Step k (with_rest k m)

  pub data Reach : Kernel M → Type 0 where
    boot : {k : Kernel M} → IsBoot k → Reach k
    next : {k k' : Kernel M} → Reach k → Step k k' → Reach k'
