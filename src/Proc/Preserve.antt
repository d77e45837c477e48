-- ===== src/Proc/Preserve.antt =====
-- The operations of HW3/proc.c keep the invariant of the table: those that sleep, wake and count.
use operating_systems.Base.{
  ℕ, ◌+◌, ◌<◌, ◌^◌, ◌≡◌, inl, inr, refl, false, Option, some, get_elem?, arith, Option-cases,
  find_index, add32, ◌==◌, All-map, All-imp,
}
use operating_systems.Proc.Types.{
  Proc, Kernel, Chan, ProcState, is_zombie, running, runnable, set_state,
}
use operating_systems.Proc.Signal.{
  wake_one, wakeup1, wakeup, go_to_sleep, awake, yield, mark_killed, kill, count_tick, update_stat,
  timer_tick,
}
use operating_systems.Proc.Kills.{kill-found, kill-missing}
use operating_systems.Proc.Invariant.{
  Used, KeepsPid, Quiet, with_proc-Quiet, map_procs-Quiet, Timed, Inv, KeepsPids-map,
  KeepsPids-PidsOk, with_proc-Inv,
}

wake_one-Quiet : (c : Option Chan) (p : Proc) → Quiet p (wake_one c p)
wake_one-Quiet c p = record {
  used = λ u. ground arith;
  zombie = λ z. ground arith;
  pid = ground arith;
  clocks = ground arith;
  ttime = ground arith;
}

-- The state alone is set, to one that is neither UNUSED nor ZOMBIE, for a process in use.
pub set_state-Quiet :
    (s : ProcState) (p : Proc) → Used p → is_zombie s ≡ false → Quiet p (set_state s p)
set_state-Quiet s p u z = record {
  used = λ _. u;
  zombie = λ z'. absurd (ground arith);
  pid = refl;
  clocks = (refl, refl, refl, refl);
  ttime = refl;
}

mark_killed-Timed : (t : ℕ) (p : Proc) → Timed t p → Timed t (mark_killed t p)
unfolding mark_killed
mark_killed-Timed t p h = record {
  counted = λ u. h.counted (ground arith);
  ended = λ z. (h.counted (ground arith), omega arith);
}

mark_killed-KeepsPid : (t : ℕ) (p : Proc) → KeepsPid p (mark_killed t p)
unfolding mark_killed
mark_killed-KeepsPid t p u = (ground arith, refl)

-- With no overflow a tick adds at most one to what has been counted.
count_tick-Timed :
    (t : ℕ) (p : Proc) → t + 1 < 2 ^ 32 → Timed t p → Timed (t + 1) (count_tick p.state p)
count_tick-Timed t p small h = record {
  counted = λ u. ground (arith, h.counted (ground arith));
  ended = λ z. ground (arith, h.ended (ground arith));
}

count_tick-KeepsPid : (p : Proc) → KeepsPid p (count_tick p.state p)
count_tick-KeepsPid p u = ground arith

-- The process that runs on a processor.
pub record Current {M : Type 0} (k : Kernel M) (cur : ℕ) (p : Proc) : Type 0 where
  pub here : get_elem? k.procs cur ≡ some p
  pub runs : p.state ≡ running

module _ {M : Type 0} (k : Kernel M) (v : Inv k) where
  pub wakeup-Inv : (c : Option Chan) → Inv (wakeup c k)
  unfolding wakeup wakeup1
  wakeup-Inv c = map_procs-Quiet k (wake_one c) (wake_one-Quiet c) v

  pub awake-Inv : (cur : ℕ) → Inv (awake cur k)
  unfolding awake
  awake-Inv cur =
      with_proc-Quiet k cur _
        (λ p e. record {
          used = λ u. u;
          zombie = λ z. z;
          pid = refl;
          clocks = (refl, refl, refl, refl);
          ttime = refl;
        })
        v

  Used-at : (cur : ℕ) (p q : Proc) → Current k cur p → get_elem? k.procs cur ≡ some q → Used q
  Used-at cur p q here e = ground (arith, here.here, here.runs)

  pub go_to_sleep-Inv :
      (cur : ℕ) (p : Proc) (c : Option Chan) → Current k cur p → Inv (go_to_sleep cur c k)
  unfolding go_to_sleep
  go_to_sleep-Inv cur p c here =
      with_proc-Quiet k cur _
        (λ q e. record {
          used = λ _. Used-at cur p q here e;
          zombie = λ z. absurd (ground arith);
          pid = refl;
          clocks = (refl, refl, refl, refl);
          ttime = refl;
        })
        v

  pub yield-Inv : (cur : ℕ) (p : Proc) → Current k cur p → Inv (yield cur k)
  unfolding yield
  yield-Inv cur p here =
      with_proc-Quiet k cur _ (λ q e. set_state-Quiet runnable q (Used-at cur p q here e) refl) v

  pub kill-Inv : (pid : ℕ) → Inv (kill pid k).1
  kill-Inv pid = elim (Option-cases (find_index (λ p. p.pid == pid) k.procs)) [
    | inl e ↦ rw (kill-missing pid k e) v
    | inr (i, e) ↦ rw (kill-found pid k i e) (
        with_proc-Inv k i (mark_killed k.ticks) (λ p g. mark_killed-KeepsPid k.ticks p)
          (λ p g. mark_killed-Timed k.ticks p) v)
  ]

  tick-Inv : k.ticks + 1 < 2 ^ 32 → Inv (update_stat (record k { ticks = k.ticks + 1 }))
  unfolding update_stat
  tick-Inv small = record {
    pids =
        KeepsPids-PidsOk k.procs _ k.next_pid (KeepsPids-map _ k.procs count_tick-KeepsPid) v.pids;
    times =
        All-map (Timed (k.ticks + 1)) (λ p. count_tick p.state p) k.procs
          (All-imp (Timed k.ticks) (λ p. Timed (k.ticks + 1) (count_tick p.state p))
            (λ p. count_tick-Timed k.ticks p small) k.procs v.times);
  }

module _ {M : Type 0} (k : Kernel M) (v : Inv k) where
  pub timer_tick-Inv : (c : Option Chan) → k.ticks + 1 < 2 ^ 32 → Inv (timer_tick c k)
  unfolding timer_tick
  timer_tick-Inv c small =
      let e : add32 k.ticks 1 ≡ k.ticks + 1 = omega arith in
      rw e (wakeup-Inv (update_stat (record k { ticks = k.ticks + 1 })) (tick-Inv k v small) c)
