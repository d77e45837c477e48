-- ===== src/Proc/PreserveExit.antt =====
-- `exit`, `wait` and `wait_stat` of HW3/proc.c keep the invariant of the table.
use mathlib.Core.Option.{some-injective}
use operating_systems.Base.{
  subst, sym, ◌∙◌, get_elem?-map, get_elem?-modify_self, ℕ, ◌≡◌, ◌||◌, not, inl, inr, refl, Bool,
  true, false, Option, none, some, List, get_elem?, arith, Option-cases, Bool-cases, for_range_inv,
  length, modify, map,
}
use operating_systems.Proc.Types.{
  Proc, Kernel, Services, Chan, running, is_unused, at_proc, is_zombie, points_to, with_proc,
  with_rest,
}
use operating_systems.Proc.Signal.{proc_chan, wakeup1, wake_one, wakeup}
use operating_systems.Proc.Finish.{
  abandon, reparent, close_files, scan_children, exit_table, exit, reap, clear_slot,
  clear_stat_slot, wait_scanned, wait_pass, wait_stat_scanned, wait_stat_pass,
}
use operating_systems.Proc.Orphans.{reparent_exact}
use operating_systems.Proc.Invariant.{Used, Inv, with_proc-Inv, with_rest-Inv, with_proc-Quiet}
use operating_systems.Proc.Preserve.{Current, wakeup-Inv, go_to_sleep-Inv}

-- The invariant of `k` with the table `procs` in the place of its own.
abbrev WithTable : {M : Type 0} → Kernel M → List Proc → Type 0
WithTable k procs = Inv (record k { procs = procs })

module _ {M : Type 0} (k : Kernel M) where
  adopt-Inv :
      (i : ℕ) (init : Option ℕ) (procs : List Proc)
      → WithTable k procs
      → WithTable k (modify procs i (λ q. record q { parent = init }))
  adopt-Inv i init procs v =
      with_proc-Quiet (record k { procs = procs }) i _
        (λ q e. record {
          used = λ u. u;
          zombie = λ z. z;
          pid = refl;
          clocks = (refl, refl, refl, refl);
          ttime = refl;
        })
        v

  wakeup1-Inv :
      (init : Option ℕ) (procs : List Proc)
      → WithTable k procs
      → WithTable k (wakeup1 (proc_chan init) procs)
  unfolding wakeup
  wakeup1-Inv init procs v = wakeup-Inv (record k { procs = procs }) v (proc_chan init)

  abandon-Inv :
      (cur : ℕ) (init : Option ℕ) (i : ℕ) (procs : List Proc)
      → WithTable k procs
      → WithTable k (abandon cur init i procs)
  unfolding abandon
  abandon-Inv cur init i procs v = elim (Option-cases (get_elem? procs i)) [
    | inl e ↦ rw (e, abandon) v
    | inr (p, e) ↦ elim (Bool-cases (points_to cur p.parent)) [
      | inl child ↦ elim (Bool-cases (is_zombie p.state)) [
        | inl z ↦ rw (e, child, z, abandon) (wakeup1-Inv init _ (adopt-Inv i init procs v))
        | inr z ↦ rw (e, child, z, abandon) (adopt-Inv i init procs v)
      ]
      | inr other ↦ rw (e, other, abandon) v
    ]
  ]

  reparent-Inv :
      (cur : ℕ) (init : Option ℕ) (procs : List Proc)
      → WithTable k procs
      → WithTable k (reparent cur init procs)
  unfolding reparent
  reparent-Inv cur init procs v =
      for_range_inv (λ _. WithTable k) (abandon cur init) (length procs)
        (λ i s lt. abandon-Inv cur init i s) (length procs) 0 procs (omega arith) v

-- The running process stays in use while its children are passed on.
reparent-Used :
    (cur : ℕ) (init : Option ℕ) (c : Option Chan) (procs : List Proc) (p q : Proc)
    → get_elem? procs cur ≡ some p
    → p.state ≡ running
    → get_elem? (reparent cur init (wakeup1 c procs)) cur ≡ some q
    → Used q
unfolding wakeup1
reparent-Used cur init c procs p q e runs g =
    let awake : get_elem? (wakeup1 c procs) cur ≡ some p =
      get_elem?-map (wake_one c) procs cur ∙ rw (e, runs) in
    let (q', g', a) = reparent_exact cur init (wakeup1 c procs) cur p awake in
    ground (arith, a.state, some-injective q' q (sym g' ∙ g))

module _ {M : Type 0} (S : Services M) (cur : ℕ) (p : Proc) where
  exit_table-Inv : (k : Kernel M) (r : Proc) → Current k cur r → Inv k → Inv (exit_table S cur p k)
  unfolding exit_table
  exit_table-Inv k r here v =
      with_proc-Inv (record k { procs = procs }) cur _ (λ q e u. (used q e, refl))
        (λ q e h. record {
          counted = λ u. h.counted (used q e);
          ended = λ z. (h.counted (used q e), omega arith);
        })
        (reparent-Inv k cur k.initproc (wakeup1 (proc_chan p.parent) k.procs)
          (wakeup1-Inv k p.parent k.procs v))
    where
      procs : List Proc
      procs = reparent cur k.initproc (wakeup1 (proc_chan p.parent) k.procs)

      used : (q : Proc) → get_elem? procs cur ≡ some q → Used q
      used q e = reparent-Used cur k.initproc (proc_chan p.parent) k.procs r q here.here here.runs e

  closed-Inv :
      (k : Kernel M) (m : M)
      → Inv k
      → Inv (
          with_rest
            (with_proc k cur (λ q. record q { ofile = map (λ _. none) q.ofile; cwd = none }))
            m)
  closed-Inv k m v = with_rest-Inv _ m (
      with_proc-Quiet k cur _
        (λ q e. record {
          used = λ u. u;
          zombie = λ z. z;
          pid = refl;
          clocks = (refl, refl, refl, refl);
          ttime = refl;
        })
        v)

  -- The state in which `exit` takes the table lock.
  abbrev pub closed : Kernel M → Kernel M
  closed k =
      with_rest (with_proc k cur (λ q. record q { ofile = map (λ _. none) q.ofile; cwd = none }))
        (S.end_op (S.iput p.cwd (S.begin_op (close_files S p.ofile k.rest))))

  pub exit-not_init :
      (k : Kernel M)
      → points_to cur k.initproc ≡ false
      → exit S cur p k ≡ some (exit_table S cur p (closed k))
  unfolding exit
  exit-not_init k e = rw e

  -- `exit` of the running process keeps the invariant; the exit time is not before the last
  -- tick that was counted.
  pub exit-Inv : (k k' : Kernel M) → Current k cur p → exit S cur p k ≡ some k' → Inv k → Inv k'
  unfolding exit
  exit-Inv k k' here e v = elim (Bool-cases (points_to cur k.initproc)) [
    | inl init ↦ absurd (ground arith)
    | inr other ↦
        subst Inv
          (some-injective (exit_table S cur p (closed k)) k' (sym (exit-not_init k other) ∙ e))
          (exit_table-Inv (closed k) (record p { ofile = map (λ _. none) p.ofile; cwd = none })
            (record { here = get_elem?-modify_self k.procs cur _ ∙ rw here.here; runs = here.runs })
            (closed-Inv k _ v))
  ]

  reap-Inv :
      (clear : Proc → Proc) (i : ℕ) (z : Proc) (k : Kernel M)
      → ((q : Proc) → is_unused (clear q).state ≡ true)
      → Inv k
      → Inv (reap S clear i z k)
  unfolding reap
  reap-Inv clear i z k cleared v = with_rest-Inv _ _ (
      with_proc-Inv k i clear (λ q e u. absurd (ground (arith, cleared q)))
        (λ q e h. record {
          counted = λ u. absurd (ground (arith, cleared q));
          ended = λ z. absurd (ground (arith, cleared q));
        })
        v)

  wait_scanned-Inv :
      (r : Option ℕ × Bool) (k : Kernel M)
      → Current k cur p
      → Inv k
      → Inv (wait_scanned S cur p r k).1
  unfolding wait_scanned
  wait_scanned-Inv (some i, h) k here v = elim (Option-cases (get_elem? k.procs i)) [
    | inl e ↦ rw (e, wait_scanned) v
    | inr (z, e) ↦ rw (e, wait_scanned) (reap-Inv clear_slot i z k (λ q. refl) v)
  ]
  wait_scanned-Inv (none, h) k here v = elim (Bool-cases (not h || p.killed)) [
    | inl t ↦ rw t v
    | inr f ↦ rw f (go_to_sleep-Inv k v cur p (some (at_proc cur)) here)
  ]

  -- A pass of `wait` keeps the invariant, whatever it finds.
  pub wait_pass-Inv : (k : Kernel M) → Current k cur p → Inv k → Inv (wait_pass S cur p k).1
  unfolding wait_pass
  wait_pass-Inv k here v = wait_scanned-Inv (scan_children cur k.procs 0 false) k here v

  wait_stat_scanned-Inv :
      (r : Option ℕ × Bool) (k : Kernel M)
      → Current k cur p
      → Inv k
      → Inv (wait_stat_scanned S cur p r k).1
  unfolding wait_stat_scanned
  wait_stat_scanned-Inv (some i, h) k here v = elim (Option-cases (get_elem? k.procs i)) [
    | inl e ↦ rw (e, wait_stat_scanned) v
    | inr (z, e) ↦ rw (e, wait_stat_scanned) (reap-Inv clear_stat_slot i z k (λ q. refl) v)
  ]
  wait_stat_scanned-Inv (none, h) k here v = elim (Bool-cases (not h || p.killed)) [
    | inl t ↦ rw t v
    | inr f ↦ rw f (go_to_sleep-Inv k v cur p (some (at_proc cur)) here)
  ]

  pub wait_stat_pass-Inv :
      (k : Kernel M) → Current k cur p → Inv k → Inv (wait_stat_pass S cur p k).1
  unfolding wait_stat_pass
  wait_stat_pass-Inv k here v = wait_stat_scanned-Inv (scan_children cur k.procs 0 false) k here v
