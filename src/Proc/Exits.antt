-- ===== src/Proc/Exits.antt =====
-- What `exit` of HW3/proc.c has done to each process when it calls `sched`.
use mathlib.Core.Option.{some-injective}
use operating_systems.Base.{
  ℕ, ◌≡◌, ◌≢◌, ◌⊎◌, inl, inr, refl, sym, ◌∙◌, ap, true, Option, none, some, List, map, get_elem?,
  get_elem?-modify, get_elem?-map, arith, ◌&&◌, ◌||◌, false, Bool-cases, if◌then◌else◌,
}
use operating_systems.Proc.Types.{
  Proc, ProcState, Kernel, Services, Chan, sleeping, runnable, zombie, points_to, is_sleeping,
  same_chan,
}
use operating_systems.Proc.Signal.{wake_one, wakeup1, proc_chan}
use operating_systems.Proc.Finish.{exit, exit_table, reparent}
use operating_systems.Proc.Orphans.{Adopted, reparent_exact}
use operating_systems.Proc.PreserveExit.{closed, exit-not_init}

-- The state `s` that `p` is left in when those that sleep on `c` are woken, and maybe those on `d`.
abbrev pub WokenOn : Option Chan → Option Chan → Proc → ProcState → Type 0
WokenOn c d p s =
    ((s ≡ p.state) × ((is_sleeping p.state && same_chan p.chan c) ≡ false))
    ⊎ ((p.state ≡ sleeping) × (s ≡ runnable) × ((same_chan p.chan c || same_chan p.chan d) ≡ true))

-- What a process `p` has become when the one in slot `cur` has passed on its children and ended.
pub record Ended (cur ticks : ℕ) (init : Option ℕ) (c : Option Chan) (j : ℕ) (p q : Proc)
    : Type 0 where
  pub parent : q.parent ≡ (if points_to cur p.parent then init else p.parent)
  pub own : cur ≡ j → q ≡ record p { parent = q.parent; ttime = ticks; state = zombie }
  pub other :
      cur ≢ j
      → (q ≡ record p { parent = q.parent; state = q.state }) × WokenOn c (proc_chan init) p q.state

module _ (cur ticks : ℕ) (init : Option ℕ) (c : Option Chan) (j : ℕ) (p q : Proc) where
  end_it : Proc → Proc
  end_it r = record r { ttime = ticks; state = zombie }

  only_state :
      (parent : Option ℕ) (state : ProcState)
      → record (wake_one c p) { parent = parent; state = state }
        ≡ record p { parent = parent; state = state }
  only_state parent state = elim (Bool-cases (is_sleeping p.state && same_chan p.chan c)) [
    | inl t ↦ rw t refl
    | inr f ↦ rw f refl
  ]

  woken-Adopted : Adopted cur init true (wake_one c p) q → record {
    parent : q.parent ≡ (if points_to cur p.parent then init else p.parent);
    rest : q ≡ record p { parent = q.parent; state = q.state };
    state : WokenOn c (proc_chan init) p q.state;
  }
  woken-Adopted a = record {
    parent = ground (arith, a.parent);
    rest = a.rest ∙ only_state q.parent q.state;
    state = ground (arith, a.state);
  }

  Ended-own :
      cur ≡ j → Adopted cur init true (wake_one c p) q → Ended cur ticks init c j p (end_it q)
  unfolding end_it
  Ended-own same a = record {
    parent = parent;
    own = λ _. ap (λ (r : Proc). record r { ttime = ticks; state = zombie }) rest;
    other = λ ne. absurd (ne same);
  }
    where
      open (woken-Adopted a) use {parent, rest}

  Ended-other : cur ≢ j → Adopted cur init true (wake_one c p) q → Ended cur ticks init c j p q
  Ended-other ne a = record {
    parent = parent;
    own = λ e. absurd (ne e);
    other = λ _. (rest, state);
  }
    where
      open (woken-Adopted a) use {parent, rest, state}

-- What the process `p` in slot `j` has become when the one in slot `cur` is through with `exit`.
abbrev pub Exited : {M : Type 0} → ℕ → Proc → Kernel M → ℕ → Proc → Proc → Type 0
Exited cur me k j p q =
    (q.parent ≡ (if points_to cur p.parent then k.initproc else p.parent))
    × (cur ≢ j
        → (q ≡ record p { parent = q.parent; state = q.state })
          × WokenOn (proc_chan me.parent) (proc_chan k.initproc) p q.state)
    × (cur ≡ j
        → q ≡ record p {
          parent = q.parent;
          state = zombie;
          ttime = k.ticks;
          cwd = none;
          ofile = map (λ _. none) p.ofile;
        })

module _ {M : Type 0} (S : Services M) (cur : ℕ) (me : Proc) where
  exit_table_at :
      (k : Kernel M) (j : ℕ) (p : Proc)
      → get_elem? k.procs j ≡ some p
      → (q : Proc) × (get_elem? (exit_table S cur me k).procs j ≡ some q)
        × Ended cur k.ticks k.initproc (proc_chan me.parent) j p q
  unfolding exit_table wakeup1 end_it
  exit_table_at k j p e =
      let (q, g, a) =
        reparent_exact cur k.initproc (wakeup1 c k.procs) j (wake_one c p)
          (get_elem?-map (wake_one c) k.procs j ∙ rw e) in
      at_end q a (get_elem?-modify (reparent cur k.initproc (wakeup1 c k.procs)) cur j _ q g)
    where
      c : Option Chan
      c = proc_chan me.parent

      done : List Proc
      done = (exit_table S cur me k).procs

      at_end :
          (q : Proc)
          → Adopted cur k.initproc true (wake_one c p) q
          → ((cur ≡ j) × (get_elem? done j ≡ some (end_it cur k.ticks k.initproc c j p q q)))
            ⊎ ((cur ≢ j) × (get_elem? done j ≡ some q))
          → (q : Proc) × (get_elem? done j ≡ some q)
            × Ended cur k.ticks k.initproc (proc_chan me.parent) j p q
      at_end q a (inl (same, g)) = (_, g, Ended-own cur k.ticks k.initproc c j p q same a)
      at_end q a (inr (ne, g)) = (q, g, Ended-other cur k.ticks k.initproc c j p q ne a)

  -- Every process after `exit` of the one in slot `cur`: its parent is init if it was a child of the
  -- caller, and the same otherwise; beside that another process is as it was, where it does not sleep
  -- on the caller's parent, or woken from a sleep on that parent or on init; the caller is a ZOMBIE with
  -- the time of its end, no open file and no directory, and all else of it is as it was.
  pub exit_effect :
      (k k' : Kernel M)
      → exit S cur me k ≡ some k'
      → (j : ℕ) (p : Proc) → get_elem? k.procs j ≡ some p
      → (q : Proc) × (get_elem? k'.procs j ≡ some q) × Exited cur me k j p q
  unfolding exit
  exit_effect k k' e j p g = elim (Bool-cases (points_to cur k.initproc)) [
    | inl init ↦ absurd (ground arith)
    | inr live ↦
        rw
          (← some-injective (exit_table S cur me (closed S cur me k)) k'
            (sym (exit-not_init S cur me k live) ∙ e))
          (from_closed (get_elem?-modify k.procs cur j _ p g))
  ]
    where
      shut : Proc → Proc
      shut q = record q { ofile = map (λ _. none) q.ofile; cwd = none }

      from_closed :
          ((cur ≡ j) × (get_elem? (closed S cur me k).procs j ≡ some (shut p)))
            ⊎ ((cur ≢ j) × (get_elem? (closed S cur me k).procs j ≡ some p))
          → (q : Proc) × (get_elem? (exit_table S cur me (closed S cur me k)).procs j ≡ some q)
            × Exited cur me k j p q
      from_closed (inl (same, g')) =
          let (q, h, d) = exit_table_at (closed S cur me k) j (shut p) g' in
          (q, h, (d.parent, (λ ne. absurd (ne same)), d.own))
      from_closed (inr (ne, g')) =
          let (q, h, d) = exit_table_at (closed S cur me k) j p g' in
          (q, h, (d.parent, d.other, λ e. absurd (ne e)))
