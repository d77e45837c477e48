-- ===== src/Proc/Invariant.antt =====
-- What holds of the process table of HW3/proc.c between its operations: pids and clocks.
use mathlib.Core.Option
use mathlib.Core.Option.{some-injective}
use native.Mathlib.Decide.{ℕ_discrete}
use operating_systems.Base.{
  ℕ, ◌+◌, ◌<◌, ◌≤◌, ◌≡◌, refl, ◌∙◌, sym, true, false, Option, none, some, List, map, get_elem?,
  arith, All, All-map, All-modify, get_elem?-map, modify, get_elem?-modify_self,
  get_elem?-modify_ne, All-imp, subst,
}
use operating_systems.Proc.Types.{Proc, Kernel, is_unused, is_zombie, with_proc, with_rest}

abbrev pub Used : Proc → Type 0
Used p = is_unused p.state ≡ false

-- The pids in use are below the next one, and no two slots share one.
pub record PidsOk (procs : List Proc) (next : ℕ) : Type 0 where
  pub below : (i : ℕ) (p : Proc) → get_elem? procs i ≡ some p → Used p → p.pid < next
  pub distinct :
      (i j : ℕ) (p q : Proc)
      → get_elem? procs i ≡ some p
      → get_elem? procs j ≡ some q
      → Used p
      → Used q
      → p.pid ≡ q.pid
      → i ≡ j

-- The clocks of a process: it has been counted at most once a tick since its creation, and a
-- zombie not beyond its end.
pub record Timed (ticks : ℕ) (p : Proc) : Type 0 where
  pub counted : Used p → p.ctime + (p.stime + p.retime + p.rutime) ≤ ticks
  pub ended :
      is_zombie p.state ≡ true
      → (p.ctime + (p.stime + p.retime + p.rutime) ≤ p.ttime) × (p.ttime ≤ ticks)

pub record Inv {M : Type 0} (k : Kernel M) : Type 0 where
  pub pids : PidsOk k.procs k.next_pid
  pub times : All (Timed k.ticks) k.procs

-- A slot in use held a process with the same pid before.
abbrev pub KeepsPids : List Proc → List Proc → Type 0
KeepsPids old new =
    (i : ℕ) (q : Proc)
    → get_elem? new i ≡ some q
    → Used q
    → (p : Proc) × (get_elem? old i ≡ some p) × Used p × (p.pid ≡ q.pid)

-- One assignment does.
abbrev pub KeepsPid : Proc → Proc → Type 0
KeepsPid p q = Used q → Used p × (p.pid ≡ q.pid)

pub KeepsPids-PidsOk :
    (old new : List Proc) (next : ℕ) → KeepsPids old new → PidsOk old next → PidsOk new next
KeepsPids-PidsOk old new next keep ok = record {
  below = λ i q g u. let (p, e, v, same) = keep i q g u in omega (arith, ok.below i p e v);
  distinct = λ i j q r gi gj ui uj eq.
      let (p, e, v, same) = keep i q gi ui in
      let (p', e', v', same') = keep j r gj uj in
      ok.distinct i j p p' e e' v v' (same ∙ eq ∙ sym same');
}

pub some_of_map :
    (f : Proc → Proc) (o : Option Proc) (q : Proc)
    → Option.map f o ≡ some q
    → (p : Proc) × (o ≡ some p) × (f p ≡ q)
some_of_map f none q e = absurd (ground arith)
some_of_map f (some p) q e = (p, refl, some-injective (f p) q e)

KeepsPid-move :
    (p q : Proc) (o : Option Proc)
    → o ≡ some p
    → KeepsPid p q
    → Used q
    → (r : Proc) × (o ≡ some r) × Used r × (r.pid ≡ q.pid)
KeepsPid-move p q o e keep u = (p, e, (keep u).0, (keep u).1)

pub KeepsPids-map :
    (f : Proc → Proc) (procs : List Proc)
    → ((p : Proc) → KeepsPid p (f p))
    → KeepsPids procs (map f procs)
KeepsPids-map f procs keep i q g u =
    let (p, e, same) = some_of_map f (get_elem? procs i) q (sym (get_elem?-map f procs i) ∙ g) in
    KeepsPid-move p q (get_elem? procs i) e (subst (KeepsPid p) same (keep p)) u

pub KeepsPids-modify :
    (procs : List Proc) (i : ℕ) (f : Proc → Proc)
    → ((p : Proc) → get_elem? procs i ≡ some p → KeepsPid p (f p))
    → KeepsPids procs (modify procs i f)
KeepsPids-modify procs i f keep j q g u = elim (ℕ_discrete i j) [
  | yes same ↦
      let at_i : get_elem? (modify procs i f) i ≡ some q =
        subst (λ x. get_elem? (modify procs i f) x ≡ some q) (sym same) g in
      let (p, e, eq) =
        some_of_map f (get_elem? procs i) q (sym (get_elem?-modify_self procs i f) ∙ at_i) in
      rw (← same) (KeepsPid-move p q (get_elem? procs i) e (subst (KeepsPid p) eq (keep p e)) u)
  | no other ↦ (q, sym (get_elem?-modify_ne procs i j f other) ∙ g, u, refl)
]

pub KeepsPids-trans : (a b c : List Proc) → KeepsPids a b → KeepsPids b c → KeepsPids a c
KeepsPids-trans a b c f g i r e u =
    let (q, e', u', same) = g i r e u in
    let (p, e'', u'', same') = f i q e' u' in (p, e'', u'', same' ∙ same)

-- Time goes on.
pub Timed-later : (t t' : ℕ) (p : Proc) → t ≤ t' → Timed t p → Timed t' p
Timed-later t t' p le h = record {
  counted = λ u. omega (arith, h.counted u);
  ended = λ z. ((h.ended z).0, omega (arith, (h.ended z).1));
}

-- An assignment that leaves pid, clocks and end time alone, and brings no free slot into use and
-- no process to ZOMBIE.
pub record Quiet (p q : Proc) : Type 0 where
  pub used : Used q → Used p
  pub zombie : is_zombie q.state ≡ true → is_zombie p.state ≡ true
  pub pid : p.pid ≡ q.pid
  pub clocks :
      (p.ctime ≡ q.ctime) × (p.stime ≡ q.stime) × (p.retime ≡ q.retime) × (p.rutime ≡ q.rutime)
  pub ttime : p.ttime ≡ q.ttime

Quiet-KeepsPid : (p q : Proc) → Quiet p q → KeepsPid p q
Quiet-KeepsPid p q h u = (h.used u, h.pid)

Quiet-Timed : (t : ℕ) (p q : Proc) → Quiet p q → Timed t p → Timed t q
Quiet-Timed t p q h v = record {
  counted = λ u. omega (arith, v.counted (h.used u));
  ended = λ z. omega (arith, v.ended (h.zombie z));
}

module _ {M : Type 0} (k : Kernel M) where
  -- An assignment to one slot that suits what stands there keeps the invariant.
  pub with_proc-Inv :
      (i : ℕ) (f : Proc → Proc)
      → ((p : Proc) → get_elem? k.procs i ≡ some p → KeepsPid p (f p))
      → ((p : Proc) → get_elem? k.procs i ≡ some p → Timed k.ticks p → Timed k.ticks (f p))
      → Inv k
      → Inv (with_proc k i f)
  with_proc-Inv i f keep time v = record {
    pids =
        KeepsPids-PidsOk k.procs (modify k.procs i f) k.next_pid (KeepsPids-modify k.procs i f keep)
          v.pids;
    times = All-modify (Timed k.ticks) k.procs i f time v.times;
  }

  -- So does a loop that suits every slot.
  pub map_procs-Inv :
      (f : Proc → Proc)
      → ((p : Proc) → KeepsPid p (f p))
      → ((p : Proc) → Timed k.ticks p → Timed k.ticks (f p))
      → Inv k
      → Inv (record k { procs = map f k.procs })
  map_procs-Inv f keep time v = record {
    pids =
        KeepsPids-PidsOk k.procs (map f k.procs) k.next_pid (KeepsPids-map f k.procs keep) v.pids;
    times =
        All-map (Timed k.ticks) f k.procs
          (All-imp (Timed k.ticks) (λ p. Timed k.ticks (f p)) time k.procs v.times);
  }

  pub with_rest-Inv : (m : M) → Inv k → Inv (with_rest k m)
  with_rest-Inv m v = record { pids = v.pids; times = v.times }

  pub with_proc-Quiet :
      (i : ℕ) (f : Proc → Proc)
      → ((p : Proc) → get_elem? k.procs i ≡ some p → Quiet p (f p))
      → Inv k
      → Inv (with_proc k i f)
  with_proc-Quiet i f quiet =
      with_proc-Inv i f (λ p e. Quiet-KeepsPid p (f p) (quiet p e))
        (λ p e. Quiet-Timed k.ticks p (f p) (quiet p e))

  pub map_procs-Quiet :
      (f : Proc → Proc)
      → ((p : Proc) → Quiet p (f p))
      → Inv k
      → Inv (record k { procs = map f k.procs })
  map_procs-Quiet f quiet =
      map_procs-Inv f (λ p. Quiet-KeepsPid p (f p) (quiet p))
        (λ p. Quiet-Timed k.ticks p (f p) (quiet p))
