-- ===== src/Proc/Fairness.antt =====
-- What a pass of `scheduler` of HW3/proc.c dispatches, and in which order.
use operating_systems.Base.{
  ℕ, zero, suc, ◌+◌, ◌<◌, ◌≤◌, ◌≡◌, ◌≢◌, ◌⊎◌, inl, inr, refl, sym, ◌∙◌, true, false, none, some,
  List, [], ◌∷◌, get_elem?, arith, Bool-cases, Option-cases, get_elem?-modify_ne,
}
use native.Mathlib.Decide.{ℕ_discrete}
use operating_systems.Proc.Types.{running, Proc, Kernel, Services, is_runnable, set_state}
use operating_systems.Proc.Sched.{choose_first, dispatch, scheduler_pass, round_robin_pass}

-- `scheduler` dispatches the same processes in the same order as the round robin that it was meant
-- to replace, with the same effect, in every state: the comparison of creation times never decides.
pub scheduler-eq-round_robin :
    {M : Type 0} (S : Services M) (slice : ℕ → Kernel M → Kernel M) (fuel i : ℕ) (k : Kernel M)
    → scheduler_pass S slice fuel i k ≡ round_robin_pass S slice fuel i k
unfolding scheduler_pass round_robin_pass choose_first
scheduler-eq-round_robin S slice zero i k = refl
scheduler-eq-round_robin S slice (suc fuel) i k = elim (Option-cases (get_elem? k.procs i)) [
  | inl e ↦ rw (e, scheduler_pass, round_robin_pass)
  | inr (p, e) ↦ elim (Bool-cases (is_runnable p.state)) [
    | inl r ↦
        rw (e, r, scheduler_pass, round_robin_pass)
          (rw (scheduler-eq-round_robin S slice fuel (i + 1) (dispatch S slice i k)))
    | inr w ↦
        rw (e, w, scheduler_pass, round_robin_pass)
          (scheduler-eq-round_robin S slice fuel (i + 1) k)
  ]
]

-- The process in slot `i` can run.
abbrev pub CanRun : {M : Type 0} → Kernel M → ℕ → Type 0
CanRun k i = (p : Proc) × (get_elem? k.procs i ≡ some p) × (is_runnable p.state ≡ true)

abbrev pub InTrace : ℕ → List ℕ → Type 0
InTrace i [] = ⊥
InTrace i (j ∷ js) = (i ≡ j) ⊎ InTrace i js

get_elem?-none_le {ℓ} :
    {A : Type ℓ} (xs : List A) (j i : ℕ) → get_elem? xs j ≡ none → j ≤ i → get_elem? xs i ≡ none
get_elem?-none_le [] j i e h = refl
get_elem?-none_le (x ∷ xs) zero i e h = absurd (ground arith)
get_elem?-none_le (x ∷ xs) (suc j) zero e h = absurd (omega arith)
get_elem?-none_le (x ∷ xs) (suc j) (suc i) e h = get_elem?-none_le xs j i e (omega arith)

module _ {M : Type 0} (S : Services M) (slice : ℕ → Kernel M → Kernel M) (i : ℕ) where
  -- No time slice of another process takes process `i` out of the state RUNNABLE.
  abbrev pub LeavesRunnable : Type 0
  LeavesRunnable = (c : ℕ) (k : Kernel M) → c ≢ i → CanRun k i → CanRun (slice c k) i

  dispatch-CanRun :
      (j : ℕ) (k : Kernel M) → LeavesRunnable → j ≢ i → CanRun k i → CanRun (dispatch S slice j k) i
  unfolding dispatch
  dispatch-CanRun j k keep ne (p, e, r) =
      keep j _ ne (p, get_elem?-modify_ne k.procs j i (set_state running) ne ∙ e, r)

  -- A pass that starts at or below slot `i` and is given enough rounds dispatches the process
  -- there, if it can run at the start and no other process's time slice takes that away.
  pub scheduler_no_starvation :
      (fuel j : ℕ) (k : Kernel M)
      → LeavesRunnable
      → CanRun k i
      → j ≤ i
      → i < j + fuel
      → InTrace i (scheduler_pass S slice fuel j k).0
  unfolding scheduler_pass choose_first
  scheduler_no_starvation zero j k keep run le lt = absurd (omega arith)
  scheduler_no_starvation (suc fuel) j k keep (q, eq, rq) le lt =
      elim (Option-cases (get_elem? k.procs j)) [
        | inl e ↦ absurd (ground (arith, get_elem?-none_le k.procs j i e le))
        | inr (p, e) ↦ elim (Bool-cases (is_runnable p.state)) [
          | inl r ↦ elim (ℕ_discrete i j) [
            | yes same ↦ rw (e, r, scheduler_pass) (inl same)
            | no other ↦
                rw (e, r, scheduler_pass)
                  (inr (
                    scheduler_no_starvation fuel (j + 1) (dispatch S slice j k) keep
                      (dispatch-CanRun j k keep (λ s. other (sym s)) (q, eq, rq)) (omega arith)
                      (omega arith)))
          ]
          | inr w ↦
              rw (e, w, scheduler_pass)
                (scheduler_no_starvation fuel (j + 1) k keep (q, eq, rq) (later p e w)
                  (omega arith))
        ]
      ]
    where
      later : (p : Proc) → get_elem? k.procs j ≡ some p → is_runnable p.state ≡ false → j + 1 ≤ i
      later p e w = elim (ℕ_discrete i j) [
        | yes same ↦ absurd (ground arith)
        | no other ↦ omega arith
      ]

module _ {M : Type 0} (S : Services M) (slice : ℕ → Kernel M → Kernel M) where
  -- The first process that a pass dispatches is the one in the lowest slot that can run, whatever
  -- the creation times are.
  pub scheduler_lowest_first :
      (fuel j i : ℕ) (k : Kernel M)
      → CanRun k i
      → ((h : ℕ) (p : Proc)
          → j ≤ h
          → h < i
          → get_elem? k.procs h ≡ some p
          → is_runnable p.state ≡ false)
      → j ≤ i
      → i < j + fuel
      → (rest : List ℕ) × ((scheduler_pass S slice fuel j k).0 ≡ i ∷ rest)
  unfolding scheduler_pass choose_first
  scheduler_lowest_first zero j i k run before le lt = absurd (omega arith)
  scheduler_lowest_first (suc fuel) j i k (q, eq, rq) before le lt = elim (ℕ_discrete i j) [
    | yes same ↦
        let e : get_elem? k.procs j ≡ some q = rw (← same) eq in
        (
          (scheduler_pass S slice fuel (j + 1) (dispatch S slice j k)).0,
          rw (e, rq, scheduler_pass) (rw same),
        )
    | no other ↦ elim (Option-cases (get_elem? k.procs j)) [
      | inl e ↦ absurd (ground (arith, get_elem?-none_le k.procs j i e le))
      | inr (p, e) ↦
          rw (e, before j p (omega arith) (omega arith) e, scheduler_pass)
            (scheduler_lowest_first fuel (j + 1) i k (q, eq, rq)
              (λ h r le'. before h r (omega arith)) (omega arith) (omega arith))
    ]
  ]
