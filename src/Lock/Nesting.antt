-- ===== src/Lock/Nesting.antt =====
-- `pushcli` and `popcli` of HW3/spinlock.c undo each other, and a lock keeps the others out.
use operating_systems.Base.{
  ℕ, zero, suc, ◌+◌, ◌-◌, ◌≡◌, ◌≢◌, refl, Bool, true, false, Option, none, some, arith, ◌==◌, ◌∙◌,
  ap,
}
use operating_systems.Lock.{
  Cpu, Spinlock, pushcli, popcli, holding, acquire_panics, spins, acquired, acquire, release,
}

-- `n` calls one after the other.
unfoldable pub pushes : ℕ → Cpu → Cpu
pushes zero c = c
pushes (suc n) c = pushes n (pushcli c)

abbrev pub and_then : Option Cpu → (Cpu → Option Cpu) → Option Cpu
and_then none f = none
and_then (some c) f = f c

unfoldable pub pops : ℕ → Cpu → Option Cpu
pops zero c = some c
pops (suc n) c = and_then (popcli c) (pops n)

-- What a processor looks like at depth `n` when interrupts were `on` outside.
abbrev at_depth : ℕ → Bool → Cpu
at_depth n on = record { ncli = n; intena = on; interrupts = false }

pushes-at_depth : (n m : ℕ) (on : Bool) → pushes n (at_depth (m + 1) on) ≡ at_depth (n + (m + 1)) on
unfolding pushes pushcli
pushes-at_depth zero m on = ap (λ k. at_depth k on) (omega arith)
pushes-at_depth (suc n) m on =
    let busy : (m + 1 == 0) ≡ false = ground arith in
    rw busy (pushes-at_depth n (m + 1) on ∙ ap (λ k. at_depth k on) (omega arith))

pops-suc : (n : ℕ) (c : Cpu) → pops (suc n) c ≡ and_then (popcli c) (pops n)
unfolding pops
pops-suc n c = refl

pushes-suc : (n : ℕ) (c : Cpu) → pushes (suc n) c ≡ pushes n (pushcli c)
unfolding pushes
pushes-suc n c = refl

popcli-at_depth : (n : ℕ) (on : Bool) → popcli (at_depth (n + 2) on) ≡ some (at_depth (n + 1) on)
unfolding popcli
popcli-at_depth n on =
    let busy : (n + 2 == 0) ≡ false = ground arith in
    let less : n + 2 - 1 ≡ n + 1 = omega arith in
    let deep : (n + 1 == 0) ≡ false = ground arith in rw (busy, less, deep) refl

pops-at_depth :
    (n : ℕ) (on : Bool)
    → pops (suc n) (at_depth (n + 1) on) ≡ some (record { ncli = 0; intena = on; interrupts = on })
pops-at_depth zero true = unfold pops popcli in refl
pops-at_depth zero false = unfold pops popcli in refl
pops-at_depth (suc n) on =
    pops-suc (suc n) (at_depth (suc n + 1) on)
    ∙ ap (λ o. and_then o (pops (suc n)))
        (ap (λ k. popcli (at_depth k on)) (omega arith) ∙ popcli-at_depth n on)
    ∙ pops-at_depth n on

pushcli-idle : (c : Cpu) → c.ncli ≡ 0 → pushcli c ≡ at_depth 1 c.interrupts
unfolding pushcli
pushcli-idle c idle = rw idle refl

-- `n + 1` calls of `pushcli` and as many of `popcli` bring a processor outside of any nesting back
-- to where it was, with interrupts on exactly if they were on.
pub pops-pushes :
    (n : ℕ) (c : Cpu)
    → c.ncli ≡ 0
    → pops (suc n) (pushes (suc n) c)
      ≡ some (record { ncli = 0; intena = c.interrupts; interrupts = c.interrupts })
pops-pushes n c idle =
    ap (pops (suc n)) (pushes-suc n c)
    ∙ ap (λ x. pops (suc n) (pushes n x)) (pushcli-idle c idle)
    ∙ ap (pops (suc n))
        (pushes-at_depth n 0 c.interrupts ∙ ap (λ k. at_depth k c.interrupts) (omega arith))
    ∙ pops-at_depth n c.interrupts

-- While processor `me` holds the lock, an `acquire` by another spins, one by itself panics, and a
-- `release` by another panics.
pub acquire_excludes :
    (me : ℕ) (c : Cpu) (lk : Spinlock) (c' : Cpu) (lk' : Spinlock)
    → acquire me c lk ≡ acquired c' lk'
    → (holding me lk' ≡ true)
      × ((d : Cpu) → acquire me d lk' ≡ acquire_panics)
      × ((other : ℕ) (d : Cpu)
          → me ≢ other
          → (acquire other d lk' ≡ spins) × (release other d lk' ≡ none))
unfolding acquire release holding
acquire_excludes me c lk c' lk' e =
    let taken : lk' ≡ record { locked = true; cpu = some me } = ground (arith, e) in
    let me_me : (me == me) ≡ true = ground arith in
    rw taken (
      ground arith,
      λ d. rw me_me refl,
      λ other d ne.
          let apart : (me == other) ≡ false = ground (arith, ne) in (rw apart refl, rw apart refl),
    )
