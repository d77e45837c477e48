-- ===== src/Lock.antt =====
-- HW3/spinlock.c: `acquire`, `release`, `holding`, `pushcli` and `popcli`.
use operating_systems.Base.{
  ℕ, ◌+◌, ◌-◌, ◌&&◌, not, Bool, true, false, Option, none, some, ◌==◌, if◌then◌else◌, zero, suc,
}
pub mod Nesting
mod Tests

-- The part of a processor that they use: the nesting depth, whether interrupts were on before it,
-- and the interrupt flag.
pub record Cpu : Type 0 where
  pub ncli : ℕ
  pub intena : Bool
  pub interrupts : Bool

-- `struct spinlock` without what is there for debugging.
pub record Spinlock : Type 0 where
  pub locked : Bool
  pub cpu : Option ℕ

unfoldable pub pushcli : Cpu → Cpu
pushcli c = record {
  ncli = c.ncli + 1;
  intena = if c.ncli == 0 then c.interrupts else c.intena;
  interrupts = false;
}

-- `popcli`; none is one of its two panics.
unfoldable pub popcli : Cpu → Option Cpu
popcli c =
    if c.interrupts
    then none
    else if c.ncli == 0
    then none
    else some (record c {
      ncli = c.ncli - 1;
      interrupts = if c.ncli - 1 == 0 && c.intena then true else c.interrupts;
    })

abbrev pub is_cpu : ℕ → Option ℕ → Bool
is_cpu me none = false
is_cpu me (some i) = i == me

unfoldable pub holding : ℕ → Spinlock → Bool
holding me lk = lk.locked && is_cpu me lk.cpu

-- One round of `acquire` on processor `me`: its panic, a round of the loop that found the lock taken,
-- or the lock.
pub data AcquireEnd : Type 0 where
  acquire_panics : AcquireEnd
  spins : AcquireEnd
  acquired : Cpu → Spinlock → AcquireEnd

unfoldable pub acquire : ℕ → Cpu → Spinlock → AcquireEnd
acquire me c lk =
    if holding me lk
    then acquire_panics
    else if lk.locked
    then spins
    else acquired (pushcli c) (record { locked = true; cpu = some me })

abbrev pub unlocked : Option Cpu → Option (Cpu × Spinlock)
unlocked none = none
unlocked (some c) = some (c, record { locked = false; cpu = none })

-- `release`; none is its panic or that of `popcli`.
unfoldable pub release : ℕ → Cpu → Spinlock → Option (Cpu × Spinlock)
release me c lk = if not (holding me lk) then none else unlocked (popcli c)
