-- ===== src/Lock/Tests.antt =====
-- The theorems on HW3/spinlock.c at a processor with interrupts on.
use operating_systems.Base.{true, false, none, some}
use operating_systems.Lock.{Cpu, Spinlock}

abbrev outside : Cpu
outside = record { ncli = 0; intena = false; interrupts = true }

abbrev free : Spinlock
free = record { locked = false; cpu = none }

abbrev taken : Spinlock
taken = record { locked = true; cpu = some 3 }
