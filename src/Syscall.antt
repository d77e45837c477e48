-- ===== src/Syscall.antt =====
-- HW3/syscall.c: how the kernel fetches the arguments of system calls from the memory of a process of
-- size `sz`; `esp` is the stack pointer that its trap frame saved.
use operating_systems.Base.{
  ℕ, zero, suc, ◌+◌, ◌-◌, ◌*◌, ◌||◌, Bool, true, false, Option, none, some, add32, ltb, leb, ◌==◌,
  if◌then◌else◌,
}
use operating_systems.Str.{Bytes}
use operating_systems.Kalloc.{load_word}
pub mod Bounds
mod Tests

-- `fetchint`; none is -1.
unfoldable pub fetchint : ℕ → Bytes → ℕ → Option ℕ
fetchint sz m addr = if leb sz addr || ltb sz (add32 addr 4) then none else some (load_word addr m)

-- The loop of `fetchstr` over the `left` bytes below the end of the memory.
unfoldable pub find_zero : ℕ → ℕ → Bytes → ℕ → Option ℕ
find_zero zero n m addr = none
find_zero (suc left) n m addr =
    let rest = find_zero left (n + 1) m addr in if m (addr + n) == 0 then some n else rest

-- `fetchstr`: the length of the string at `addr`.
unfoldable pub fetchstr : ℕ → Bytes → ℕ → Option ℕ
fetchstr sz m addr = if leb sz addr then none else find_zero (sz - addr) 0 m addr

unfoldable pub argint : ℕ → Bytes → ℕ → ℕ → Option ℕ
argint sz m esp n = fetchint sz m (add32 (add32 esp 4) (4 * n))

abbrev pub in_memory : ℕ → ℕ → Option ℕ → Option ℕ
in_memory sz size none = none
in_memory sz size (some i) = if leb sz i || ltb sz (add32 i size) then none else some i

-- `argptr`, with `size` as the word that it is converted to.
unfoldable pub argptr : ℕ → Bytes → ℕ → ℕ → ℕ → Option ℕ
argptr sz m esp n size = in_memory sz size (argint sz m esp n)

abbrev pub string_at : ℕ → Bytes → Option ℕ → Option (ℕ × ℕ)
string_at sz m none = none
string_at sz m (some addr) = elim (fetchstr sz m addr) [ none ↦ none | some n ↦ some (addr, n) ]

-- `argstr`: the pointer and the length.
unfoldable pub argstr : ℕ → Bytes → ℕ → ℕ → Option (ℕ × ℕ)
argstr sz m esp n = string_at sz m (argint sz m esp n)
