-- ===== src/Log/Store.antt =====
-- HW3/bio.c as HW3/log.c uses it: blocks on the disk, and those whose buffer is dirty.
use operating_systems.Base.{ℕ, ◌-◌, Option, none, some, ◌==◌, if◌then◌else◌}

-- A block as its words: word `i` stands at byte `4 * i`.
abbrev pub Block : Type 0
Block = ℕ → ℕ

abbrev pub put_at {ℓ} : {B : Type ℓ} → (ℕ → B) → ℕ → B → ℕ → B
put_at f b v x = if x == b then v else f x

-- The disk, the data of the buffers with B_DIRTY, which are not recycled, and how many blocks are
-- written before the power fails. The disk writes a block as a whole or not at all. The data of a
-- buffer that is valid and not dirty is the block on the disk.
pub record Store : Type 0 where
  pub disk : ℕ → Block
  pub dirty : ℕ → Option Block
  pub power : ℕ

abbrev pub or_block : Option Block → Block → Block
or_block (some c) d = c
or_block none d = d

-- The data of the buffer that `bread` returns.
abbrev pub bread : ℕ → Store → Block
bread b s = or_block (s.dirty b) (s.disk b)

-- `bwrite` of a buffer with data `c`: the disk driver clears B_DIRTY. Nothing happens without power.
unfoldable pub bwrite : ℕ → Block → Store → Store
bwrite b c s =
    if s.power == 0
    then s
    else record { disk = put_at s.disk b c; dirty = put_at s.dirty b none; power = s.power - 1 }

-- What is left after a failure: the disk.
abbrev pub reboot : ℕ → Store → Store
reboot power s = record { disk = s.disk; dirty = λ _. none; power = power }
