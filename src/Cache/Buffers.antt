-- ===== src/Cache/Buffers.antt =====
-- HW3/bio.c: `bget` and `brelse` over the list of the buffers, the most recently used first. The lock of
-- the cache is held in each of them.
use operating_systems.Base.{
  ℕ, zero, suc, ◌&&◌, not, Bool, true, false, Option, none, some, List, [], ◌∷◌, get_elem?, modify,
  find_index, ◌==◌, if◌then◌else◌,
}

-- `struct buf` but for its data and its links.
pub record Buf : Type 0 where
  pub dev : ℕ
  pub blockno : ℕ
  pub busy : Bool
  pub valid : Bool
  pub dirty : Bool

abbrev pub caches : ℕ → ℕ → Buf → Bool
caches dev blockno b = b.dev == dev && b.blockno == blockno

abbrev pub is_free : Buf → Bool
is_free b = not b.busy && not b.dirty

-- The search from the least recently used buffer.
unfoldable pub find_last : List Buf → Option ℕ
find_last [] = none
find_last (b ∷ bs) = elim (find_last bs) [
  | some i ↦ some (suc i)
  | none ↦ if is_free b then some 0 else none
]

-- `b->dev = dev; b->blockno = blockno; b->flags = B_BUSY;`
abbrev pub recycle : ℕ → ℕ → Buf → Buf
recycle dev blockno b = record {
  dev = dev;
  blockno = blockno;
  busy = true;
  valid = false;
  dirty = false;
}

-- One round of `bget` from the label loop: the buffer at a place of the list, asleep on one, or the
-- panic.
pub data Got : Type 0 where
  got : ℕ → Got
  sleeps_on : ℕ → Got
  no_buffers : Got

abbrev pub take_cached : ℕ → Option Buf → List Buf → Got × List Buf
take_cached i none bs = (no_buffers, bs)
take_cached i (some b) bs =
    if b.busy then (sleeps_on i, bs) else (got i, modify bs i (λ c. record c { busy = true }))

unfoldable pub bget : ℕ → ℕ → List Buf → Got × List Buf
bget dev blockno bs = elim (find_index (caches dev blockno) bs) [
  | some i ↦ take_cached i (get_elem? bs i) bs
  | none ↦ elim (find_last bs) [
    | some j ↦ (got j, modify bs j (recycle dev blockno))
    | none ↦ (no_buffers, bs)
  ]
]

-- The list without the buffer at place `i`.
abbrev pub unlink : ℕ → List Buf → List Buf
unlink i [] = []
unlink zero (b ∷ bs) = bs
unlink (suc i) (b ∷ bs) = b ∷ unlink i bs

-- `brelse` of the buffer at place `i`, up to the call that wakes those that sleep on the buffer; none
-- is its panic.
unfoldable pub brelse : ℕ → List Buf → Option (List Buf)
brelse i bs = elim (get_elem? bs i) [
  | none ↦ none
  | some b ↦ if not b.busy then none else some (record b { busy = false } ∷ unlink i bs)
]
