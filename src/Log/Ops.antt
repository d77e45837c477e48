-- ===== src/Log/Ops.antt =====
-- HW3/log.c: the operations. The lock of the log is held in `begin_op`, in `end_op` up to the commit
-- and behind it, and in the loop of `log_write`; a commit runs without it, and `committing` keeps the
-- others out.
use operating_systems.Base.{
  ℕ, zero, suc, ◌+◌, ◌-◌, ◌*◌, Bool, true, false, Option, none, some, List, [], ◌∷◌, length, ◌==◌,
  ltb, leb, ◌||◌, if◌then◌else◌,
}
use operating_systems.Log.Store.{Block, put_at, Store, bread, bwrite}

-- MAXOPBLOCKS and LOGSIZE
abbrev pub max_op_blocks : ℕ
max_op_blocks = 10

abbrev pub log_size : ℕ
log_size = 30

-- `struct log` but for its lock and device; the header is the list of its `n` block numbers.
pub record Log : Type 0 where
  pub start : ℕ
  pub size : ℕ
  pub outstanding : ℕ
  pub committing : Bool
  pub blocks : List ℕ

-- The loop of `install_trans` from `tail` on.
unfoldable pub install_trans : ℕ → ℕ → List ℕ → Store → Store
install_trans start tail [] s = s
install_trans start tail (b ∷ bs) s =
    install_trans start (tail + 1) bs (bwrite b (bread (start + tail + 1) s) s)

-- The loop of `read_head` over the words of the header block from word `i + 1` on.
unfoldable pub read_words : ℕ → ℕ → Block → List ℕ
read_words zero i h = []
read_words (suc n) i h = h (i + 1) ∷ read_words n (i + 1) h

-- The header that a block holds: its count, and as many block numbers.
abbrev pub decode : Block → List ℕ
decode h = read_words (h 0) 0 h

unfoldable pub read_head : ℕ → Store → List ℕ
read_head start s = decode (bread start s)

-- The loop of `write_head` from word `i + 1` on.
unfoldable pub write_words : List ℕ → ℕ → Block → Block
write_words [] i h = h
write_words (b ∷ bs) i h = write_words bs (i + 1) (put_at h (i + 1) b)

unfoldable pub write_head : ℕ → List ℕ → Store → Store
write_head start bs s = bwrite start (write_words bs 0 (put_at (bread start s) 0 (length bs))) s

unfoldable pub recover_from_log : ℕ → Store → Store
recover_from_log start s = write_head start [] (install_trans start 0 (read_head start s) s)

-- The loop of `write_log` from `tail` on.
unfoldable pub write_log : ℕ → ℕ → List ℕ → Store → Store
write_log start tail [] s = s
write_log start tail (b ∷ bs) s =
    write_log start (tail + 1) bs (bwrite (start + tail + 1) (bread b s) s)

-- What `commit` does to the disk for the blocks of the header, which it leaves empty.
unfoldable pub commit : ℕ → List ℕ → Store → Store
commit start [] s = s
commit start (b ∷ bs) s =
    write_head start []
      (install_trans start 0 (b ∷ bs) (write_head start (b ∷ bs) (write_log start 0 (b ∷ bs) s)))

-- One round of the loop of `begin_op`; none when it sleeps on the log.
unfoldable pub begin_op : Log → Option Log
begin_op l =
    if l.committing
    then none
    else if ltb log_size (length l.blocks + (l.outstanding + 1) * max_op_blocks)
    then none
    else some (record l { outstanding = l.outstanding + 1 })

-- `end_op` up to the commit; true means that it commits, and false that it wakes those that sleep
-- on the log. None is the panic "log.committing". A count below 0 is not represented.
unfoldable pub end_op : Log → Option (Bool × Log)
end_op l =
    if l.committing
    then none
    else if l.outstanding == 1
    then some (true, record l { outstanding = 0; committing = true })
    else some (false, record l { outstanding = l.outstanding - 1 })

-- The commit of `end_op` and what follows it, after which it wakes those that sleep on the log.
unfoldable pub end_commit : Log → Store → Log × Store
end_commit l s = (record l { blocks = []; committing = false }, commit l.start l.blocks s)

-- The loop of `log_write` and the store behind it: a block of the header is absorbed.
unfoldable pub absorb : ℕ → List ℕ → List ℕ
absorb b [] = b ∷ []
absorb b (x ∷ xs) = let rest = absorb b xs in if x == b then x ∷ xs else x ∷ rest

-- `log_write` of a buffer whose data is `c`; none is one of its two panics.
unfoldable pub log_write : ℕ → Block → Log → Store → Option (Log × Store)
log_write b c l s =
    if leb log_size (length l.blocks) || leb (l.size - 1) (length l.blocks)
    then none
    else if ltb l.outstanding 1
    then none
    else some
        (record l { blocks = absorb b l.blocks }, record s { dirty = put_at s.dirty b (some c) })
