-- ===== src/Log/Space.antt =====
-- The reservation of log space in HW3/log.c: an operation that writes no more blocks than it may
-- never finds the log full.
use operating_systems.Base.{
  get_elem?-some_lt, ℕ, zero, suc, ◌+◌, ◌-◌, ◌*◌, ◌<◌, ◌≤◌, ◌≡◌, refl, none, some, List, [], ◌∷◌,
  length, get_elem?, arith, ◌∙◌, true, false, Bool, All, sym,
}
use operating_systems.Log.Store.{Block, Store}
use operating_systems.Log.Ops.{
  Log, log_size, max_op_blocks, absorb, log_write, begin_op, end_op, end_commit,
}
use operating_systems.Log.Pinning.{log_write-some, length-absorb}

-- The blocks that the running operations may still write, one number for each.
abbrev pub total : List ℕ → ℕ
total [] = 0
total (n ∷ ns) = n + total ns

abbrev pub spend : List ℕ → ℕ → List ℕ
spend [] i = []
spend (n ∷ ns) zero = (n - 1) ∷ ns
spend (n ∷ ns) (suc i) = n ∷ spend ns i

abbrev pub retire : List ℕ → ℕ → List ℕ
retire [] i = []
retire (n ∷ ns) zero = ns
retire (n ∷ ns) (suc i) = n ∷ retire ns i

total-spend :
    (ns : List ℕ) (i n : ℕ) → get_elem? ns i ≡ some (suc n) → total (spend ns i) + 1 ≡ total ns
total-spend [] i n e = absurd (ground (arith, e))
total-spend (m ∷ ns) zero n e = ground (arith, e)
total-spend (m ∷ ns) (suc i) n e = omega (arith, total-spend ns i n e)

length-spend : (ns : List ℕ) (i : ℕ) → length (spend ns i) ≡ length ns
length-spend [] i = refl
length-spend (m ∷ ns) zero = refl
length-spend (m ∷ ns) (suc i) = omega (arith, length-spend ns i)

length-retire :
    (ns : List ℕ) (i n : ℕ) → get_elem? ns i ≡ some n → length (retire ns i) + 1 ≡ length ns
length-retire [] i n e = absurd (ground (arith, e))
length-retire (m ∷ ns) zero n e = omega arith
length-retire (m ∷ ns) (suc i) n e = omega (arith, length-retire ns i n e)

total-retire_le : (ns : List ℕ) (i : ℕ) → total (retire ns i) ≤ total ns
total-retire_le [] i = omega arith
total-retire_le (m ∷ ns) zero = omega arith
total-retire_le (m ∷ ns) (suc i) = omega (arith, total-retire_le ns i)

total_bound : (ns : List ℕ) (i n : ℕ) → get_elem? ns i ≡ some n → n ≤ total ns
total_bound [] i n e = absurd (ground (arith, e))
total_bound (m ∷ ns) zero n e = ground (arith, e)
total_bound (m ∷ ns) (suc i) n e = omega (arith, total_bound ns i n e)

total_cap : (ns : List ℕ) → All (λ n. n ≤ max_op_blocks) ns → total ns ≤ length ns * max_op_blocks
total_cap [] a = omega arith
total_cap (n ∷ ns) (le, a) = omega (arith, total_cap ns a)

All-spend :
    (ns : List ℕ) (i : ℕ)
    → All (λ n. n ≤ max_op_blocks) ns
    → All (λ n. n ≤ max_op_blocks) (spend ns i)
All-spend [] i a = _
All-spend (n ∷ ns) zero (le, a) = (omega arith, a)
All-spend (n ∷ ns) (suc i) (le, a) = (le, All-spend ns i a)

All-retire :
    (ns : List ℕ) (i : ℕ)
    → All (λ n. n ≤ max_op_blocks) ns
    → All (λ n. n ≤ max_op_blocks) (retire ns i)
All-retire [] i a = _
All-retire (n ∷ ns) zero (le, a) = a
All-retire (n ∷ ns) (suc i) (le, a) = (le, All-retire ns i a)

-- The steps of the log in any order: an operation begins, with MAXOPBLOCKS to write; it writes a
-- block that counts, or one that the log absorbs; it ends, and the last one commits.
pub data LogStep (l : Log) (s : Store) (ns : List ℕ) : Log → Store → List ℕ → Type 0 where
  begins : (l' : Log) → begin_op l ≡ some l' → LogStep l s ns l' s (max_op_blocks ∷ ns)
  writes :
      (i n b : ℕ) (c : Block) (l' : Log) (s' : Store)
      → get_elem? ns i ≡ some (suc n)
      → log_write b c l s ≡ some (l', s')
      → LogStep l s ns l' s' (spend ns i)
  absorbs :
      (i n b : ℕ) (c : Block) (l' : Log) (s' : Store)
      → get_elem? ns i ≡ some n
      → absorb b l.blocks ≡ l.blocks
      → log_write b c l s ≡ some (l', s')
      → LogStep l s ns l' s' ns
  ends :
      (i n : ℕ) (last : Bool) (l' : Log)
      → get_elem? ns i ≡ some n
      → end_op l ≡ some (last, l')
      → LogStep l s ns l' s (retire ns i)
  commits : l.committing ≡ true → LogStep l s ns (end_commit l s).0 (end_commit l s).1 ns

-- The numbers match the count of operations, none of them runs during a commit, and what they may
-- still write has room.
pub record Reserved (l : Log) (ns : List ℕ) : Type 0 where
  pub count : length ns ≡ l.outstanding
  pub each : All (λ n. n ≤ max_op_blocks) ns
  pub room : length l.blocks + total ns ≤ log_size
  pub alone : l.committing ≡ true → l.outstanding ≡ 0

begin_op-Reserved :
    (l l' : Log) (ns : List ℕ)
    → begin_op l ≡ some l'
    → Reserved l ns
    → Reserved l' (max_op_blocks ∷ ns)
unfolding begin_op
begin_op-Reserved l l' ns e v =
    let (el, off, room) : (l' ≡ record l { outstanding = l.outstanding + 1 })
        × (l.committing ≡ false)
        × (length l.blocks + (l.outstanding + 1) * 10 ≤ 30) =
      ground (arith, e) in
    rw el (record {
      count = omega (arith, v.count);
      each = (omega arith, v.each);
      room = omega (arith, v.count, total_cap ns v.each);
      alone = λ on. absurd (ground (arith, on));
    })

end_op-Reserved :
    (l l' : Log) (ns : List ℕ) (i n : ℕ) (last : Bool)
    → get_elem? ns i ≡ some n
    → end_op l ≡ some (last, l')
    → Reserved l ns
    → Reserved l' (retire ns i)
unfolding end_op
end_op-Reserved l l' ns i n last g e v =
    let blocks : l'.blocks ≡ l.blocks = ground (arith, e) in
    let count : l'.outstanding ≡ l.outstanding - 1 = ground (arith, e) in
    record {
      count = omega (arith, length-retire ns i n g, v.count, count);
      each = All-retire ns i v.each;
      room = rw blocks (omega (arith, total-retire_le ns i, v.room));
      alone = λ on. ground (arith, e);
    }

end_commit-Reserved :
    (l : Log) (s : Store) (ns : List ℕ)
    → l.committing ≡ true
    → Reserved l ns
    → Reserved (end_commit l s).0 ns
unfolding end_commit
end_commit-Reserved l s ns on v = record {
  count = v.count;
  each = v.each;
  room = omega (arith, v.room);
  alone = λ off. absurd (ground (arith, off));
}

-- Every step keeps the reservation.
pub LogStep-Reserved :
    {l : Log} {s : Store} {ns : List ℕ} {l' : Log} {s' : Store} {ns' : List ℕ}
    → LogStep l s ns l' s' ns'
    → Reserved l ns
    → Reserved l' ns'
LogStep-Reserved {l} {ns = ns} (begins l' e) v = begin_op-Reserved l l' ns e v
LogStep-Reserved {l} {s = s} {ns = ns} (writes i n b c l' s' g e) v =
    let (_, _, run, el, _) = log_write-some b c l l' s s' e in
    rw el (record {
      count = length-spend ns i ∙ v.count;
      each = All-spend ns i v.each;
      room = omega (arith, total-spend ns i n g, length-absorb b l.blocks, v.room);
      alone = v.alone;
    })
LogStep-Reserved {l} {s = s} {ns = ns} (absorbs i n b c l' s' g a e) v =
    let (_, _, run, el, _) = log_write-some b c l l' s s' e in
    rw (el, a) (record { count = v.count; each = v.each; room = v.room; alone = v.alone })
LogStep-Reserved {l} {ns = ns} (ends i n last l' g e) v = end_op-Reserved l l' ns i n last g e v
LogStep-Reserved {l} {s = s} {ns = ns} (commits on) v = end_commit-Reserved l s ns on v

pub data LogReach (l : Log) (s : Store) (ns : List ℕ) : Log → Store → List ℕ → Type 0 where
  start_state : LogReach l s ns l s ns
  then_step :
      {l1 : Log} {s1 : Store} {ns1 : List ℕ} {l2 : Log} {s2 : Store} {ns2 : List ℕ}
      → LogReach l s ns l1 s1 ns1
      → LogStep l1 s1 ns1 l2 s2 ns2
      → LogReach l s ns l2 s2 ns2

LogReach-Reserved :
    {l : Log} {s : Store} {ns : List ℕ} {l' : Log} {s' : Store} {ns' : List ℕ}
    → LogReach l s ns l' s' ns'
    → Reserved l ns
    → Reserved l' ns'
LogReach-Reserved start_state v = v
LogReach-Reserved (then_step r st) v = LogStep-Reserved st (LogReach-Reserved r v)

-- From an empty log, in any order of steps, and for an operation that has written fewer than MAXOPBLOCKS
-- blocks: the header has room for another block, and `log_write` panics exactly if the blocks of the
-- header, the header's own and one more do not fit into the log on the disk. With a log of LOGSIZE
-- blocks in all it panics only if LOGSIZE - 1 blocks are in the header, and then this operation has one
-- block left to write, and no other has any.
pub log_write-none_iff :
    (l l' : Log) (s s' : Store) (ns : List ℕ) (i n b : ℕ) (c : Block)
    → (l.blocks ≡ []) × (l.outstanding ≡ 0)
    → LogReach l s [] l' s' ns
    → get_elem? ns i ≡ some (suc n)
    → (length l'.blocks < log_size)
      × (log_write b c l' s' ≡ none → l'.size < length l'.blocks + 2)
      × (l'.size < length l'.blocks + 2 → log_write b c l' s' ≡ none)
      × (l'.size ≡ log_size
          → log_write b c l' s' ≡ none
          → (length l'.blocks ≡ log_size - 1) × (n ≡ 0) × (total ns ≡ 1))
unfolding log_write
log_write-none_iff l l' s s' ns i n b c (empty, idle) r g =
    let v =
      LogReach-Reserved r (record {
        count = sym idle;
        each = _;
        room = rw empty (omega arith);
        alone = λ on. idle;
      }) in
    let busy : i < length ns = get_elem?-some_lt ns i (suc n) g in
    let bound = total_bound ns i (suc n) g in
    let running : 0 < l'.outstanding = omega (arith, v.count) in
    let room : length l'.blocks < 30 = omega (arith, v.room) in
    (
      room,
      (λ e. ground (arith, e)),
      (λ small. ground (arith, small)),
      λ made e.
          let full : length l'.blocks ≡ 29 = ground (arith, e) in
          (full, omega (arith, v.room, bound), omega (arith, v.room, bound)),
    )
