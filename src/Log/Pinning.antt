-- ===== src/Log/Pinning.antt =====
-- `log_write` of HW3/log.c keeps what a commit needs: a block that it marks dirty is in the header.
use operating_systems.Base.{
  ℕ, zero, suc, ◌+◌, ◌-◌, ◌<◌, ◌≤◌, ◌≡◌, ◌≢◌, ◌⊎◌, inl, inr, refl, some, List, [], ◌∷◌, length,
  get_elem?, All, arith, Bool-cases, ◌==◌,
}
use native.Mathlib.Decide.{ℕ_discrete}
use operating_systems.Log.Store.{Block, Store, bread, put_at}
use operating_systems.Log.Ops.{Log, log_size, absorb, log_write}
use operating_systems.Log.Atomic.{Ready}

-- Somewhere in the list.
abbrev pub IsAmong : List ℕ → ℕ → Type 0
IsAmong bs x = (i : ℕ) × (get_elem? bs i ≡ some x)

pub length-absorb :
    (b : ℕ) (bs : List ℕ)
    → (length (absorb b bs) ≡ length bs) ⊎ (length (absorb b bs) ≡ length bs + 1)
unfolding absorb
length-absorb b [] = inr (omega arith)
length-absorb b (x ∷ bs) = ground (arith, length-absorb b bs)

IsAmong-absorb_self : (b : ℕ) (bs : List ℕ) → IsAmong (absorb b bs) b
unfolding absorb
IsAmong-absorb_self b [] = (0, refl)
IsAmong-absorb_self b (x ∷ bs) = elim (Bool-cases (x == b)) [
  | inl here ↦ let e : x ≡ b = ground arith in rw here (0, rw e refl)
  | inr ne ↦ let (i, e) = IsAmong-absorb_self b bs in rw ne (suc i, e)
]

IsAmong-absorb : (b : ℕ) (bs : List ℕ) (x : ℕ) → IsAmong bs x → IsAmong (absorb b bs) x
unfolding absorb
IsAmong-absorb b [] x (i, e) = absurd (ground (arith, e))
IsAmong-absorb b (y ∷ bs) x (zero, e) = elim (Bool-cases (y == b)) [
  | inl here ↦ rw here (0, e)
  | inr ne ↦ rw ne (0, e)
]
IsAmong-absorb b (y ∷ bs) x (suc i, e) = elim (Bool-cases (y == b)) [
  | inl here ↦ rw here (suc i, e)
  | inr ne ↦ let (j, h) = IsAmong-absorb b bs x (i, e) in rw ne (suc j, h)
]

All-absorb : (P : ℕ → Type 0) (b : ℕ) (bs : List ℕ) → P b → All P bs → All P (absorb b bs)
unfolding absorb
All-absorb P b [] p a = (p, _)
All-absorb P b (x ∷ bs) p (q, a) = elim (Bool-cases (x == b)) [
  | inl here ↦ rw here (q, a)
  | inr ne ↦ rw ne (q, All-absorb P b bs p a)
]

-- `log_write` succeeds exactly when the log has room and an operation is running, and then it has
-- absorbed the block and marked it dirty.
pub log_write-some :
    (b : ℕ) (c : Block) (l l' : Log) (s s' : Store)
    → log_write b c l s ≡ some (l', s')
    → (length l.blocks < log_size)
      × (length l.blocks < l.size - 1)
      × (0 < l.outstanding)
      × (l' ≡ record l { blocks = absorb b l.blocks })
      × (s' ≡ record s { dirty = put_at s.dirty b (some c) })
unfolding log_write
log_write-some b c l l' s s' e = ground (arith, e)

-- What `log_write` of a block outside the log leaves is ready to commit if it was before, and a read
-- of the block gives what was written, of any other block what it gave before.
pub log_write-Ready :
    (b : ℕ) (c : Block) (l l' : Log) (s s' : Store)
    → Ready l.start l.size l.blocks s
    → (b < l.start) ⊎ (l.start + l.size ≤ b)
    → log_write b c l s ≡ some (l', s')
    → Ready l'.start l'.size l'.blocks s'
      × (s'.disk ≡ s.disk)
      × (bread b s' ≡ c)
      × ((x : ℕ) → x ≢ b → bread x s' ≡ bread x s)
log_write-Ready b c l l' s s' ready out e =
    let (room, room', run, el, es) = log_write-some b c l l' s s' e in
    rw (el, es)
      (
        record {
          fits = omega (arith, length-absorb b l.blocks);
          out = All-absorb (λ x. (x < l.start) ⊎ (l.start + l.size ≤ x)) b l.blocks out ready.out;
          pinned = λ x. elim (ℕ_discrete x b) [
            | yes here ↦ inl (rw here (IsAmong-absorb_self b l.blocks))
            | no ne ↦ elim (ready.pinned x) [
              | inl among ↦ inl (IsAmong-absorb b l.blocks x among)
              | inr clean ↦ inr (ground (arith, clean))
            ]
          ];
          empty = ready.empty;
        },
        refl,
        ground arith,
        λ x ne. ground arith,
      )
