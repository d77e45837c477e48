-- ===== src/Log/Tests.antt =====
-- The theorems on HW3/log.c at a small transaction, and runs of a commit that the power interrupts.
use operating_systems.Base.{
  ℕ, ◌+◌, ◌<◌, ◌≤◌, ◌≡◌, ◌≢◌, ◌⊎◌, inl, inr, refl, none, some, Option, List, [], ◌∷◌, arith, false,
  Bool-cases, ◌==◌, if◌then◌else◌,
}
use operating_systems.Log.Store.{Block, Store, bread, bwrite, reboot}
use operating_systems.Log.Ops.{
  Log, decode, commit, recover_from_log, read_head, read_words, write_words, install_trans,
  write_log, write_head, log_write, begin_op, absorb, max_op_blocks, log_size,
}
use operating_systems.Log.Crash.{recoveries}
use operating_systems.Log.Atomic.{Ready, commit_atomic, commit_installs}
use operating_systems.Log.Pinning.{log_write-Ready}
use operating_systems.Log.Space.{LogReach, start_state, then_step, begins, log_write-none_iff}

abbrev full_of : ℕ → Block
full_of v i = v

-- Blocks 40 and 50 are dirty; the disk is all zeros.
abbrev pinned_two : ℕ → Option Block
pinned_two x = if x == 40 then some (full_of 4) else if x == 50 then some (full_of 5) else none

abbrev store : ℕ → Store
store power = record { disk = λ b. full_of 0; dirty = pinned_two; power = power }

abbrev two_blocks : List ℕ
two_blocks = 40 ∷ 50 ∷ []

two_blocks-Ready : (power : ℕ) → Ready 2 31 two_blocks (store power)
unfolding read_words
two_blocks-Ready power = record {
  fits = omega arith;
  out = (inr (omega arith), (inr (omega arith), _));
  pinned = λ x. elim (Bool-cases (x == 40)) [
    | inl a ↦ inl (0, ground arith)
    | inr a ↦ elim (Bool-cases (x == 50)) [
      | inl b ↦ inl (1, ground arith)
      | inr b ↦ inr (ground arith)
    ]
  ];
  empty = refl;
}

-- With power for four writes the header is written and one block installed; recovery does the rest.
torn_commit : (commit 2 two_blocks (store 4)).disk 50 0 ≡ 0
unfolding commit write_log write_head write_words install_trans bwrite
torn_commit = refl

torn_commit_recovered :
    (recover_from_log 2 (reboot 9 (commit 2 two_blocks (store 4)))).disk 50 0 ≡ 5
unfolding commit write_log write_head write_words install_trans bwrite recover_from_log read_head
    read_words
torn_commit_recovered = refl

-- With power for two the transaction is lost as a whole.
lost_commit : (recover_from_log 2 (reboot 9 (commit 2 two_blocks (store 2)))).disk 40 0 ≡ 0
unfolding commit write_log write_head write_words install_trans bwrite recover_from_log read_head
    read_words
lost_commit = refl

commit_atomic_example :
    (decode (
        (recover_from_log 2 (reboot 9 (recoveries 2 (1 ∷ []) (commit 2 two_blocks (store 4))))).disk
          2)
      ≡ [])
    × (((x : ℕ)
          → (x < 2) ⊎ (33 ≤ x)
          → (recover_from_log 2
                (reboot 9 (recoveries 2 (1 ∷ []) (commit 2 two_blocks (store 4))))).disk
              x
            ≡ full_of 0)
        ⊎ ((x : ℕ)
            → (x < 2) ⊎ (33 ≤ x)
            → (recover_from_log 2
                  (reboot 9 (recoveries 2 (1 ∷ []) (commit 2 two_blocks (store 4))))).disk
                x
              ≡ bread x (store 4)))
commit_atomic_example =
    commit_atomic 2 31 two_blocks (store 4) (1 ∷ []) 9 (two_blocks-Ready 4) (omega arith)

commit_installs_example :
    (decode ((commit 2 two_blocks (store 9)).disk 2) ≡ [])
    × ((x : ℕ) → (x < 2) ⊎ (33 ≤ x) → (commit 2 two_blocks (store 9)).disk x ≡ bread x (store 9))
commit_installs_example =
    commit_installs 2 31 two_blocks (store 9) (two_blocks-Ready 9) (omega arith)

abbrev log_of : ℕ → List ℕ → Log
log_of outstanding blocks = record {
  start = 2;
  size = 31;
  outstanding = outstanding;
  committing = false;
  blocks = blocks;
}

abbrev third : Store
third = record {
  disk = λ b. full_of 0;
  dirty = λ x. if x == 60 then some (full_of 6) else pinned_two x;
  power = 9;
}

log_write-Ready_example :
    Ready 2 31 (40 ∷ 50 ∷ 60 ∷ []) third
    × (third.disk ≡ (λ b. full_of 0))
    × (bread 60 third ≡ full_of 6)
    × ((x : ℕ) → x ≢ 60 → bread x third ≡ bread x (store 9))
unfolding log_write absorb
log_write-Ready_example =
    log_write-Ready 60 (full_of 6) (log_of 1 two_blocks) (log_of 1 (40 ∷ 50 ∷ 60 ∷ [])) (store 9)
      third (two_blocks-Ready 9) (inr (omega arith)) refl

-- The log that HW3/mkfs.c makes has LOGSIZE blocks.
abbrev made : ℕ → List ℕ → Log
made outstanding blocks = record (log_of outstanding blocks) { size = log_size }

one_op : LogReach (made 0 []) (store 9) [] (made 1 []) (store 9) (max_op_blocks ∷ [])
unfolding begin_op
one_op = then_step start_state (begins (made 1 []) refl)

log_write-none_iff_example :
    (0 < 30)
    × (log_write 60 (full_of 6) (made 1 []) (store 9) ≡ none → 30 < 0 + 2)
    × (30 < 0 + 2 → log_write 60 (full_of 6) (made 1 []) (store 9) ≡ none)
    × (◌≡◌ {A = ℕ} 30 30
        → log_write 60 (full_of 6) (made 1 []) (store 9) ≡ none
        → ◌≡◌ {A = ℕ} 0 29 × ◌≡◌ {A = ℕ} 9 0 × ◌≡◌ {A = ℕ} 10 1)
log_write-none_iff_example =
    log_write-none_iff (made 0 []) (made 1 []) (store 9) (store 9) (max_op_blocks ∷ []) 0 9 60
      (full_of 6) (refl, refl) one_op refl
