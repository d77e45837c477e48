-- ===== src/Log/Atomic.antt =====
-- The commit of HW3/log.c is atomic: after any failures the disk holds all of a transaction or
-- nothing of it.
use operating_systems.Base.{
  ℕ, ◌+◌, ◌<◌, ◌≤◌, ◌≡◌, ◌⊎◌, inl, inr, refl, none, some, List, [], ◌∷◌, length, get_elem?, All,
  All-get, arith, ◌∙◌, ap, sym, subst,
}
use native.Mathlib.Decide.{ℕ_discrete}
use operating_systems.Log.Store.{Block, Store, bread, or_block, reboot}
use operating_systems.Log.Ops.{
  install_trans, write_log, write_head, decode, recover_from_log, commit,
}
use operating_systems.Log.Writes.{
  Logged-agree, write_log-disk_other, write_log-clean, write_log-Logged, bwrite-dirty_none,
}
use operating_systems.Log.Installs.{Clean}
use operating_systems.Log.Phases.{
  Idle, Committed, Safe, before, Placed, finish-on, finish-Safe, write_head-off,
  write_head-power_left, write_head-disk_other, write_head-decode,
}
use operating_systems.Log.Crash.{
  install_trans-off, install_trans-power_left, write_log-power_left, recoveries, recoveries-Safe,
  recover-on,
}

write_head-clean :
    (start : ℕ) (cs : List ℕ) (s : Store) (x : ℕ)
    → s.dirty x ≡ none
    → (write_head start cs s).dirty x ≡ none
unfolding write_head
write_head-clean start cs s x e = bwrite-dirty_none start _ s x e

-- The store and the header before a commit: the blocks fit in the log, they are not of the log, every
-- dirty block is among them, and the log on the disk is empty.
pub record Ready (start size : ℕ) (bs : List ℕ) (s : Store) : Type 0 where
  pub fits : length bs < size
  pub out : All (λ b. (b < start) ⊎ (start + size ≤ b)) bs
  pub pinned : (x : ℕ) → ((i : ℕ) × (get_elem? bs i ≡ some x)) ⊎ (s.dirty x ≡ none)
  pub empty : decode (s.disk start) ≡ []

module _ (start size : ℕ) (bs : List ℕ) (s : Store) (ready : Ready start size bs s) where
  -- What the blocks are once the transaction is installed.
  abbrev view : ℕ → Block
  view x = bread x s

  Ready-Placed : Placed start size s.disk view bs
  Ready-Placed = record {
    fits = ready.fits;
    out = ready.out;
    same = λ x o. elim (ready.pinned x) [
      | inl among ↦ inl among
      | inr clean ↦ inr (ap (λ t. or_block t (s.disk x)) (sym clean))
    ];
  }

  Ready-Clean : Clean start size view s
  Ready-Clean x lo hi = elim (ready.pinned x) [
    | inr clean ↦ clean
    | inl (i, e) ↦
        absurd (omega (arith, All-get (λ b. (b < start) ⊎ (start + size ≤ b)) bs i x e ready.out))
  ]

  -- The blocks are copied to the log first, which changes no other block.
  write_log-Idle : Idle start size s.disk view bs s.disk (write_log start 0 bs s).disk
  write_log-Idle = record {
    erased =
        ap decode (write_log-disk_other start size view 0 bs s start (omega arith)).0 ∙ ready.empty;
    at_home = λ x o. (write_log-disk_other start size view 0 bs s x (omega (arith, ready.fits))).0;
  }

  write_log-Clean : Clean start size view (write_log start 0 bs s)
  write_log-Clean x lo hi = write_log-clean start size view 0 bs s x (Ready-Clean x lo hi)

  -- The commit point is the write of the header.
  write_head-Committed :
      0 < (write_log start 0 bs s).power
      → Committed start size s.disk view bs (write_head start bs (write_log start 0 bs s)).disk
  write_head-Committed p = record {
    header = write_head-decode start bs (write_log start 0 bs s) p;
    logged =
        Logged-agree start size view (write_log start 0 bs s).disk _ 0 bs
          (λ x lo hi. write_head-disk_other start bs (write_log start 0 bs s) x (omega arith))
          (write_log-Logged start size view 0 bs s ready.out (omega (arith, ready.fits))
            (λ x o. refl) p);
    mixed = λ x o. inl (
        write_head-disk_other start bs (write_log start 0 bs s) x (omega (arith, ready.fits))
        ∙ write_log-Idle.at_home x o);
  }

  write_head-Clean : Clean start size view (write_head start bs (write_log start 0 bs s))
  write_head-Clean x lo hi = write_head-clean start bs _ x (write_log-Clean x lo hi)

  -- `commit` of a header that is not empty.
  abbrev full_commit : Store
  full_commit =
      write_head start [] (install_trans start 0 bs (write_head start bs (write_log start 0 bs s)))

  full_commit-off : (write_log start 0 bs s).power ≡ 0 → full_commit ≡ write_log start 0 bs s
  full_commit-off e =
      let s1 = write_log start 0 bs s in
      ap (λ t. write_head start [] (install_trans start 0 bs t)) (write_head-off start bs s1 e)
      ∙ ap (write_head start []) (install_trans-off start 0 bs s1 e)
      ∙ write_head-off start [] s1 e

  full_commit-Safe : Safe start size s.disk view bs full_commit.disk
  full_commit-Safe = elim (ℕ_discrete (write_log start 0 bs s).power 0) [
    | yes off ↦
        subst (λ t. Safe start size s.disk view bs t.disk) (sym (full_commit-off off))
          (before write_log-Idle)
    | no on ↦
        finish-Safe start size s.disk view bs Ready-Placed _ write_head-Clean
          (write_head-Committed (omega arith))
  ]

  full_commit-on :
      length bs + length bs + 1 < s.power → Idle start size s.disk view bs view full_commit.disk
  full_commit-on enough =
      let s1 = write_log start 0 bs s in
      let p1 = write_log-power_left start 0 bs s in
      finish-on start size s.disk view bs Ready-Placed _ write_head-Clean
        (write_head-Committed (omega arith))
        (omega (
          arith,
          install_trans-power_left start 0 bs (write_head start bs s1),
          write_head-power_left start bs s1,
        ))

-- A commit keeps the disk recoverable, wherever the power fails, and is done if there is power for
-- twice the blocks and the two headers.
pub commit-Safe :
    (start size : ℕ) (bs : List ℕ) (s : Store) (ready : Ready start size bs s)
    → Safe start size s.disk (λ x. bread x s) bs (commit start bs s).disk
      × (length bs + length bs + 1 < s.power
          → Idle start size s.disk (λ x. bread x s) bs (λ x. bread x s) (commit start bs s).disk)
unfolding commit
commit-Safe start size [] s ready =
    let idle : (home : ℕ → Block)
        → ((x : ℕ) → s.disk x ≡ home x)
        → Idle start size s.disk (λ x. bread x s) [] home s.disk =
      λ home e. record { erased = ready.empty; at_home = λ x o. e x } in
    (
      before (idle s.disk (λ x. refl)),
      λ p.
          idle (λ x. bread x s)
            (λ x. elim (ready.pinned x) [
              | inl (i, e) ↦ absurd (ground (arith, e))
              | inr clean ↦ ap (λ t. or_block t (s.disk x)) (sym clean)
            ]),
    )
commit-Safe start size (b ∷ bs) s ready =
    (full_commit-Safe start size (b ∷ bs) s ready, full_commit-on start size (b ∷ bs) s ready)

-- Whatever number of writes a commit gets done before the power fails, and after any recoveries
-- that fail too, a recovery with enough power leaves the log empty, and the blocks outside the log all
-- as before the transaction or all as the transaction left them.
pub commit_atomic :
    (start size : ℕ) (bs : List ℕ) (s : Store) (ps : List ℕ) (q : ℕ)
    → Ready start size bs s
    → length bs < q
    → let d = (recover_from_log start (reboot q (recoveries start ps (commit start bs s)))).disk in
      (decode (d start) ≡ [])
      × (((x : ℕ) → (x < start) ⊎ (start + size ≤ x) → d x ≡ s.disk x)
          ⊎ ((x : ℕ) → (x < start) ⊎ (start + size ≤ x) → d x ≡ bread x s))
commit_atomic start size bs s ps q ready enough =
    let placed = Ready-Placed start size bs s ready in
    let (safe, _) = commit-Safe start size bs s ready in
    elim (recover-on start size s.disk (λ x. bread x s) bs placed q
      (recoveries start ps (commit start bs s)) enough
      (recoveries-Safe start size s.disk (λ x. bread x s) bs placed ps (commit start bs s) safe)) [
        | inl v ↦ (v.erased, inl v.at_home)
        | inr v ↦ (v.erased, inr v.at_home)
      ]

-- A commit with power for twice the blocks and the two headers puts every block of the
-- transaction in its place, and leaves the log empty.
pub commit_installs :
    (start size : ℕ) (bs : List ℕ) (s : Store)
    → Ready start size bs s
    → length bs + length bs + 1 < s.power
    → (decode ((commit start bs s).disk start) ≡ [])
      × ((x : ℕ) → (x < start) ⊎ (start + size ≤ x) → (commit start bs s).disk x ≡ bread x s)
commit_installs start size bs s ready enough =
    let v = (commit-Safe start size bs s ready).1 enough in (v.erased, v.at_home)
