-- ===== src/Log/Crash.antt =====
-- Commits and recoveries of HW3/log.c with power failures anywhere in them.
use operating_systems.Base.{
  ℕ, ◌+◌, ◌-◌, ◌<◌, ◌≡◌, ◌⊎◌, inl, inr, refl, List, [], ◌∷◌, length, arith, ◌∙◌, ap, sym, subst,
  true, ◌==◌,
}
use native.Mathlib.Decide.{ℕ_discrete}
use operating_systems.Log.Store.{Block, Store, bread, bwrite, reboot}
use operating_systems.Log.Ops.{
  install_trans, write_log, write_head, decode, recover_from_log, read_head,
}
use operating_systems.Log.Installs.{Clean}
use operating_systems.Log.Phases.{
  Idle, Safe, before, during, after, Placed, finish-on, finish-Safe, write_head-off,
  write_head-disk_other, write_head-decode,
}

bwrite-power_left : (b : ℕ) (c : Block) (s : Store) → (bwrite b c s).power ≡ s.power - 1
unfolding bwrite
bwrite-power_left b c s = ground arith

pub install_trans-power_left :
    (start tail : ℕ) (bs : List ℕ) (s : Store)
    → (install_trans start tail bs s).power ≡ s.power - length bs
unfolding install_trans
install_trans-power_left start tail [] s = omega arith
install_trans-power_left start tail (b ∷ bs) s = omega (
  arith,
  install_trans-power_left start (tail + 1) bs (bwrite b (bread (start + tail + 1) s) s),
  bwrite-power_left b (bread (start + tail + 1) s) s,
)

pub write_log-power_left :
    (start tail : ℕ) (bs : List ℕ) (s : Store)
    → (write_log start tail bs s).power ≡ s.power - length bs
unfolding write_log
write_log-power_left start tail [] s = omega arith
write_log-power_left start tail (b ∷ bs) s = omega (
  arith,
  write_log-power_left start (tail + 1) bs (bwrite (start + tail + 1) (bread b s) s),
  bwrite-power_left (start + tail + 1) (bread b s) s,
)

bwrite-off : (b : ℕ) (c : Block) (s : Store) → s.power ≡ 0 → bwrite b c s ≡ s
unfolding bwrite
bwrite-off b c s e = let off : (s.power == 0) ≡ true = ground arith in rw off

pub install_trans-off :
    (start tail : ℕ) (bs : List ℕ) (s : Store) → s.power ≡ 0 → install_trans start tail bs s ≡ s
unfolding install_trans
install_trans-off start tail [] s e = refl
install_trans-off start tail (b ∷ bs) s e =
    ap (install_trans start (tail + 1) bs) (bwrite-off b _ s e)
    ∙ install_trans-off start (tail + 1) bs s e

-- Recoveries one after the other, each with power for so many writes.
unfoldable pub recoveries : ℕ → List ℕ → Store → Store
recoveries start [] s = s
recoveries start (p ∷ ps) s = recoveries start ps (recover_from_log start (reboot p s))

module _ (start size : ℕ) (old new : ℕ → Block) (bs : List ℕ)
    (placed : Placed start size old new bs) where
  reboot-Clean : (p : ℕ) (s : Store) → Clean start size new (reboot p s)
  reboot-Clean p s x lo hi = refl

  -- Erasing the header of an idle disk leaves it idle.
  Idle-erase :
      (home : ℕ → Block) (s : Store)
      → Idle start size old new bs home s.disk
      → Idle start size old new bs home (write_head start [] s).disk
  Idle-erase home s v = elim (ℕ_discrete s.power 0) [
    | yes off ↦
        subst (λ t. Idle start size old new bs home t.disk) (sym (write_head-off start [] s off)) v
    | no on ↦ record {
      erased = write_head-decode start [] s (omega arith);
      at_home =
          λ x o. write_head-disk_other start [] s x (omega (arith, placed.fits)) ∙ v.at_home x o;
    }
  ]

  recover-idle :
      (s : Store) → decode (bread start s) ≡ [] → recover_from_log start s ≡ write_head start [] s
  unfolding recover_from_log read_head install_trans
  recover-idle s e = rw e refl

  recover-committed :
      (s : Store)
      → decode (bread start s) ≡ bs
      → recover_from_log start s ≡ write_head start [] (install_trans start 0 bs s)
  unfolding recover_from_log read_head
  recover-committed s e = rw e refl

  -- A recovery that may fail leaves the disk recoverable.
  pub recover-Safe :
      (p : ℕ) (s : Store)
      → Safe start size old new bs s.disk
      → Safe start size old new bs (recover_from_log start (reboot p s)).disk
  recover-Safe p s (before v) =
      rw (recover-idle (reboot p s) v.erased) (before (Idle-erase old (reboot p s) v))
  recover-Safe p s (after v) =
      rw (recover-idle (reboot p s) v.erased) (after (Idle-erase new (reboot p s) v))
  recover-Safe p s (during c) =
      rw (recover-committed (reboot p s) c.header)
        (finish-Safe start size old new bs placed (reboot p s) (reboot-Clean p s) c)

  pub recoveries-Safe :
      (ps : List ℕ) (s : Store)
      → Safe start size old new bs s.disk
      → Safe start size old new bs (recoveries start ps s).disk
  unfolding recoveries
  recoveries-Safe [] s v = v
  recoveries-Safe (p ∷ ps) s v = recoveries-Safe ps _ (recover-Safe p s v)

  -- A recovery with power enough ends in the old state or in the new one.
  pub recover-on :
      (q : ℕ) (s : Store)
      → length bs < q
      → Safe start size old new bs s.disk
      → Idle start size old new bs old (recover_from_log start (reboot q s)).disk
        ⊎ Idle start size old new bs new (recover_from_log start (reboot q s)).disk
  recover-on q s enough (before v) =
      rw (recover-idle (reboot q s) v.erased) (inl (Idle-erase old (reboot q s) v))
  recover-on q s enough (after v) =
      rw (recover-idle (reboot q s) v.erased) (inr (Idle-erase new (reboot q s) v))
  recover-on q s enough (during c) = rw (recover-committed (reboot q s) c.header) (
      inr (
        finish-on start size old new bs placed (reboot q s) (reboot-Clean q s) c
          (omega (arith, install_trans-power_left start 0 bs (reboot q s)))))
