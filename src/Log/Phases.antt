-- ===== src/Log/Phases.antt =====
-- The phases of a transaction of HW3/log.c on the disk, and what recovery makes of each.
use operating_systems.Base.{
  ℕ, ◌+◌, ◌-◌, ◌<◌, ◌≡◌, ◌≢◌, ◌⊎◌, inl, inr, some, List, [], length, get_elem?, All, All-get, arith,
  ◌∙◌, ap, sym, subst, ◌≤◌, ◌==◌, true, false,
}
use native.Mathlib.Decide.{ℕ_discrete}
use operating_systems.Log.Store.{Block, Store, bread, bwrite}
use operating_systems.Log.Ops.{install_trans, write_head, decode}
use operating_systems.Log.Header.{decode-write_words}
use operating_systems.Log.Writes.{bwrite-disk_other, Outside, Logged, Logged-agree}
use operating_systems.Log.Installs.{Clean, install_trans-disk, install_trans-done}

pub write_head-disk_other :
    (start : ℕ) (cs : List ℕ) (s : Store) (x : ℕ)
    → x ≢ start
    → (write_head start cs s).disk x ≡ s.disk x
unfolding write_head
write_head-disk_other start cs s x ne = bwrite-disk_other start _ s x ne

pub write_head-decode :
    (start : ℕ) (cs : List ℕ) (s : Store)
    → 0 < s.power
    → decode ((write_head start cs s).disk start) ≡ cs
unfolding write_head bwrite
write_head-decode start cs s p =
    let on : (s.power == 0) ≡ false = ground arith in
    let here : (start == start) ≡ true = ground arith in
    rw (on, here) (decode-write_words cs (bread start s))

pub write_head-off : (start : ℕ) (cs : List ℕ) (s : Store) → s.power ≡ 0 → write_head start cs s ≡ s
unfolding write_head bwrite
write_head-off start cs s p = rw p

pub write_head-power_left :
    (start : ℕ) (cs : List ℕ) (s : Store) → (write_head start cs s).power ≡ s.power - 1
unfolding write_head bwrite
write_head-power_left start cs s = ground arith

module _ (start size : ℕ) (old new : ℕ → Block) (bs : List ℕ) where
  -- No transaction is in the log, and the other blocks are as `home` says.
  pub record Idle (home d : ℕ → Block) : Type 0 where
    pub erased : decode (d start) ≡ []
    pub at_home : (x : ℕ) → Outside start size new x → d x ≡ home x

  -- The transaction is in the log, and some of its blocks are installed.
  pub record Committed (d : ℕ → Block) : Type 0 where
    pub header : decode (d start) ≡ bs
    pub logged : Logged start size new d 0 bs
    pub mixed : (x : ℕ) → Outside start size new x → (d x ≡ old x) ⊎ (d x ≡ new x)

  pub data Safe (d : ℕ → Block) : Type 0 where
    before : Idle old d → Safe d
    during : Committed d → Safe d
    after : Idle new d → Safe d

  -- The blocks of the transaction are few enough and none of the log, and the others do not change.
  pub record Placed : Type 0 where
    pub fits : length bs < size
    pub out : All (Outside start size new) bs
    pub same :
        (x : ℕ) → Outside start size new x → ((i : ℕ) × (get_elem? bs i ≡ some x)) ⊎ (old x ≡ new x)

  module _ (placed : Placed) where
    Committed-install_trans :
        (s : Store)
        → Clean start size new s
        → Committed s.disk
        → Committed (install_trans start 0 bs s).disk
    Committed-install_trans s clean c = record {
      header =
          ap decode (in_log start (omega (arith, placed.fits)) (omega (arith, placed.fits)))
          ∙ c.header;
      logged =
          Logged-agree start size new s.disk (install_trans start 0 bs s).disk 0 bs
            (λ x lo hi. in_log x (omega arith) (omega (arith, placed.fits))) c.logged;
      mixed = λ x o. mix x o (writes x);
    }
      where
        writes :
            (x : ℕ)
            → ((install_trans start 0 bs s).disk x ≡ s.disk x)
              ⊎ (Outside start size new x × ((install_trans start 0 bs s).disk x ≡ new x))
        writes =
            install_trans-disk start size new 0 bs s placed.out (omega (arith, placed.fits)) clean
              c.logged

        in_log :
            (x : ℕ) → start ≤ x → x < start + size → (install_trans start 0 bs s).disk x ≡ s.disk x
        in_log x lo hi = elim (writes x) [ inl e ↦ e | inr (o, e) ↦ absurd (omega arith) ]

        mix :
            (x : ℕ)
            → Outside start size new x
            → ((install_trans start 0 bs s).disk x ≡ s.disk x)
              ⊎ (Outside start size new x × ((install_trans start 0 bs s).disk x ≡ new x))
            → ((install_trans start 0 bs s).disk x ≡ old x)
              ⊎ ((install_trans start 0 bs s).disk x ≡ new x)
        mix x o (inr (_, e)) = inr e
        mix x o (inl e) = elim (c.mixed x o) [ inl u ↦ inl (e ∙ u) | inr u ↦ inr (e ∙ u) ]

    -- With power left the installed blocks are all new, and the header can be erased.
    pub finish-on :
        (s : Store)
        → Clean start size new s
        → Committed s.disk
        → 0 < (install_trans start 0 bs s).power
        → Idle new (write_head start [] (install_trans start 0 bs s)).disk
    finish-on s clean c p = record {
      erased = write_head-decode start [] (install_trans start 0 bs s) p;
      at_home = λ x o.
          write_head-disk_other start [] (install_trans start 0 bs s) x (omega (arith, placed.fits))
          ∙ installed x o (placed.same x o);
    }
      where
        done : All (λ b. (install_trans start 0 bs s).disk b ≡ new b) bs
        done =
            install_trans-done start size new 0 bs s placed.out (omega (arith, placed.fits)) clean
              c.logged p

        installed :
            (x : ℕ)
            → Outside start size new x
            → ((i : ℕ) × (get_elem? bs i ≡ some x)) ⊎ (old x ≡ new x)
            → (install_trans start 0 bs s).disk x ≡ new x
        installed x o (inl (i, e)) =
            All-get (λ b. (install_trans start 0 bs s).disk b ≡ new b) bs i x e done
        installed x o (inr e) = elim ((Committed-install_trans s clean c).mixed x o) [
          | inl u ↦ u ∙ e
          | inr u ↦ u
        ]

    -- The end of a commit and of a recovery, wherever the power fails in it.
    pub finish-Safe :
        (s : Store)
        → Clean start size new s
        → Committed s.disk
        → Safe (write_head start [] (install_trans start 0 bs s)).disk
    finish-Safe s clean c = elim (ℕ_discrete (install_trans start 0 bs s).power 0) [
      | yes off ↦
          subst (λ t. Safe t.disk) (sym (write_head-off start [] (install_trans start 0 bs s) off))
            (during (Committed-install_trans s clean c))
      | no on ↦ after (finish-on s clean c (omega arith))
    ]
