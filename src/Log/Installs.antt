-- ===== src/Log/Installs.antt =====
-- What `install_trans` of HW3/log.c writes, and what it leaves when the power fails on the way.
use operating_systems.Base.{
  ℕ, ◌+◌, ◌<◌, ◌≤◌, ◌≡◌, ◌⊎◌, inl, inr, refl, none, List, [], ◌∷◌, length, All, arith, ◌∙◌, ap,
}
use operating_systems.Log.Store.{Block, Store, bread, bwrite, or_block}
use operating_systems.Log.Ops.{install_trans}
use operating_systems.Log.Writes.{
  bwrite-disk_same, bwrite-disk_other, bwrite-dirty_none, bwrite-disk_cases, bwrite-power, Outside,
  Logged, Logged-agree,
}
use native.Mathlib.Decide.{ℕ_discrete}

module _ (start size : ℕ) (new : ℕ → Block) where
  pub install_trans-clean :
      (tail : ℕ) (bs : List ℕ) (s : Store) (x : ℕ)
      → s.dirty x ≡ none
      → (install_trans start tail bs s).dirty x ≡ none
  unfolding install_trans
  install_trans-clean tail [] s x e = e
  install_trans-clean tail (b ∷ bs) s x e =
      install_trans-clean (tail + 1) bs _ x (bwrite-dirty_none b (bread (start + tail + 1) s) s x e)

  pub install_trans-power :
      (tail : ℕ) (bs : List ℕ) (s : Store) → 0 < (install_trans start tail bs s).power → 0 < s.power
  unfolding install_trans
  install_trans-power tail [] s p = p
  install_trans-power tail (b ∷ bs) s p =
      bwrite-power b (bread (start + tail + 1) s) s (install_trans-power (tail + 1) bs _ p)

  -- The blocks of the log are not dirty.
  abbrev pub Clean : Store → Type 0
  Clean s = (x : ℕ) → start ≤ x → x < start + size → s.dirty x ≡ none

  Clean-bwrite : (b : ℕ) (c : Block) (s : Store) → Clean s → Clean (bwrite b c s)
  Clean-bwrite b c s clean x lo hi = bwrite-dirty_none b c s x (clean x lo hi)

  -- What the next round reads from the log.
  Logged-block :
      (tail b : ℕ) (bs : List ℕ) (s : Store)
      → tail + length (b ∷ bs) < size
      → Clean s
      → Logged start size new s.disk tail (b ∷ bs)
      → bread (start + tail + 1) s ≡ new b
  Logged-block tail b bs s fits clean (e, l) =
      ap (λ t. or_block t (s.disk (start + tail + 1)))
        (clean (start + tail + 1) (omega arith) (omega arith))
      ∙ e

  -- The log is still there for the rounds that follow.
  Logged-bwrite :
      (tail b : ℕ) (c : Block) (bs : List ℕ) (s : Store)
      → Outside start size new b
      → tail + length (b ∷ bs) < size
      → Logged start size new s.disk tail (b ∷ bs)
      → Logged start size new (bwrite b c s).disk (tail + 1) bs
  Logged-bwrite tail b c bs s o fits (e, l) =
      Logged-agree start size new s.disk (bwrite b c s).disk (tail + 1) bs
        (λ x lo hi. bwrite-disk_other b c s x (omega arith)) l

  -- A block stays as it was, or it is new and not of the log.
  pub install_trans-disk :
      (tail : ℕ) (bs : List ℕ) (s : Store)
      → All (Outside start size new) bs
      → tail + length bs < size
      → Clean s
      → Logged start size new s.disk tail bs
      → (x : ℕ)
      → ((install_trans start tail bs s).disk x ≡ s.disk x)
        ⊎ (Outside start size new x × ((install_trans start tail bs s).disk x ≡ new x))
  unfolding install_trans
  install_trans-disk tail [] s out fits clean l x = inl refl
  install_trans-disk tail (b ∷ bs) s (o, out) fits clean l x =
      let c = bread (start + tail + 1) s in
      elim (install_trans-disk (tail + 1) bs (bwrite b c s) out (omega arith)
        (Clean-bwrite b c s clean) (Logged-bwrite tail b c bs s o fits l) x) [
          | inr written ↦ inr written
          | inl kept ↦ elim (ℕ_discrete x b) [
            | no ne ↦ inl (kept ∙ bwrite-disk_other b c s x ne)
            | yes here ↦ elim (bwrite-disk_cases b c s) [
              | inl done ↦
                  inr (rw here o, kept ∙ rw here (done ∙ Logged-block tail b bs s fits clean l))
              | inr off ↦ inl (kept ∙ rw here off)
            ]
          ]
        ]

  -- With power left over every block is new.
  pub install_trans-done :
      (tail : ℕ) (bs : List ℕ) (s : Store)
      → All (Outside start size new) bs
      → tail + length bs < size
      → Clean s
      → Logged start size new s.disk tail bs
      → 0 < (install_trans start tail bs s).power
      → All (λ b. (install_trans start tail bs s).disk b ≡ new b) bs
  unfolding install_trans
  install_trans-done tail [] s out fits clean l p = _
  install_trans-done tail (b ∷ bs) s (o, out) fits clean l p =
      let c = bread (start + tail + 1) s in
      let s1 = bwrite b c s in
      let clean1 = Clean-bwrite b c s clean in
      let l1 = Logged-bwrite tail b c bs s o fits l in
      let first : s1.disk b ≡ new b =
        bwrite-disk_same b c s (install_trans-power (tail + 1) bs s1 p)
        ∙ Logged-block tail b bs s fits clean l in
      (
        elim (install_trans-disk (tail + 1) bs s1 out (omega arith) clean1 l1 b) [
          | inl kept ↦ kept ∙ first
          | inr (_, written) ↦ written
        ],
        install_trans-done (tail + 1) bs s1 out (omega arith) clean1 l1 p,
      )
