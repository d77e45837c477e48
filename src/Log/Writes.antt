-- ===== src/Log/Writes.antt =====
-- What the loops of HW3/log.c write, and what they leave when the power fails on the way.
use operating_systems.Base.{
  ℕ, ◌+◌, ◌<◌, ◌≤◌, ◌≡◌, ◌≢◌, ◌⊎◌, refl, none, List, [], ◌∷◌, length, All, arith, ◌∙◌, ap₂,
}
use operating_systems.Log.Store.{Block, Store, bread, bwrite, or_block}
use operating_systems.Log.Ops.{write_log}

pub bwrite-disk_same :
    (b : ℕ) (c : Block) (s : Store) → 0 < (bwrite b c s).power → (bwrite b c s).disk b ≡ c
unfolding bwrite
bwrite-disk_same b c s p = ground arith

pub bwrite-disk_other :
    (b : ℕ) (c : Block) (s : Store) (x : ℕ) → x ≢ b → (bwrite b c s).disk x ≡ s.disk x
unfolding bwrite
bwrite-disk_other b c s x ne = ground arith

bwrite-dirty_other :
    (b : ℕ) (c : Block) (s : Store) (x : ℕ) → x ≢ b → (bwrite b c s).dirty x ≡ s.dirty x
unfolding bwrite
bwrite-dirty_other b c s x ne = ground arith

pub bwrite-dirty_none :
    (b : ℕ) (c : Block) (s : Store) (x : ℕ) → s.dirty x ≡ none → (bwrite b c s).dirty x ≡ none
unfolding bwrite
bwrite-dirty_none b c s x e = ground arith

pub bwrite-disk_cases :
    (b : ℕ) (c : Block) (s : Store)
    → (((bwrite b c s).disk b ≡ c) ⊎ ((bwrite b c s).disk b ≡ s.disk b))
unfolding bwrite
bwrite-disk_cases b c s = ground arith

pub bwrite-power : (b : ℕ) (c : Block) (s : Store) → 0 < (bwrite b c s).power → 0 < s.power
unfolding bwrite
bwrite-power b c s p = ground arith

module _ (start size : ℕ) (new : ℕ → Block) where
  -- Not a block of the log.
  abbrev pub Outside : ℕ → Type 0
  Outside x = (x < start) ⊎ (start + size ≤ x)

  -- The log blocks from `tail` on hold what is new of the blocks `bs`.
  abbrev pub Logged : (ℕ → Block) → ℕ → List ℕ → Type 0
  Logged d tail [] = Unit
  Logged d tail (b ∷ bs) = (d (start + tail + 1) ≡ new b) × Logged d (tail + 1) bs

  pub Logged-agree :
      (d d' : ℕ → Block) (tail : ℕ) (bs : List ℕ)
      → ((x : ℕ) → start + tail < x → x ≤ start + tail + length bs → d' x ≡ d x)
      → Logged d tail bs
      → Logged d' tail bs
  Logged-agree d d' tail [] same l = _
  Logged-agree d d' tail (b ∷ bs) same (e, l) = (
    same (start + tail + 1) (omega arith) (omega arith) ∙ e,
    Logged-agree d d' (tail + 1) bs (λ x lo hi. same x (omega arith) (omega arith)) l,
  )

  pub write_log-disk_other :
      (tail : ℕ) (bs : List ℕ) (s : Store) (x : ℕ)
      → (x ≤ start + tail) ⊎ (start + tail + length bs < x)
      → ((write_log start tail bs s).disk x ≡ s.disk x)
        × ((write_log start tail bs s).dirty x ≡ s.dirty x)
  unfolding write_log
  write_log-disk_other tail [] s x out = (refl, refl)
  write_log-disk_other tail (b ∷ bs) s x out =
      let (d, t) =
        write_log-disk_other (tail + 1) bs (bwrite (start + tail + 1) (bread b s) s) x
          (omega arith) in
      (
        d ∙ bwrite-disk_other (start + tail + 1) (bread b s) s x (omega arith),
        t ∙ bwrite-dirty_other (start + tail + 1) (bread b s) s x (omega arith),
      )

  pub write_log-clean :
      (tail : ℕ) (bs : List ℕ) (s : Store) (x : ℕ)
      → s.dirty x ≡ none
      → (write_log start tail bs s).dirty x ≡ none
  unfolding write_log
  write_log-clean tail [] s x e = e
  write_log-clean tail (b ∷ bs) s x e =
      write_log-clean (tail + 1) bs _ x (bwrite-dirty_none (start + tail + 1) (bread b s) s x e)

  pub write_log-power :
      (tail : ℕ) (bs : List ℕ) (s : Store) → 0 < (write_log start tail bs s).power → 0 < s.power
  unfolding write_log
  write_log-power tail [] s p = p
  write_log-power tail (b ∷ bs) s p =
      bwrite-power (start + tail + 1) (bread b s) s (write_log-power (tail + 1) bs _ p)

  pub write_log-Logged :
      (tail : ℕ) (bs : List ℕ) (s : Store)
      → All Outside bs
      → tail + length bs < size
      → ((x : ℕ) → Outside x → bread x s ≡ new x)
      → 0 < (write_log start tail bs s).power
      → Logged (write_log start tail bs s).disk tail bs
  unfolding write_log
  write_log-Logged tail [] s out fits view p = _
  write_log-Logged tail (b ∷ bs) s (o, out) fits view p =
      let s1 = bwrite (start + tail + 1) (bread b s) s in
      let on = write_log-power (tail + 1) bs s1 p in
      (
        (write_log-disk_other (tail + 1) bs s1 (start + tail + 1) (omega arith)).0
            ∙ bwrite-disk_same (start + tail + 1) (bread b s) s on
            ∙ view b o,
        write_log-Logged (tail + 1) bs s1 out (omega arith)
            (λ x out_x.
              let ne : x ≢ start + tail + 1 = omega arith in
              ap₂ or_block (bwrite-dirty_other (start + tail + 1) (bread b s) s x ne)
                (bwrite-disk_other (start + tail + 1) (bread b s) s x ne)
              ∙ view x out_x)
            p,
      )
