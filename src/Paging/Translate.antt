-- ===== src/Paging/Translate.antt =====
-- `uva2ka` of HW3/vm.c after `mappages`, and the bits of an entry.
use operating_systems.Base.{
  ℕ, zero, suc, ◌+◌, ◌-◌, ◌*◌, ◌/◌, ◌%◌, ◌^◌, ◌<◌, ◌≤◌, ◌≡◌, refl, sym, ap, subst, ◌∙◌, inl, inr,
  true, false, ◌&&◌, ◌||◌, Bool-cases, leb, some, List, ◌==◌, arith,
}
use Prim.Native.Nat.{max}
use mathlib.Core.Bool.{true≢false}
use operating_systems.Base.Int.{pos}
use operating_systems.Blocks.Bits.{has_bit, set_bit, or_bits, has_bit-set_bit}
use operating_systems.Kalloc.{Kmem, load_word}
use operating_systems.Paging.Walk.{
  pdx, page_of, p2v, is_present, pte_slot, walkpgdir, entry_of, mappages,
}
use operating_systems.Paging.Copies.{uva2ka}
use operating_systems.Paging.Space.{pde, table, entry, Tables}
use operating_systems.Paging.Entries.{entry_of-present}
use operating_systems.Paging.Ranges.{MapsTo, Unmapped}
use operating_systems.Paging.Mapping.{mappages_lem}

pub has_bit-or_bits :
    (width k x y : ℕ) → k < width → has_bit k (or_bits width x y) ≡ (has_bit k x || has_bit k y)
unfolding has_bit or_bits
has_bit-or_bits zero k x y lt = absurd (omega arith)
has_bit-or_bits (suc width) zero x y lt = ground arith
has_bit-or_bits (suc width) (suc k) x y lt =
    let half : (or_bits width (x / 2) (y / 2) * 2 + max (x % 2) (y % 2)) / 2
        ≡ or_bits width (x / 2) (y / 2) =
      omega arith in
    rw (half) (has_bit-or_bits width k (x / 2) (y / 2) (omega arith))

-- The number without its `n` lowest bits.
high : ℕ → ℕ → ℕ
high zero x = x
high (suc n) x = high n (x / 2)

high-or_bits : (width x y : ℕ) → high width (or_bits width x y) ≡ high width x
unfolding high or_bits
high-or_bits zero x y = refl
high-or_bits (suc width) x y =
    let half : (or_bits width (x / 2) (y / 2) * 2 + max (x % 2) (y % 2)) / 2
        ≡ or_bits width (x / 2) (y / 2) =
      omega arith in
    rw (half) (high-or_bits width (x / 2) (y / 2))

page_of-entry_of : (pa perm : ℕ) → pa % 4096 ≡ 0 → page_of (entry_of pa perm) ≡ pa
unfolding set_bit high
page_of-entry_of pa perm al =
    let h : or_bits 12 pa perm / 2 / 2 / 2 / 2 / 2 / 2 / 2 / 2 / 2 / 2 / 2 / 2
        ≡ pa / 2 / 2 / 2 / 2 / 2 / 2 / 2 / 2 / 2 / 2 / 2 / 2 =
      high-or_bits 12 pa perm in
    omega (arith, h)

has_bit-entry_of :
    (k pa perm : ℕ)
    → 0 < k
    → k < 12
    → has_bit k (entry_of pa perm) ≡ (has_bit k pa || has_bit k perm)
has_bit-entry_of k pa perm pos_k lt =
    has_bit-set_bit k 0 (or_bits 12 pa perm)
    ∙ (let ne : (k == 0) ≡ false = ground arith in rw (ne) (has_bit-or_bits 12 k pa perm lt))

absent_zero : is_present 0 ≡ false
unfolding has_bit
absent_zero = refl

-- `uva2ka` of an address whose entry is present and for users.
uva2ka-entry :
    (pgdir va : ℕ) (k : Kmem)
    → is_present (entry k.mem pgdir va) ≡ true
    → has_bit 2 (entry k.mem pgdir va) ≡ true
    → uva2ka pgdir va k ≡ p2v (page_of (entry k.mem pgdir va))
unfolding uva2ka walkpgdir
uva2ka-entry pgdir va k present user = elim (Bool-cases (is_present (pde k.mem pgdir (pdx va)))) [
  | inr n ↦ absurd (true≢false (sym present ∙ no_table n))
  | inl y ↦
      let p : is_present (load_word (pte_slot (table k.mem pgdir (pdx va)) va) k.mem) ≡ true =
        (rw (y) at present) in
      let u : has_bit 2 (load_word (pte_slot (table k.mem pgdir (pdx va)) va) k.mem) ≡ true =
        (rw (y) at user) in
      rw (y, p, u) refl
]
  where
    no_table :
        is_present (pde k.mem pgdir (pdx va)) ≡ false → is_present (entry k.mem pgdir va) ≡ false
    no_table n =
        (let zero_entry : entry k.mem pgdir va ≡ 0 = rw (n) refl in ap is_present zero_entry)
        ∙ absent_zero

-- Where `mappages` mapped page-aligned memory for users and answered 0, under the conditions of
-- `mappages_lem`, `uva2ka` gives for each address of the range the kernel's address of its page of
-- that memory.
pub uva2ka-mappages :
    (pgdir q n pa perm : ℕ) (ps : List ℕ) (k k' : Kmem)
    → Tables pgdir ps k.mem k.freelist
    → q + n < 2 ^ 20
    → pa + n * 4096 < 2 ^ 32
    → Unmapped pgdir q n k.mem
    → pa % 4096 ≡ 0
    → has_bit 2 perm ≡ true
    → mappages pgdir (q * 4096) ((n + 1) * 4096) pa perm k ≡ some (pos 0, k')
    → (va : ℕ) → va < 2 ^ 32
    → q ≤ va / 4096
    → va / 4096 ≤ q + n
    → uva2ka pgdir va k' ≡ p2v (pa + (va / 4096 - q) * 4096)
uva2ka-mappages pgdir q n pa perm ps k k' ok top phys free al user done va lt low high' =
    let (z, ps', t, all) : MapsTo pgdir q n pa perm k.mem (some (pos 0, k')) =
      subst (MapsTo pgdir q n pa perm k.mem) done
        (mappages_lem pgdir q n pa perm ps k ok top phys free) in
    let inside : leb q (va / 4096) && leb (va / 4096) (q + n) ≡ true = ground arith in
    let is : entry k'.mem pgdir va ≡ entry_of (pa + (va / 4096 - q) * 4096) perm =
      all va lt ∙ rw (inside) refl in
    uva2ka-entry pgdir va k' (ap is_present is ∙ entry_of-present _ perm) (
      ap (has_bit 2) is
      ∙ has_bit-entry_of 2 _ perm (omega arith) (omega arith)
      ∙ rw (user) (ground arith))
    ∙ ap (λ e. p2v (page_of e)) is
    ∙ ap p2v (page_of-entry_of (pa + (va / 4096 - q) * 4096) perm (omega arith))
