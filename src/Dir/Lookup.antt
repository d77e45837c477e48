-- ===== src/Dir/Lookup.antt =====
-- `dirlookup` of HW3/fs.c finds the first entry of the name among the bytes of the directory.
use Prim.Native.Nat.{min}
use operating_systems.Base.{
  ℕ, zero, suc, ◌+◌, ◌-◌, ◌/◌, ◌%◌, ◌^◌, ◌<◌, ◌≤◌, ◌≡◌, ◌≢◌, refl, sym, ap, ◌∙◌, Bool, true, false,
  not, ◌&&◌, ◌||◌, Option, none, some, ◌>>=◌, ltb, leb, ◌==◌, if◌then◌else◌, arith,
}
use operating_systems.Base.Int.{ℤ, pos, negsuc}
use operating_systems.Str.{Bytes, strncmp}
use operating_systems.Str.Move.{within}
use operating_systems.Blocks.Map.{Disk, Superblock}
use operating_systems.Inode.Cache.{Dinode}
use operating_systems.Inode.Owned.{owned, byte_at, Sound}
use operating_systems.Inode.Kept.{Kept}
use operating_systems.Inode.Content.{readi}
use operating_systems.Inode.Reads.{Reads, readi_lem}
use operating_systems.Dir.Entries.{is_zero, namecmp, entry_inum, entry_name, no_read, read_entry}

-- A directory that is sound, of whole entries, and without holes.
pub record IsDir (sb : Superblock) (dp : Dinode) (d : Disk) : Type 0 where
  pub sound : Sound sb dp d
  pub kind : dp.kind ≡ 1
  pub whole : dp.size % 16 ≡ 0
  pub small : dp.size ≤ 71680
  pub full : (p : ℕ) → p < dp.size → owned dp d (p / 512) ≢ 0

pub IsDir-Kept :
    (sb : Superblock) (dp dp' : Dinode) (d d' : Disk)
    → IsDir sb dp d
    → Kept sb dp d dp' d'
    → IsDir sb dp' d' × (dp'.size ≡ dp.size)
IsDir-Kept sb dp dp' d d' ok k =
    let size : dp'.size ≡ dp.size = ap (λ (q : Dinode). q.size) k.rest in
    let kind : dp'.kind ≡ dp.kind = ap (λ (q : Dinode). q.kind) k.rest in
    (
      record {
        sound = k.sound;
        kind = kind ∙ ok.kind;
        whole = ap (λ n. n % 16) size ∙ ok.whole;
        small = (let s = ok.small in omega arith);
        full = λ p lt.
            let s = ok.small in
            let f = ok.full p (omega arith) in λ z. f (sym (k.grows (p / 512) (omega arith) f) ∙ z);
      },
      size,
    )

-- Does the entry at offset `k` have the name?
abbrev pub is_match : Bytes → Bytes → ℕ → Bool
is_match name f k =
    not (entry_inum (λ i. f (k + i)) == 0) && is_zero (namecmp name (entry_name (λ i. f (k + i))))

strncmp_agree :
    (n : ℕ) (s t u : Bytes) → ((i : ℕ) → i < n → t i ≡ u i) → strncmp s t n ≡ strncmp s u n
unfolding strncmp
strncmp_agree zero s t u same = refl
strncmp_agree (suc n) s t u same =
    let rest =
      strncmp_agree n (λ i. s (suc i)) (λ i. t (suc i)) (λ i. u (suc i))
        (λ i lt. same (suc i) (omega arith)) in
    rw (same 0 (omega arith), rest) refl

pub test_agree :
    (name de f : Bytes) (k : ℕ)
    → ((i : ℕ) → i < 16 → de i ≡ f (k + i))
    → (not (entry_inum de == 0) && is_zero (namecmp name (entry_name de))) ≡ is_match name f k
unfolding namecmp
test_agree name de f k same =
    rw
      (
        same 0 (omega arith),
        same 1 (omega arith),
        strncmp_agree 14 name (λ i. de (2 + i)) (λ i. f (k + (2 + i)))
            (λ i lt. same (2 + i) (omega arith)),
      )
      refl

pub is_match_agree :
    (name f g : Bytes) (k : ℕ)
    → ((i : ℕ) → i < 16 → f (k + i) ≡ g (k + i))
    → is_match name f k ≡ is_match name g k
is_match_agree name f g k same = test_agree name (λ i. f (k + i)) g k same

-- The first entry of the name from offset `start` on, if there is one.
abbrev pub FirstMatch : Bytes → Bytes → ℕ → ℕ → Option (ℕ × ℕ) → Type 0
FirstMatch name f start size none =
    (k : ℕ) → start ≤ k → k < size → k % 16 ≡ 0 → is_match name f k ≡ false
FirstMatch name f start size (some (off, inum)) =
    (start ≤ off)
    × (off < size)
    × (off % 16 ≡ 0)
    × (is_match name f off ≡ true)
    × (inum ≡ entry_inum (λ i. f (off + i)))
    × ((k : ℕ) → start ≤ k → k < off → k % 16 ≡ 0 → is_match name f k ≡ false)

-- What `read_entry` gives.
unfoldable pub ReadsEntry : Superblock → Dinode → ℕ → Disk → Option (Bytes × Dinode × Disk) → Type 0
ReadsEntry sb dp off d none = ⊥
ReadsEntry sb dp off d (some (de, dp', d')) =
    ((x : ℕ) → x < 16 → de x ≡ byte_at dp d (off + x)) × Kept sb dp d dp' d'

pub read_entry_lem :
    (sb : Superblock) (dp : Dinode) (off : ℕ) (d : Disk)
    → IsDir sb dp d
    → off + 16 ≤ dp.size
    → ReadsEntry sb dp off d (read_entry sb dp off d)
unfolding read_entry ReadsEntry
read_entry_lem sb dp off d ok inside =
    let small = ok.small in
    let kind = ok.kind in
    let good : ltb dp.size off || leb (2 ^ 32) (off + 16) ≡ false = ground arith in
    let all : min 16 (dp.size - off) ≡ 16 = omega arith in
    let spec =
      readi_lem sb no_read dp 0 off 16 d (λ x. 0) ok.sound (omega arith) small (omega arith)
        (omega arith) in
    entry (readi sb no_read dp 0 off 16 d (λ x. 0)) (rw (good, all) at spec)
  where
    entry :
        (o : Option (ℤ × Dinode × Disk × Bytes))
        → Reads sb dp d off 16 0 (λ x. 0) o
        → ReadsEntry sb dp off d (
            o >>= λ (r, dp', d', de). elim r [
              | pos n ↦ if n == 16 then some (de, dp', d') else none
              | negsuc n ↦ none
            ])
    entry none (p, low, high, z) = absurd (ok.full p (omega arith) z)
    entry (some (r, dp', d', de)) (answer, kept, bytes) = rw (answer) (
      (λ x lt.
          bytes x
          ∙ (let here : within 0 16 x ≡ true = ground arith in
              let place : x - 0 ≡ x = omega arith in rw (here, place) refl)),
      kept,
    )
